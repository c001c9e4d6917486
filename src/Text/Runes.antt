-- ===== src/Text/Runes.antt =====
-- Text as the runes that its bytes encode. Every code point of UTF-8 encodes to such a rune.
use gateway.Prelude.{
  ℕ, ◌+◌, ◌-◌, ◌/◌, ◌%◌, ◌<◌, ◌≡◌, true, false, List, [], ◌∷◌, ◌++◌, arith, ltb, leb, if◌then◌else◌,
  length, All,
}
use gateway.Text.{Bytes, rune_start}

pub record Rune : Type 0 where
  pub lead : ℕ
  pub rest : Bytes

abbrev pub bytes_of : Rune → Bytes
bytes_of r = r.lead ∷ r.rest

abbrev pub flatten : List Rune → Bytes
flatten [] = []
flatten (r ∷ rs) = bytes_of r ++ flatten rs

pub record IsRune (r : Rune) : Type 0 where
  pub leads : rune_start r.lead ≡ true
  pub continues : All (λ b. rune_start b ≡ false) r.rest

-- The whole runes that fit into `n` bytes.
unfoldable pub fit : ℕ → List Rune → List Rune
fit n [] = []
fit n (r ∷ rs) =
    let rest = fit (n - length (bytes_of r)) rs in
    if leb (length (bytes_of r)) n then r ∷ rest else []

-- The UTF-8 encoding of a code point.
unfoldable pub encode : ℕ → Rune
encode c =
    if ltb c 0x80
    then record { lead = c; rest = [] }
    else if ltb c 0x800
    then record { lead = 0xC0 + c / 64; rest = (0x80 + c % 64) ∷ [] }
    else if ltb c 0x10000
    then record { lead = 0xE0 + c / 4096; rest = (0x80 + c / 64 % 64) ∷ (0x80 + c % 64) ∷ [] }
    else record {
      lead = 0xF0 + c / 262144;
      rest = (0x80 + c / 4096 % 64) ∷ (0x80 + c / 64 % 64) ∷ (0x80 + c % 64) ∷ [];
    }

pub encode-IsRune : (c : ℕ) → c < 0x110000 → IsRune (encode c)
unfolding encode rune_start
encode-IsRune c h = record { leads = ground arith; continues = ground arith }
