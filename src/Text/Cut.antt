-- ===== src/Text/Cut.antt =====
-- Truncation cuts whole runes and keeps as many of them as fit.
use gateway.Prelude.{
  ℕ, zero, suc, ◌+◌, ◌-◌, ◌≤◌, ◌<◌, ◌≡◌, refl, sym, ap, inl, inr, true, false, List, [], ◌∷◌, ◌++◌,
  arith, leb, if◌then◌else◌, length, take, All, Bool-cases, length-append, leb→le, le→leb,
}
use gateway.Text.{Bytes, rune_start, start_at, back_off, truncate_to, truncate_input}
use gateway.Text.Runes.{Rune, IsRune, bytes_of, flatten, fit}

pub back_off-le : (s : Bytes) (n : ℕ) → back_off s n ≤ n
unfolding back_off
back_off-le s zero = omega arith
back_off-le s (suc n) = ground (arith, back_off-le s n)

-- One step of the loop.
back_off_step :
    (s : Bytes) (n : ℕ) → back_off s (suc n) ≡ (if start_at s (suc n) then suc n else back_off s n)
unfolding back_off
back_off_step s n = refl

take-append_left {ℓ} :
    {A : Type ℓ} (xs ys : List A) (n : ℕ) → take (length xs + n) (xs ++ ys) ≡ xs ++ take n ys
take-append_left [] ys n = let e : 0 + n ≡ n = omega arith in rw e
take-append_left (x ∷ xs) ys n =
    let e : suc (length xs) + n ≡ suc (length xs + n) = omega arith in
    rw e (ap (λ zs. x ∷ zs) (take-append_left xs ys n))

start_at-append : (s t : Bytes) (i j : ℕ) → j ≡ length s + i → start_at (s ++ t) j ≡ start_at t i
unfolding start_at
start_at-append [] t i j e = let f : j ≡ i = omega arith in rw f
start_at-append (b ∷ s) t i zero e = absurd (omega arith)
start_at-append (b ∷ s) t i (suc j) e = start_at-append s t i j (omega arith)

start_at_rest :
    (s t : Bytes) (i : ℕ)
    → All (λ b. rune_start b ≡ false) s
    → i < length s
    → start_at (s ++ t) i ≡ false
unfolding start_at
start_at_rest [] t i h lt = elim lt [ ]
start_at_rest (b ∷ s) t zero h lt = h.0
start_at_rest (b ∷ s) t (suc i) h lt = start_at_rest s t i h.1 (omega arith)

start_at_inside :
    (r : Rune) (t : Bytes) (i : ℕ)
    → IsRune r
    → suc i < length (bytes_of r)
    → start_at (bytes_of r ++ t) (suc i) ≡ false
unfolding start_at
start_at_inside r t i v lt = start_at_rest r.rest t i v.continues (omega arith)

-- Within the first rune the cut goes back to its start.
pub back_off_inside :
    (r : Rune) (t : Bytes) (n : ℕ)
    → IsRune r
    → n < length (bytes_of r)
    → back_off (bytes_of r ++ t) n ≡ 0
back_off_inside r t zero v lt = unfold back_off in refl
back_off_inside r t (suc n) v lt =
    rw (back_off_step, start_at_inside r t n v lt) (back_off_inside r t n v (omega arith))

-- Past the first rune it is the cut of what follows.
back_off-append :
    (s t : Bytes) (n j : ℕ)
    → j ≡ length s + n
    → 0 < length s
    → start_at t 0 ≡ true
    → back_off (s ++ t) j ≡ length s + back_off t n
back_off-append s t n zero e h z = absurd (omega arith)
back_off-append s t zero (suc j) e h z =
    rw (back_off_step, start_at-append s t 0 (suc j) e, z) (unfold back_off in e)
back_off-append s t (suc n) (suc j) e h z =
    rw (back_off_step (s ++ t) j, back_off_step t n, start_at-append s t (suc n) (suc j) e)
      (ground (arith, back_off-append s t n j (omega arith) h z))

flatten_starts :
    (rs : List Rune) → All IsRune rs → 0 < length (flatten rs) → start_at (flatten rs) 0 ≡ true
flatten_starts [] v h = elim h [ ]
flatten_starts (r ∷ rs) v h = unfold start_at in v.0.leads

fit_step :
    (n : ℕ) (r : Rune) (rs : List Rune)
    → fit n (r ∷ rs)
      ≡ (if leb (length (bytes_of r)) n then r ∷ fit (n - length (bytes_of r)) rs else [])
unfolding fit
fit_step n r rs = refl

-- The loop's cut of a text that is too long is the end of the last rune that fits.
pub take-back_off :
    (rs : List Rune) (n : ℕ)
    → All IsRune rs
    → n < length (flatten rs)
    → take (back_off (flatten rs) n) (flatten rs) ≡ flatten (fit n rs)
take-back_off [] n v h = elim h [ ]
take-back_off (r ∷ rs) n v h = elim (Bool-cases (leb (length (bytes_of r)) n)) [
  | inl fits ↦
      let m = n - length (bytes_of r) in
      let split : n ≡ length (bytes_of r) + m = omega (arith, leb→le _ _ fits) in
      let inside : m < length (flatten rs) =
        omega (arith, length-append (bytes_of r) (flatten rs)) in
      let start = flatten_starts rs v.1 (omega arith) in
      rw
        (
          fit_step,
          fits,
          back_off-append (bytes_of r) (flatten rs) m n split (omega arith) start,
          take-append_left (bytes_of r) (flatten rs) (back_off (flatten rs) m),
        )
        (ap (λ t. bytes_of r ++ t) (take-back_off rs m v.1 inside))
  | inr over ↦ rw (fit_step, over, back_off_inside r (flatten rs) n v.0 (ground arith))
]

pub flatten-fit_all :
    (rs : List Rune) (n : ℕ) → length (flatten rs) ≤ n → flatten (fit n rs) ≡ flatten rs
flatten-fit_all [] n h = unfold fit in refl
flatten-fit_all (r ∷ rs) n h =
    let l = length-append (bytes_of r) (flatten rs) in
    rw (fit_step, le→leb (length (bytes_of r)) n (omega arith))
      (ap (λ t. bytes_of r ++ t) (flatten-fit_all rs (n - length (bytes_of r)) (omega arith)))

pub length-fit-le : (rs : List Rune) (n : ℕ) → length (flatten (fit n rs)) ≤ n
length-fit-le [] n = unfold fit in omega arith
length-fit-le (r ∷ rs) n = rw fit_step (
    ground (
      arith,
      length-append (bytes_of r) (flatten (fit (n - length (bytes_of r)) rs)),
      length-fit-le rs (n - length (bytes_of r)),
    ))

-- On a text of whole runes, truncateTo keeps exactly the longest run of whole runes of at most `n`
-- bytes: no rune is split, and no rune that still fits is dropped.
pub truncate_to-fit :
    (rs : List Rune) (n : ℕ) → All IsRune rs → truncate_to (flatten rs) n ≡ flatten (fit n rs)
unfolding truncate_to
truncate_to-fit rs n v = elim (Bool-cases (leb (length (flatten rs)) n)) [
  | inl short ↦ rw short (sym (flatten-fit_all rs n (leb→le _ _ short)))
  | inr long ↦ rw long (take-back_off rs n v (ground arith))
]

-- truncateInput under MaxMsgLen is the same cut.
pub truncate_input-eq-truncate_to : (n : ℕ) (s : Bytes) → truncate_input n s ≡ truncate_to s n
unfolding truncate_input truncate_to
truncate_input-eq-truncate_to n s = refl
