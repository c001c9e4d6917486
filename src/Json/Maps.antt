-- ===== src/Json/Maps.antt =====
-- The laws of map accesses and of the comparison of text.
use gateway.Prelude.{
  ◌≡◌, refl, ap, String, str_eq, eq_iff, true, false, Bool-cases, inl, inr, List, [], ◌∷◌, ==_refl,
  if◌then◌else◌, arith,
}
use gateway.Text.{Bytes}
use gateway.Json.{Json, null, Fields, no_fields, field, get, has, set, bytes_eq, items, elements}

pub str_eq_refl : (k : String) → str_eq k k ≡ true
str_eq_refl k = (eq_iff k k).1 refl

pub set_again : (k : String) (v w : Json) (f : Fields) → set k v (set k w f) ≡ set k v f
unfolding set
set_again k v w no_fields = simp (str_eq_refl k) refl
set_again k v w (field j u rest) = elim (Bool-cases (str_eq k j)) [
  | inl e ↦ simp (e, set) refl
  | inr e ↦ simp (e, set, set_again k v w rest) refl
]

pub get-set :
    (k j : String) (v : Json) (f : Fields) → get j (set k v f) ≡ (if str_eq j k then v else get j f)
unfolding get set
get-set k j v no_fields = refl
get-set k j v (field i w rest) =
    ground (arith, eq_iff k j, eq_iff j k, eq_iff k i, eq_iff j i, eq_iff i k, get-set k j v rest)

pub has-set :
    (k j : String) (v : Json) (f : Fields)
    → has j (set k v f) ≡ (if str_eq j k then true else has j f)
unfolding has set
has-set k j v no_fields = refl
has-set k j v (field i w rest) =
    ground (arith, eq_iff k j, eq_iff j k, eq_iff k i, eq_iff j i, eq_iff i k, has-set k j v rest)

-- A missing key reads as nil.
pub get-has : (k : String) (f : Fields) → has k f ≡ false → get k f ≡ null
unfolding get has
get-has k no_fields h = refl
get-has k (field j v rest) h = ground (arith, get-has k rest)

pub bytes_eq_refl : (s : Bytes) → bytes_eq s s ≡ true
unfolding bytes_eq
bytes_eq_refl [] = refl
bytes_eq_refl (b ∷ s) = simp (==_refl b, bytes_eq_refl s) refl

pub bytes_eq-eq : (s t : Bytes) → bytes_eq s t ≡ true → s ≡ t
unfolding bytes_eq
bytes_eq-eq [] [] h = refl
bytes_eq-eq [] (b ∷ t) h = cc
bytes_eq-eq (a ∷ s) [] h = cc
bytes_eq-eq (a ∷ s) (b ∷ t) h = ground (arith, h, bytes_eq-eq s t)

pub elements-items : (vs : List Json) → elements (items vs) ≡ vs
unfolding elements items
elements-items [] = refl
elements-items (v ∷ vs) = ap (λ r. v ∷ r) (elements-items vs)
