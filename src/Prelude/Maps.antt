-- ===== src/Prelude/Maps.antt =====
-- Keys with a Boolean equality, and Go maps as functions from a key to its value, if there is one.
use Prim.Native.Nat.{ℕ}
use Prim.Native.String.{String}
use mathlib.Core.Path.{◌≡◌, refl}
use mathlib.Core.Logic.{◌↔◌, ◌≢◌, inl, inr}
use mathlib.Core.Bool.{Bool, true, false}
use mathlib.Core.Option.{Option, none, some}
use text.Mathlib.Text.{◌==◌ as str_eq}
use text.Mathlib.TextEquality.{eq_iff}
use gateway.Prelude.Tests.{if◌then◌else◌, ◌==◌, ==_iff, Bool-cases}

pub record Eq (K : Type 0) : Type 0 where
  pub beq : K → K → Bool
  pub beq_iff : (a b : K) → (beq a b ≡ true) ↔ (a ≡ b)

instance abbrev pub nat_key : Eq ℕ
nat_key = record { beq = ◌==◌; beq_iff = ==_iff }

instance abbrev pub string_key : Eq String
string_key = record { beq = str_eq; beq_iff = eq_iff }

abbrev pub Map : Type 0 → Type 0 → Type 0
Map K V = K → Option V

abbrev pub empty_map : {K V : Type 0} → Map K V
empty_map k = none

module _ {K : Type 0} ⦃e : Eq K⦄ where
  pub beq_refl : (k : K) → e.beq k k ≡ true
  beq_refl k = (e.beq_iff k k).1 refl

  pub beq_ne : (k j : K) → k ≢ j → e.beq k j ≡ false
  beq_ne k j h = elim (Bool-cases (e.beq k j)) [
    | inl same ↦ absurd (h ((e.beq_iff k j).0 same))
    | inr other ↦ other
  ]

module _ {K V : Type 0} ⦃e : Eq K⦄ where
  -- m[k] = v
  unfoldable pub insert : K → V → Map K V → Map K V
  insert k v m j = if e.beq k j then some v else m j

  -- delete(m, k)
  unfoldable pub delete : K → Map K V → Map K V
  delete k m j = if e.beq k j then none else m j

  pub insert_self : (k : K) (v : V) (m : Map K V) → insert k v m k ≡ some v
  unfolding insert
  insert_self k v m = rw (beq_refl k)

  pub delete_self : (k : K) (m : Map K V) → delete k m k ≡ none
  unfolding delete
  delete_self k m = rw (beq_refl k)

  pub insert_ne : (k j : K) (v : V) (m : Map K V) → k ≢ j → insert k v m j ≡ m j
  unfolding insert
  insert_ne k j v m h = rw (beq_ne k j h)

  pub delete_ne : (k j : K) (m : Map K V) → k ≢ j → delete k m j ≡ m j
  unfolding delete
  delete_ne k j m h = rw (beq_ne k j h)
