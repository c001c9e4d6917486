-- ===== src/Usage/Bars.antt =====
-- The quantized bar classes (usage.go: usageBarClass).
use gateway.Prelude.{ℕ, ◌-◌, ◌*◌, ◌/◌, ◌%◌, ◌≤◌, ◌<◌, ◌≡◌, arith}
use native.Mathlib.Nat.{mul-div_cancel_left, le-div_iff_mul-le, div-mul-le_self}
use gateway.Usage.{capped, floored, usage_bar_class}

-- The class of a client that used tokens, on the scale of the largest one.
pub record IsBar (n : ℕ) : Type 0 where
  pub at_least : 10 ≤ n
  pub at_most : n ≤ 100
  pub stepped : n % 10 ≡ 0

class-positive :
    (tokens max : ℕ)
    → 0 < tokens
    → 0 < max
    → usage_bar_class tokens max
      ≡ capped (floored (tokens * 100 / max) - floored (tokens * 100 / max) % 10)
unfolding usage_bar_class
class-positive tokens max h k = ground arith

step-IsBar : (p : ℕ) → IsBar (capped (floored p - floored p % 10))
unfolding capped floored
step-IsBar p = record { at_least = ground arith; at_most = ground arith; stepped = ground arith }

step_mono :
    (p q : ℕ) → p ≤ q → capped (floored p - floored p % 10) ≤ capped (floored q - floored q % 10)
unfolding capped floored
step_mono p q h = ground arith

full-bar : (p : ℕ) → p ≡ 100 → capped (floored p - floored p % 10) ≡ 100
unfolding capped floored
full-bar p e = ground arith

div_mono : (a b m : ℕ) → 0 < m → a ≤ b → a / m ≤ b / m
div_mono a b m h k = (le-div_iff_mul-le h).1 (omega (arith, div-mul-le_self a m, k))

-- A client that used tokens has a class between 10 and 100 in steps of 10, so it is visible; the
-- classes order the clients as their totals do; and the client with the largest total has class 100.
pub usage_bar_class-IsBar :
    (tokens more max : ℕ)
    → 0 < tokens
    → tokens ≤ more
    → more ≤ max
    → IsBar (usage_bar_class tokens max)
      × ((usage_bar_class max max ≡ 100) × (usage_bar_class tokens max ≤ usage_bar_class more max))
usage_bar_class-IsBar tokens more max h u k = (
  rw (class-positive tokens max h positive) (step-IsBar (tokens * 100 / max)),
  (
    rw (class-positive max max positive positive) (full-bar (max * 100 / max) hundred),
    rw
        (
          class-positive tokens max h positive,
          class-positive more max (omega (arith, h, u)) positive,
        )
        (step_mono _ _ (div_mono (tokens * 100) (more * 100) max positive (omega (arith, u)))),
  ),
)
  where
    positive : 0 < max
    positive = omega (arith, h, k, u)

    hundred : max * 100 / max ≡ 100
    hundred = mul-div_cancel_left 100 positive
