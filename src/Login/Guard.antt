-- ===== src/Login/Guard.antt =====
-- The lockout schedule of loginGuard.
use gateway.Prelude.{
  ℕ, zero, suc, ◌+◌, ◌*◌, ◌/◌, ◌%◌, dec_lt, ◌<◌, ◌≡◌, ◌⊎◌, refl, sym, ap, ◌∙◌, ◌-◌, true, false,
  arith, ltb, if◌then◌else◌,
}
use gateway.Login.{minute, login_max_failures, LoginGuard, failed, next_lockout, allow}

-- The counter stays under the allowance, and the lockout is one of six lengths.
pub record IsValid (g : LoginGuard) : Type 0 where
  pub under : g.failures < login_max_failures
  pub scheduled :
      (g.lockout ≡ 0)
      ⊎ (g.lockout ≡ minute)
      ⊎ (g.lockout ≡ 2 * minute)
      ⊎ (g.lockout ≡ 4 * minute)
      ⊎ (g.lockout ≡ 8 * minute)
      ⊎ (g.lockout ≡ 15 * minute)

pub failed-IsValid : (g : LoginGuard) (now : ℕ) → IsValid g → IsValid (failed g now).0
unfolding failed next_lockout
failed-IsValid g now v = ground arith

-- The lockout after a number of breaches: 1, 2, 4, 8 and then 15 minutes.
abbrev pub lockout_after : ℕ → ℕ
lockout_after zero = 0
lockout_after (suc zero) = minute
lockout_after (suc (suc zero)) = 2 * minute
lockout_after (suc (suc (suc zero))) = 4 * minute
lockout_after (suc (suc (suc (suc zero)))) = 8 * minute
lockout_after (suc (suc (suc (suc (suc n))))) = 15 * minute

next_lockout_after : (n : ℕ) → next_lockout (lockout_after n) ≡ lockout_after (suc n)
unfolding next_lockout
next_lockout_after zero = refl
next_lockout_after (suc zero) = refl
next_lockout_after (suc (suc zero)) = refl
next_lockout_after (suc (suc (suc zero))) = refl
next_lockout_after (suc (suc (suc (suc zero)))) = refl
next_lockout_after (suc (suc (suc (suc (suc n))))) = refl

failed_early :
    (g : LoginGuard) (t : ℕ)
    → g.failures < 4
    → failed g t ≡ (record g { failures = g.failures + 1 }, 0)
unfolding failed
failed_early g t h = ground arith

failed_breach :
    (g : LoginGuard) (t : ℕ)
    → g.failures ≡ 4
    → ((failed g t).0.failures ≡ 0) × ((failed g t).0.lockout ≡ next_lockout g.lockout)
unfolding failed
failed_breach g t h = ground arith

-- The guard after `n` failures since it was last clear.
pub record Counts (n : ℕ) (g : LoginGuard) : Type 0 where
  pub in_allowance : g.failures ≡ n % 5
  pub breaches : g.lockout ≡ lockout_after (n / 5)

pub failed-Counts : (n : ℕ) (g : LoginGuard) (t : ℕ) → Counts n g → Counts (n + 1) (failed g t).0
failed-Counts n g t c = elim (dec_lt (n % 5) 4) [
  | yes early ↦
      let same : (n + 1) / 5 ≡ n / 5 = omega arith in
      rw (failed_early g t (omega (arith, c.in_allowance)))
        (record { in_allowance = omega (arith, c.in_allowance); breaches = rw same c.breaches })
  | no last ↦
      let next : (n + 1) / 5 ≡ suc (n / 5) = omega arith in
      let (none_left, doubled) = failed_breach g t (omega (arith, c.in_allowance)) in
      record {
        in_allowance = omega arith;
        breaches =
            doubled
            ∙ ap next_lockout c.breaches
            ∙ next_lockout_after (n / 5)
            ∙ ap lockout_after (sym next);
      }
]

-- A fifth failure blocks for the whole lockout that it reports: not an instant less, not one more.
pub allow-failed :
    (g : LoginGuard) (t now : ℕ)
    → g.failures ≡ 4
    → ((failed g t).1 ≡ next_lockout g.lockout)
      × (allow (failed g t).0 now
          ≡ (if ltb now (t + (failed g t).1) then (false, t + (failed g t).1 - now) else (true, 0)))
unfolding failed allow
allow-failed g t now h = ground arith
