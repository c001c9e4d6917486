-- ===== src/Login/Interleaving.antt =====
-- Attempts that overlap. handleAdminLogin asks the guard, derives, and only then records a failure;
-- the guard's mutex covers each call on its own, so other requests run between the two.
use gateway.Prelude.{ℕ, zero, suc, ◌+◌, ◌-◌, ◌≤◌, ◌≡◌, arith, if◌then◌else◌, ◌==◌}
use gateway.Login.{LoginGuard, allow, failed}

-- The requests that have passed `allow` and are deriving, and the derivations started so far.
pub record Racing : Type 0 where
  pub guard : LoginGuard
  pub deriving_now : ℕ
  pub started : ℕ

-- A request arrives at the guard: the call of allow, and the start of the derivation.
pub arrive : Racing → ℕ → Racing
arrive s now =
    if (allow s.guard now).0
    then record s { deriving_now = s.deriving_now + 1; started = s.started + 1 }
    else s

-- A derivation ends with a wrong password, and the failure is recorded.
pub finish : Racing → ℕ → Racing
finish s now =
    if s.deriving_now == 0
    then s
    else record s { guard = (failed s.guard now).0; deriving_now = s.deriving_now - 1 }

pub arrive_times : ℕ → ℕ → Racing → Racing
arrive_times zero now s = s
arrive_times (suc n) now s = arrive_times n now (arrive s now)

arrive-open :
    (s : Racing) (now : ℕ)
    → s.guard.blocked_until ≤ now
    → arrive s now ≡ record s { deriving_now = s.deriving_now + 1; started = s.started + 1 }
unfolding arrive allow
arrive-open s now h = ground arith

-- However many requests arrive before the first derivation has ended, all of them derive: the
-- allowance of five does not bound the work of a burst.
pub burst_unbounded :
    (n now : ℕ) (s : Racing)
    → s.guard.blocked_until ≤ now
    → (arrive_times n now s).started ≡ s.started + n
unfolding arrive_times
burst_unbounded zero now s h = omega arith
burst_unbounded (suc n) now s h =
    rw (arrive-open s now h, arrive_times)
      (omega (
        arith,
        burst_unbounded n now
            (record s { deriving_now = s.deriving_now + 1; started = s.started + 1 }) h,
      ))
