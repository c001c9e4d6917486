-- ===== src/Examples/Accounts.antt =====
-- Users, the login and the rate limiter at concrete inputs (db.go, auth.go, handlers.go, ratelimit.go).
use gateway.Prelude.{
  ℕ, ◌-◌, min, ◌≡◌, refl, String, Bool, true, false, List, [], ◌∷◌, ◌==◌, ltb, empty_map, arith,
}
use gateway.Users.{User, api, Store, row_of, get_user}
use gateway.Users.Coherence.{Call, looks_up, creates, sets_status, run, lookup-run}
use gateway.Login.{
  minute, fresh, Admin, db_error, found, Attempt, LoginState, allow, authenticate, failed,
  handle_admin_login, run_logins,
}
use gateway.Login.Guard.{Counts}
use gateway.Login.Handler.{OneEnters, run_logins-OneEnters, run_logins-Counts}
use gateway.Login.Interleaving.{Racing}
use gateway.RateLimit.{Rate, Registry}
use gateway.RateLimit.Buckets.{IsSound, bucket}
use gateway.RateLimit.Bursts.{RateLaws, allowance, served, requests_of, served-requests}

abbrev ann : User
ann = record { id = 1; name = "ann"; api_key = "k1"; status = "active"; rate_limit = 2 }

abbrev one_user : Store
one_user = record { rows = ann ∷ []; cache = []; dropped = [] }

abbrev same_text : String → String
same_text s = s

abbrev day : List Call
day =
    creates 2 "bob" "k2" 5
    ∷ looks_up (api "k1") 0 true
    ∷ sets_status 2 "active" true
    ∷ sets_status 1 "disabled" true
    ∷ []

lookup-run_example :
    (get_user (api "k1") 7 true (run same_text one_user day)).1
    ≡ row_of (api "k1") (run same_text one_user day).rows
lookup-run_example = lookup-run same_text day one_user (api "k1") 7 tt

abbrev same_number : ℕ → ℕ → Bool
same_number h p = h == p

abbrev guess : ℕ → ℕ → Attempt ℕ
guess t p = record { form_ok = true; now = t; later = t; password = p; save_ok = true }

abbrev browser : LoginState
browser = record { guard = fresh; admin = false; derived = 0 }

abbrev locked : LoginState
locked = record {
  guard = record { failures = 0; lockout = minute; blocked_until = minute };
  admin = false;
  derived = 5;
}

abbrev wrong : List (Admin ℕ × Attempt ℕ)
wrong = (found 42, guess 1 7) ∷ (db_error, guess 2 42) ∷ (found 42, guess 3 8) ∷ []

abbrev tries : List (Admin ℕ × Attempt ℕ)
tries = (found 42, guess 1 7) ∷ (found 42, guess 9 42) ∷ []

run_logins-OneEnters_example : OneEnters same_number tries browser
unfolding handle_admin_login allow authenticate run_logins failed
run_logins-OneEnters_example = run_logins-OneEnters same_number tries browser refl refl

run_logins-Counts_example :
    Counts
      (run_logins same_number browser wrong).derived
      (run_logins same_number browser wrong).guard
run_logins-Counts_example =
    run_logins-Counts same_number wrong browser (refl, (tt, (refl, tt)))
      (record { in_allowance = refl; breaches = refl })

abbrev idle : Racing
idle = record { guard = fresh; deriving_now = 0; started = 0 }

-- A bucket that is never refilled: the tokens that are left.
abbrev draining : Rate
draining = record { Limiter = ℕ; new_limiter = λ limit t. limit; allow = λ l t. (l - 1, ltb 0 l) }

abbrev draining-RateLaws : RateLaws draining
draining-RateLaws = record {
  tokens = λ l t. l;
  starts_full = λ limit t. refl;
  takes = λ l t. refl;
  answers = λ l t. refl;
}

abbrev no_limiters : Registry draining
no_limiters = record { m = empty_map; heap = empty_map; next = 0 }

no_limiters-IsSound : IsSound no_limiters
no_limiters-IsSound = record {
  made = λ u e h. absurd (ground (arith, h));
  kept = λ a h. absurd (omega (arith, h));
  apart = λ u v e f h k same. absurd (ground (arith, h));
}

abbrev two_each : ℕ → ℕ
two_each u = 2

served-requests_example :
    served draining-RateLaws two_each 0 no_limiters 1 (1 ∷ 2 ∷ 1 ∷ 1 ∷ [])
    ≡ min
        (requests_of draining-RateLaws two_each 0 1 (1 ∷ 2 ∷ 1 ∷ 1 ∷ []))
        (allowance draining-RateLaws two_each 0 (bucket no_limiters 1) (two_each 1))
served-requests_example =
    served-requests draining-RateLaws two_each 0 (1 ∷ 2 ∷ 1 ∷ 1 ∷ []) no_limiters 1
      no_limiters-IsSound (omega arith)
