-- ===== src/Login.antt =====
-- The admin login: loginGuard (auth.go) and handleAdminLogin (handlers.go). Times are nanoseconds
-- on one clock, with 0 for the zero time; the guard's mutex makes each of its methods one step.
pub mod Guard
pub mod Handler
pub mod Interleaving
use gateway.Prelude.{
  ℕ, ◌+◌, ◌-◌, ◌*◌, ◌/◌, Bool, true, false, not, List, [], ◌∷◌, ltb, leb, ◌==◌, if◌then◌else◌,
}

abbrev pub second : ℕ
second = 1_000_000_000

abbrev pub minute : ℕ
minute = 60 * second

abbrev pub login_max_failures : ℕ
login_max_failures = 5

abbrev pub login_base_lockout : ℕ
login_base_lockout = minute

abbrev pub login_max_lockout : ℕ
login_max_lockout = 15 * minute

pub record LoginGuard : Type 0 where
  pub failures : ℕ
  pub lockout : ℕ
  pub blocked_until : ℕ

-- &loginGuard{}
abbrev pub fresh : LoginGuard
fresh = record { failures = 0; lockout = 0; blocked_until = 0 }

unfoldable pub allow : LoginGuard → ℕ → Bool × ℕ
allow g now = if ltb now g.blocked_until then (false, g.blocked_until - now) else (true, 0)

-- The `switch` of failed: the first lockout, the doubled one, or the longest.
unfoldable pub next_lockout : ℕ → ℕ
next_lockout lockout =
    if lockout == 0
    then login_base_lockout
    else if leb (lockout * 2) login_max_lockout
    then lockout * 2
    else login_max_lockout

unfoldable pub failed : LoginGuard → ℕ → LoginGuard × ℕ
failed g now =
    let lockout = next_lockout g.lockout in
    if ltb (g.failures + 1) login_max_failures
    then (record g { failures = g.failures + 1 }, 0)
    else (record { failures = 0; lockout = lockout; blocked_until = now + lockout }, lockout)

pub succeeded : LoginGuard → LoginGuard
succeeded g = record { failures = 0; lockout = 0; blocked_until = 0 }

-- getAdmin: a database error, no admin row, or the row's password hash.
pub data Admin (Hash : Type 0) : Type 0 where
  db_error : Admin Hash
  missing : Admin Hash
  found : Hash → Admin Hash

-- What the handler answers.
pub data Reply : Type 0 where
  bad_request : Reply
  too_many_requests : ℕ → Reply
  internal_error : Reply
  invalid_password : Reply
  session_not_saved : Reply
  logged_in : Reply

-- One request, with what its environment answers: whether the form parses, the time at entry and
-- when a failure is recorded, the password, and whether the session cookie can be saved.
pub record Attempt (Password : Type 0) : Type 0 where
  pub form_ok : Bool
  pub now : ℕ
  pub later : ℕ
  pub password : Password
  pub save_ok : Bool

-- The guard, the admin flag in the browser's cookie (which only a saved session changes), and the
-- number of password derivations paid for so far.
pub record LoginState : Type 0 where
  pub guard : LoginGuard
  pub admin : Bool
  pub derived : ℕ

-- int((retryAfter + time.Second - 1) / time.Second)
unfoldable pub retry_seconds : ℕ → ℕ
retry_seconds retry_after = (retry_after + second - 1) / second

module _ {Hash Password : Type 0} (verify : Hash → Password → Bool) where
  -- The branch `admin == nil || !verifyPassword(…)`.
  unfoldable pub reject : LoginState → Attempt Password → LoginState × Reply
  reject s r = (record s { guard = (failed s.guard r.later).0 }, invalid_password)

  -- The tail of the handler, once the password has been verified.
  unfoldable pub accept : LoginState → Attempt Password → LoginState × Reply
  accept s r =
      let cleared = record s { guard = succeeded s.guard } in
      if r.save_ok
      then (record cleared { admin = true }, logged_in)
      else (cleared, session_not_saved)

  unfoldable pub authenticate : LoginState → Admin Hash → Attempt Password → LoginState × Reply
  unfolding reject accept succeeded
  authenticate s db_error r = (s, internal_error)
  authenticate s missing r = reject s r
  authenticate s (found hash) r =
      let paid = record s { derived = s.derived + 1 } in
      if verify hash r.password then accept paid r else reject paid r

  unfoldable pub handle_admin_login :
      LoginState → Admin Hash → Attempt Password → LoginState × Reply
  handle_admin_login s admin r =
      if not r.form_ok
      then (s, bad_request)
      else let (ok, retry_after) = allow s.guard r.now in
        if ok then authenticate s admin r else (s, too_many_requests (retry_seconds retry_after))

  -- A sequence of attempts against one stored admin, each with the answer of the database.
  unfoldable pub run_logins : LoginState → List (Admin Hash × Attempt Password) → LoginState
  run_logins s [] = s
  run_logins s ((admin, r) ∷ rest) = run_logins (handle_admin_login s admin r).0 rest
