-- ===== src/Login/Handler.antt =====
-- handleAdminLogin: who gets in, who is turned away, and what it costs.
use gateway.Prelude.{
  ◌+◌, ◌-◌, ◌*◌, ◌≤◌, ◌<◌, ◌≡◌, ◌⊎◌, inl, inr, sym, ◌∙◌, Bool-cases, refl, Bool, true, false, List,
  [], ◌∷◌, arith, if◌then◌else◌, All,
}
use gateway.Login.{
  second, fresh, allow, Admin, db_error, missing, found, too_many_requests, session_not_saved,
  logged_in, Attempt, LoginState, retry_seconds, authenticate, handle_admin_login, run_logins,
}
use gateway.Login.Guard.{Counts, failed-Counts}

true_ne_false : true ≡ false → ⊥
true_ne_false e = cc

module _ {Hash Password : Type 0} (verify : Hash → Password → Bool) where
  -- While the guard blocks, an attempt changes nothing and pays for no derivation, and the answer
  -- names the whole seconds to wait: enough for the lockout to be over, and less than one too many.
  pub throttled :
      (s : LoginState) (admin : Admin Hash) (r : Attempt Password)
      → r.form_ok ≡ true
      → r.now < s.guard.blocked_until
      → let secs = retry_seconds (s.guard.blocked_until - r.now) in
        (handle_admin_login verify s admin r ≡ (s, too_many_requests secs))
        × (s.guard.blocked_until ≤ r.now + secs * second)
        × (r.now + secs * second < s.guard.blocked_until + second)
  unfolding handle_admin_login allow retry_seconds
  throttled s admin r ok early = (ground arith, omega arith, omega arith)

  -- The attempt gives the password of the stored hash when the guard is not blocking, its form and its
  -- cookie are in order, and the answer says that it is let in.
  abbrev pub Enters : LoginState → Admin Hash → Attempt Password → Type 0
  Enters s admin r =
      (h : Hash) × (admin ≡ found h)
      × (verify h r.password ≡ true)
      × (s.guard.blocked_until ≤ r.now)
      × (r.form_ok ≡ true)
      × (r.save_ok ≡ true)
      × ((handle_admin_login verify s admin r).1 ≡ logged_in)

  admin-Enters :
      (s : LoginState) (admin : Admin Hash) (r : Attempt Password)
      → s.admin ≡ false
      → (handle_admin_login verify s admin r).0.admin ≡ true
      → Enters s admin r
  unfolding handle_admin_login allow authenticate
  admin-Enters s db_error r out e = ground arith
  admin-Enters s missing r out e = ground arith
  admin-Enters s (found h) r out e =
      (h, refl, ground arith, ground arith, ground arith, ground arith, ground arith)

  -- One of the attempts enters, in the state that the ones before it leave.
  abbrev pub OneEnters : List (Admin Hash × Attempt Password) → LoginState → Type 0
  OneEnters [] s = ⊥
  OneEnters ((admin, r) ∷ rest) s =
      Enters s admin r ⊎ OneEnters rest (handle_admin_login verify s admin r).0

  -- Only the right password gets in. If a browser that was not the administrator's is so after a
  -- sequence of attempts, then one of them gave the password of the stored hash at a time when the
  -- guard, as the attempts before it had left it, was not blocking, and was answered that it is in.
  pub run_logins-OneEnters :
      (cs : List (Admin Hash × Attempt Password)) (s : LoginState)
      → s.admin ≡ false
      → (run_logins verify s cs).admin ≡ true
      → OneEnters cs s
  unfolding run_logins
  run_logins-OneEnters [] s out e = absurd (true_ne_false (sym e ∙ out))
  run_logins-OneEnters ((admin, r) ∷ rest) s out e =
      elim (Bool-cases (handle_admin_login verify s admin r).0.admin) [
        | inl now_in ↦ inl (admin-Enters s admin r out now_in)
        | inr still_out ↦
            inr (run_logins-OneEnters rest (handle_admin_login verify s admin r).0 still_out e)
      ]

  -- The right password, when the guard is not blocking, is derived once, clears the guard and, if
  -- the cookie can be saved, logs the browser in.
  pub right_password :
      (s : LoginState) (h : Hash) (r : Attempt Password)
      → r.form_ok ≡ true
      → s.guard.blocked_until ≤ r.now
      → verify h r.password ≡ true
      → handle_admin_login verify s (found h) r ≡ (
        record {
          guard = fresh;
          admin = (if r.save_ok then true else s.admin);
          derived = s.derived + 1;
        },
        (if r.save_ok then logged_in else session_not_saved),
      )
  unfolding handle_admin_login allow authenticate
  right_password s h r ok late right = ground arith

  -- An attempt that is not the right password never makes the browser an admin, and a database error
  -- spends neither an attempt nor a derivation.
  pub database_error :
      (s : LoginState) (r : Attempt Password) → (handle_admin_login verify s db_error r).0 ≡ s
  unfolding handle_admin_login authenticate
  database_error s r = ground arith

  abbrev pub IsWrong : Admin Hash × Attempt Password → Type 0
  IsWrong (db_error, r) = Unit {0}
  IsWrong (missing, r) = ⊥
  IsWrong (found h, r) = verify h r.password ≡ false

  wrong_step :
      (s : LoginState) (c : Admin Hash × Attempt Password)
      → IsWrong c
      → Counts s.derived s.guard
      → Counts
          (handle_admin_login verify s c.0 c.1).0.derived
          (handle_admin_login verify s c.0 c.1).0.guard
  unfolding handle_admin_login authenticate
  wrong_step s (db_error, r) w c = ground arith
  wrong_step s (missing, r) w c = absurd w
  wrong_step s (found h, r) w c = ground (arith, failed-Counts s.derived s.guard r.later)

  blocked_step :
      (s : LoginState) (admin : Admin Hash) (r : Attempt Password)
      → r.now < s.guard.blocked_until
      → (handle_admin_login verify s admin r).0 ≡ s
  unfolding handle_admin_login allow
  blocked_step s admin r early = ground arith

  -- No derivation escapes the count: after any sequence of attempts with wrong passwords, at whatever
  -- times, the guard stands where as many consecutive failures as derivations were paid for leave it.
  pub run_logins-Counts :
      (cs : List (Admin Hash × Attempt Password)) (s : LoginState)
      → All IsWrong cs
      → Counts s.derived s.guard
      → Counts (run_logins verify s cs).derived (run_logins verify s cs).guard
  unfolding run_logins
  run_logins-Counts [] s w c = c
  run_logins-Counts ((admin, r) ∷ cs) s w c =
      run_logins-Counts cs (handle_admin_login verify s admin r).0 w.1
        (wrong_step s (admin, r) w.0 c)

  -- During a lockout no sequence of attempts gets in, costs a derivation, or moves the guard.
  pub run_logins-blocked :
      (cs : List (Admin Hash × Attempt Password)) (s : LoginState)
      → All (λ (c : Admin Hash × Attempt Password). c.1.now < s.guard.blocked_until) cs
      → run_logins verify s cs ≡ s
  unfolding run_logins
  run_logins-blocked [] s w = refl
  run_logins-blocked ((admin, r) ∷ cs) s w =
      rw (blocked_step s admin r w.0, run_logins) (run_logins-blocked cs s w.1)
