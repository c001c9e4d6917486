-- ===== src/Admin/Passwords.antt =====
-- Changing the administrator's password (handlers.go: handleChangePassword, handleAdminLogin).
use gateway.Prelude.{
  ℕ, ◌≡◌, ◌≤◌, ◌⊎◌, inl, inr, refl, ap, ◌∙◌, String, true, false, not, Option, none, some, arith,
  if◌then◌else◌,
}
use gateway.Json.{bytes_eq}
use gateway.Login.{
  Admin, missing, found, Attempt, LoginState, logged_in, session_not_saved, handle_admin_login,
}
use gateway.Login.Handler.{right_password}
use gateway.Admin.Invariants.{either, saved}
use gateway.Admin.{
  Session, add_flash, Site, Answers, flash_to, save_session, parse_admin_form, admins_only,
  is_admin_session,
}
use gateway.Admin.Forms.{Password, Library, byte_len, some_rune, validate_password}
use gateway.Admin.Pages.{
  handle_change_password, is_current, store_password, logged_out, settings_page,
}

-- getAdmin, when the database answers.
unfoldable pub admin_of : Option String → Admin String
admin_of none = missing
admin_of (some hash) = found hash

-- What validatePassword demands.
abbrev pub IsStrong : Library → Password → Type 0
IsStrong c p =
    (8 ≤ byte_len p)
    × (some_rune c.is_upper p ≡ true)
    × (some_rune c.is_lower p ≡ true)
    × (some_rune c.is_digit p ≡ true)

valid-IsStrong : (c : Library) (p : Password) → validate_password c p ≡ none → IsStrong c p
unfolding validate_password
valid-IsStrong c p h = (ground arith, ground arith, ground arith, ground arith)

strong_valid : (c : Library) (p : Password) → IsStrong c p → validate_password c p ≡ none
unfolding validate_password
strong_valid c p (long, upper, lower, digit) = ground arith

module _ (c : Library) {RequestLog : Type 0} where
  -- What a change of the password needs, and what it stores.
  pub record Changed (current new confirm : Password) (salt : ℕ) (a : Answers)
      (s s' : Site RequestLog) : Type 0 where
    pub admin : s.cookie.admin ≡ true
    pub proved : (h : String) × (s.password_hash ≡ some h) × (c.verify_password h current ≡ true)
    pub confirmed : bytes_eq new confirm ≡ true
    pub strong : IsStrong c new
    pub stored : s'.password_hash ≡ some (c.hash_password salt new)

  saved-hash :
      (a : Answers) (sess : Session) (s : Site RequestLog)
      → (save_session a sess s).password_hash ≡ s.password_hash
  saved-hash a sess s = saved (λ t. t.password_hash ≡ s.password_hash) a sess s refl refl

  flashed-hash :
      (a : Answers) (category message back : String) (s : Site RequestLog)
      → (flash_to a category message back s).0.password_hash ≡ s.password_hash
  unfolding flash_to
  flashed-hash a category message back s = saved-hash a (add_flash category message s.cookie) s

  logged_out-hash :
      (a : Answers) (s : Site RequestLog) → (logged_out c a s).0.password_hash ≡ s.password_hash
  unfolding logged_out
  logged_out-hash a s = saved-hash a _ s

  proved_by :
      (a : Answers) (current : Password) (s : Site RequestLog) (stored : Option String)
      → s.password_hash ≡ stored
      → not (is_current c a current s) ≡ false
      → (h : String) × (s.password_hash ≡ some h) × (c.verify_password h current ≡ true)
  unfolding is_current
  proved_by a current s none e right = absurd (ground arith)
  proved_by a current s (some h) e right = (h, e, ground arith)

  -- A request to change the password leaves the stored hash alone, or it came from an administrator
  -- who gave the current password and twice the same new one, which is strong, and stored its hash.
  pub change-Changed :
      (current new confirm : Password) (salt : ℕ) (a : Answers) (s : Site RequestLog)
      → let s' = (handle_change_password c current new confirm salt a s).0 in
        (s'.password_hash ≡ s.password_hash) ⊎ Changed current new confirm salt a s s'
  unfolding handle_change_password admins_only is_admin_session parse_admin_form
  change-Changed current new confirm salt a s =
      either Outcome s.cookie.admin _ _
        (λ admin.
          either Outcome a.form_ok _ _
            (λ ok.
              either Outcome (not (is_current c a current s)) _ _
                (λ _. inl (flashed-hash a _ _ _ s))
                (λ right.
                  either Outcome (not (bytes_eq new confirm)) _ _
                    (λ _. inl (flashed-hash a _ _ _ s))
                    (λ twice.
                      checked admin (proved_by a current s s.password_hash refl right)
                        (ground arith) (validate_password c new) refl)))
            (λ _. inl (flashed-hash a _ _ _ s)))
        (λ _. inl refl)
    where
      Outcome : Site RequestLog → Type 0
      Outcome t = (t.password_hash ≡ s.password_hash) ⊎ Changed current new confirm salt a s t

      checked :
          s.cookie.admin ≡ true
          → (h : String) × (s.password_hash ≡ some h) × (c.verify_password h current ≡ true)
          → bytes_eq new confirm ≡ true
          → (verdict : Option String) → validate_password c new ≡ verdict
          → Outcome (store_password c verdict new salt a s).0
      checked admin proved twice (some msg) e =
          unfold store_password in inl (flashed-hash a "error" msg settings_page s)
      checked admin proved twice none e =
          unfold store_password in
          either Outcome a.writes _ _
            (λ _. inr (record {
              admin = admin;
              proved = proved;
              confirmed = twice;
              strong = valid-IsStrong c new e;
              stored =
                  logged_out-hash a (record s { password_hash = some (c.hash_password salt new) });
            }))
            (λ _. inl refl)

  stored_current :
      (a : Answers) (current : Password) (s : Site RequestLog) (h : String)
      → a.reads ≡ true
      → s.password_hash ≡ some h
      → c.verify_password h current ≡ true
      → is_current c a current s ≡ true
  unfolding is_current
  stored_current a current s h reads stored right = ground arith

  logged_out-admin :
      (a : Answers) (s : Site RequestLog)
      → s.cookie.admin ≡ true
      → (logged_out c a s).0.cookie.admin ≡ (if a.save_ok then false else true)
  unfolding logged_out save_session
  logged_out-admin a s admin = ground arith

  change_step :
      (current new confirm : Password) (salt : ℕ) (a : Answers) (s : Site RequestLog) (h : String)
      → s.cookie.admin ≡ true
      → a.form_ok ≡ true
      → a.reads ≡ true
      → a.writes ≡ true
      → s.password_hash ≡ some h
      → c.verify_password h current ≡ true
      → bytes_eq new confirm ≡ true
      → IsStrong c new
      → handle_change_password c current new confirm salt a s
        ≡ logged_out c a (record s { password_hash = some (c.hash_password salt new) })
  unfolding handle_change_password admins_only is_admin_session parse_admin_form store_password
  change_step current new confirm salt a s h admin ok reads writes stored right twice strong =
      let valid = strong_valid c new strong in
      let known = stored_current a current s h reads stored right in
      simp (admin, ok, known, writes, twice, valid)

  -- An administrator who gives the current password and twice a strong new one can log in with the new
  -- one: while the login is not blocked, that password is accepted against the hash now stored, if
  -- verification accepts what hashing made of it. Where the cookie could be saved, the browser that
  -- changed the password is logged out.
  pub login-change :
      (current new confirm : Password) (salt : ℕ) (a : Answers) (s : Site RequestLog) (h : String)
      (ls : LoginState) (r : Attempt Password)
      → s.cookie.admin ≡ true
      → a.form_ok ≡ true
      → a.reads ≡ true
      → a.writes ≡ true
      → s.password_hash ≡ some h
      → c.verify_password h current ≡ true
      → bytes_eq new confirm ≡ true
      → IsStrong c new
      → c.verify_password (c.hash_password salt new) r.password ≡ true
      → r.form_ok ≡ true
      → ls.guard.blocked_until ≤ r.now
      → let s' = (handle_change_password c current new confirm salt a s).0 in
        ((handle_admin_login c.verify_password ls (admin_of s'.password_hash) r).1
          ≡ (if r.save_ok then logged_in else session_not_saved))
        × (s'.cookie.admin ≡ (if a.save_ok then false else true))
  unfolding admin_of
  login-change current new confirm salt a s h ls r admin ok reads writes stored right twice strong
        accepts form late =
      let s' : Site RequestLog = record s { password_hash = some (c.hash_password salt new) } in
      let login =
        right_password c.verify_password ls (c.hash_password salt new) r form late accepts in
      rw
        (change_step current new confirm salt a s h admin ok reads writes stored right twice strong)
        (
          ap (λ t. (handle_admin_login c.verify_password ls (admin_of t) r).1)
                (logged_out-hash a s')
              ∙ ap (λ p. p.1) login,
          logged_out-admin a s' admin,
        )
