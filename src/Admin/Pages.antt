-- ===== src/Admin/Pages.antt =====
-- The handlers behind the admin pages (handlers.go; db.go: deleteUser, resetSystem,
-- updateAdminPassword).
use gateway.Prelude.{
  ℕ, ◌+◌, String, Bool, false, not, ◌&&◌, Option, none, some, List, [], ◌∷◌, ◌==◌, if◌then◌else◌,
  keep,
}
use gateway.Json.{bytes_eq}
use gateway.Settings.{IntField}
use gateway.Users.{
  get_user_by_id, create_user, update_user_status, reset_user_api_key, update_user_rate_limit,
  delete_user,
}
use gateway.Admin.Forms.{
  Password, Library, validate_name, validate_password, clamp_limit, reset_target, toggled,
}
use gateway.Admin.{
  among, queued, get_user_logs, Site, Answers, Reply, redirect, error, key_page, csv, save_session,
  flash_to, parse_admin_form, admins_only,
}

-- A request of one of the pages, with its form and what the handler draws at random.
pub data Request : Type 0 where
  logout : Request
  change_password : Password → Password → Password → ℕ → Request
  register : String → ℕ → String → ℕ → Request
  toggle : ℕ → Request
  reset_key : ℕ → String → Request
  update_rate_limit : ℕ → IntField → Request
  export : ℕ → Request
  delete_page : ℕ → Request
  reset_system : String → Request

abbrev pub settings_page : String
settings_page = "/admin/settings-page"

abbrev pub panel : String
panel = "/admin/panel"

module _ (c : Library) {RequestLog : Type 0} where
  unfoldable pub handle_logout : Answers → Site RequestLog → Site RequestLog × Reply
  unfolding save_session
  handle_logout a s = (
    save_session a (record s.cookie { admin = false }) s,
    if a.save_ok then redirect "/" else error 500,
  )

  -- The end of handleChangePassword, once the new hash is stored.
  unfoldable pub logged_out : Answers → Site RequestLog → Site RequestLog × Reply
  unfolding save_session
  logged_out a s = (
    save_session a
        (record s.cookie {
          admin = false;
          flashes = queued (
              record { category = "success"; message = "Password updated. Please log in again." }
              ∷ []);
        })
        s,
    redirect "/",
  )

  -- Whether the stored hash, if it can be read, is that of the current password.
  unfoldable pub is_current : Answers → Password → Site RequestLog → Bool
  is_current a current s = elim s.password_hash [
    | none ↦ false
    | some hash ↦ a.reads && c.verify_password hash current
  ]

  -- What becomes of a new password, by the verdict of validatePassword.
  unfoldable pub store_password :
      Option String → Password → ℕ → Answers → Site RequestLog → Site RequestLog × Reply
  store_password (some msg) new salt a s = flash_to a "error" msg settings_page s
  store_password none new salt a s =
      if a.writes
      then logged_out a (record s { password_hash = some (c.hash_password salt new) })
      else (s, error 500)

  unfoldable pub handle_change_password :
      Password → Password → Password → ℕ → Answers → Site RequestLog → Site RequestLog × Reply
  unfolding admins_only parse_admin_form is_current
  handle_change_password current new confirm salt a s = admins_only s (
      parse_admin_form a settings_page s (
        if not (is_current a current s)
        then flash_to a "error" "Invalid current password" settings_page s
        else if not (bytes_eq new confirm)
        then flash_to a "error" "Passwords do not match" settings_page s
        else store_password (validate_password c new) new salt a s))

  -- `cfg.DefaultRL` is the first argument. A name comes cut, with its length after TrimSpace; the row's
  -- ID is the one that the database would give.
  unfoldable pub handle_register :
      ℕ → String → ℕ → String → ℕ → Answers → Site RequestLog → Site RequestLog × Reply
  unfolding admins_only parse_admin_form
  handle_register default_rl name trimmed api_key id a s = admins_only s (
      parse_admin_form a panel s (
        if not (validate_name trimmed)
        then flash_to a "error" "Client name must be between 1 and 100 characters" panel s
        else if not a.writes
        then flash_to a "error" a.db_error panel s
        else let (store, made) = create_user c.sha256_hex id name api_key default_rl s.store in
          if made
          then (record s { store = store }, key_page "Registration Successful" name api_key)
          else flash_to a "error" "user already exists" panel s))

  unfoldable pub handle_toggle : ℕ → Answers → Site RequestLog → Site RequestLog × Reply
  unfolding admins_only toggled
  handle_toggle uid a s =
      let (store, user) = get_user_by_id uid a.now a.reads s.store in
      let seen = record s { store = store } in
      admins_only s (elim user [
        | none ↦ (seen, error 404)
        | some u ↦
            let (store', ok) = update_user_status uid (toggled u.status) a.writes store in
            (record s { store = store' }, if ok then redirect panel else error 500)
      ])

  unfoldable pub handle_admin_reset_key :
      ℕ → String → Answers → Site RequestLog → Site RequestLog × Reply
  unfolding admins_only
  handle_admin_reset_key uid new_key a s =
      let (store, user) = get_user_by_id uid a.now a.reads s.store in
      let seen = record s { store = store } in
      admins_only s (elim user [
        | none ↦ (seen, error 404)
        | some u ↦
            if not a.writes
            then (seen, error 500)
            else let (store', ok) = reset_user_api_key c.sha256_hex uid new_key store in
              (
                record s { store = store' },
                if ok then key_page "API Key Reset" u.name new_key else error 500,
              )
      ])

  unfoldable pub handle_update_rate_limit :
      ℕ → IntField → Answers → Site RequestLog → Site RequestLog × Reply
  unfolding admins_only parse_admin_form clamp_limit
  handle_update_rate_limit uid field a s =
      let rl = clamp_limit field in
      let (store, ok) = update_user_rate_limit uid rl a.writes s.store in
      admins_only s (
        parse_admin_form a panel s (
          if ok
          then flash_to a "success" (c.limit_message uid rl) panel (record s { store = store })
          else (s, error 500)))

  unfoldable pub handle_export : ℕ → Answers → Site RequestLog → Site RequestLog × Reply
  unfolding admins_only save_session get_user_logs
  handle_export uid a s = admins_only s (
      if a.reads
      then (
        save_session a (record s.cookie { exported = uid ∷ s.cookie.exported }) s,
        csv (get_user_logs uid s.logs),
      )
      else (s, error 500))

  -- handleDelete, with the logs that the transaction of deleteUser takes.
  unfoldable pub handle_delete : ℕ → Answers → Site RequestLog → Site RequestLog × Reply
  unfolding admins_only save_session among
  handle_delete uid a s =
      let (store, ok) = delete_user uid a.writes s.store in
      let gone = record s { store = store; logs = keep (λ l. not (l.user_id == uid)) s.logs } in
      let sess = record s.cookie { exported = keep (λ m. not (m == uid)) s.cookie.exported } in
      admins_only s (
        if not (among uid s.cookie.exported)
        then (s, error 403)
        else if ok
        then (save_session a sess gone, redirect panel)
        else (s, error 500))

  -- handleResetSystem, with the transaction of resetSystem.
  unfoldable pub handle_reset_system : String → Answers → Site RequestLog → Site RequestLog × Reply
  unfolding admins_only reset_target
  handle_reset_system next a s = admins_only s (
      if a.writes
      then flash_to a "success" "System reset: all logs and rate-limit entries have been cleared."
          (reset_target next) (record s { logs = []; request_logs = []; resets = s.resets + 1 })
      else (s, error 500))

  -- A request to one of the pages; `default_rl` is cfg.DefaultRL.
  unfoldable pub handle : ℕ → Request → Answers → Site RequestLog → Site RequestLog × Reply
  handle default_rl logout a s = handle_logout a s
  handle default_rl (change_password current new confirm salt) a s =
      handle_change_password current new confirm salt a s
  handle default_rl (register name trimmed api_key id) a s =
      handle_register default_rl name trimmed api_key id a s
  handle default_rl (toggle uid) a s = handle_toggle uid a s
  handle default_rl (reset_key uid new_key) a s = handle_admin_reset_key uid new_key a s
  handle default_rl (update_rate_limit uid field) a s = handle_update_rate_limit uid field a s
  handle default_rl (export uid) a s = handle_export uid a s
  handle default_rl (delete_page uid) a s = handle_delete uid a s
  handle default_rl (reset_system next) a s = handle_reset_system next a s

  -- Requests of one browser, one after another.
  unfoldable pub run : ℕ → List (Request × Answers) → Site RequestLog → Site RequestLog
  run default_rl [] s = s
  run default_rl ((r, a) ∷ rs) s = run default_rl rs (handle default_rl r a s).0
