-- ===== src/Admin/Invariants.antt =====
-- Invariants of the admin pages: what each handler keeps, if its steps keep it.
use gateway.Prelude.{
  ℕ, ◌+◌, String, ◌≤◌, ◌≡◌, refl, Bool, true, false, not, Option, none, some, List, [], ◌∷◌, arith,
  ==_refl, if_either, if◌then◌else◌, keep, ◌==◌, Option-cases, inl, inr,
}
use gateway.Json.{bytes_eq}
use gateway.Users.{
  get_user_by_id, create_user, update_user_status, reset_user_api_key, update_user_rate_limit,
  delete_user,
}
use gateway.Settings.{IntField, blank, malformed, negative, number}
use gateway.Admin.{
  Session, Queue, among, Site, Answers, Reply, csv, save_session, flash_to, add_flash,
  parse_admin_form, admins_only, is_admin_session,
}
use gateway.Admin.Forms.{Password, Library, validate_password, validate_name, clamp_limit, toggled}
use gateway.Admin.Pages.{
  Request, logout, change_password, register, toggle, reset_key, update_rate_limit, export,
  delete_page, reset_system, handle, handle_logout, handle_change_password, handle_register,
  handle_toggle, handle_admin_reset_key, handle_update_rate_limit, handle_export, handle_delete,
  handle_reset_system, run, logged_out, is_current, store_password, settings_page, panel,
}

-- The user whose logs a request was answered with as CSV.
abbrev pub sent_to : Request → Reply → Option ℕ
sent_to (export n) (csv rows) = some n
sent_to r reply = none

abbrev pub is_for : ℕ → Option ℕ → Bool
is_for uid none = false
is_for uid (some n) = n == uid

-- Whether a request was answered with the CSV of a user's logs.
abbrev pub sends : ℕ → Request → Reply → Bool
sends uid r reply = is_for uid (sent_to r reply)

-- A property of the site that the steps of the handlers keep. `Marks n` is what must be known for the
-- export of user n's logs to be marked in the session; a deletion needs the mark.
pub record Stable (c : Library) (default_rl : ℕ) {RequestLog : Type 0}
    (I : Site RequestLog → Type 0) (Marks : ℕ → Type 0) : Type 0 where
  pub session :
      (admin : Bool) (flashes : Queue) (s : Site RequestLog)
      → I s
      → I (record s { cookie = record s.cookie { admin = admin; flashes = flashes } })
  pub hash : (h : String) (s : Site RequestLog) → I s → I (record s { password_hash = some h })
  pub cleared :
      (s : Site RequestLog)
      → I s
      → I (record s { logs = []; request_logs = []; resets = s.resets + 1 })
  pub looked_up :
      (n now : ℕ) (ok : Bool) (s : Site RequestLog)
      → I s
      → I (record s { store = (get_user_by_id n now ok s.store).0 })
  pub created :
      (id : ℕ) (name raw_key : String) (s : Site RequestLog)
      → I s
      → I (record s { store = (create_user c.sha256_hex id name raw_key default_rl s.store).0 })
  pub status_set :
      (n : ℕ) (status : String) (ok : Bool) (s : Site RequestLog)
      → I s
      → I (record s { store = (update_user_status n status ok s.store).0 })
  pub key_reset :
      (n : ℕ) (raw_key : String) (s : Site RequestLog)
      → I s
      → I (record s { store = (reset_user_api_key c.sha256_hex n raw_key s.store).0 })
  pub limit_set :
      (n limit : ℕ) (ok : Bool) (s : Site RequestLog)
      → 1 ≤ limit
      → limit ≤ 1000
      → I s
      → I (record s { store = (update_user_rate_limit n limit ok s.store).0 })
  pub marked :
      (n : ℕ) (s : Site RequestLog)
      → Marks n
      → I s
      → I (record s { cookie = record s.cookie { exported = n ∷ s.cookie.exported } })
  pub deleted :
      (n : ℕ) (ok : Bool) (s : Site RequestLog)
      → among n s.cookie.exported ≡ true
      → I s
      → I (record s {
        store = (delete_user n ok s.store).0;
        logs = keep (λ l. not (l.user_id == n)) s.logs;
      })
  pub unmarked :
      (n : ℕ) (s : Site RequestLog)
      → I s
      → I (record s {
        cookie = record s.cookie { exported = keep (λ m. not (m == n)) s.cookie.exported };
      })

clamp_limit-range : (f : IntField) → (1 ≤ clamp_limit f) × (clamp_limit f ≤ 1000)
unfolding clamp_limit
clamp_limit-range blank = (omega arith, omega arith)
clamp_limit-range malformed = (omega arith, omega arith)
clamp_limit-range negative = (omega arith, omega arith)
clamp_limit-range (number n) = (ground arith, ground arith)

module _ {RequestLog : Type 0} (I : Site RequestLog → Type 0) where
  pub either :
      (b : Bool) (p q : Site RequestLog × Reply)
      → (b ≡ true → I p.0)
      → (b ≡ false → I q.0)
      → I (if b then p else q).0
  either true p q x y = x refl
  either false p q x y = y refl

  pub saved :
      (a : Answers) (sess : Session) (s : Site RequestLog)
      → I (record s { cookie = sess })
      → I s
      → I (save_session a sess s)
  unfolding save_session
  saved a sess s new h = if_either I a.save_ok _ s (λ _. new) (λ _. h)

  only :
      (s : Site RequestLog) (rest : Site RequestLog × Reply)
      → I s
      → I rest.0
      → I (admins_only s rest).0
  unfolding admins_only is_admin_session
  only s rest h h' = either s.cookie.admin rest _ (λ _. h') (λ _. h)

csv_sent :
    (c : Library) (n : ℕ) {RequestLog : Type 0} (a : Answers) (s : Site RequestLog)
    → s.cookie.admin ≡ true
    → a.reads ≡ true
    → sends n (export n) (handle_export c n a s).1 ≡ true
unfolding handle_export admins_only is_admin_session
csv_sent c n a s admin reads = rw (admin, reads) (==_refl n)

module _ (c : Library) (default_rl : ℕ) {RequestLog : Type 0} (I : Site RequestLog → Type 0)
    (Marks : ℕ → Type 0) (st : Stable c default_rl I Marks) where
  flashed :
      (a : Answers) (category message back : String) (s : Site RequestLog)
      → I s
      → I (flash_to a category message back s).0
  unfolding flash_to add_flash
  flashed a category message back s h =
      saved I a (add_flash category message s.cookie) s (st.session s.cookie.admin _ s h) h

  form :
      (a : Answers) (back : String) (s : Site RequestLog) (rest : Site RequestLog × Reply)
      → I s
      → I rest.0
      → I (parse_admin_form a back s rest).0
  unfolding parse_admin_form
  form a back s rest h h' = either I a.form_ok rest _ (λ _. h') (λ _. flashed a "error" _ back s h)

  keeps_stored :
      (verdict : Option String) (new : Password) (salt : ℕ) (a : Answers) (s : Site RequestLog)
      → I s
      → I (store_password c verdict new salt a s).0
  unfolding store_password logged_out
  keeps_stored (some msg) new salt a s h = flashed a "error" msg settings_page s h
  keeps_stored none new salt a s h =
      let new_hash = st.hash (c.hash_password salt new) s h in
      either I a.writes _ _ (λ _. saved I a _ _ (st.session false _ _ new_hash) new_hash) (λ _. h)

  keeps_password :
      (current new confirm : Password) (salt : ℕ) (a : Answers) (s : Site RequestLog)
      → I s
      → I (handle_change_password c current new confirm salt a s).0
  unfolding handle_change_password
  keeps_password current new confirm salt a s h = only I s _ h (
      form a settings_page s _ h (
        either I (not (is_current c a current s)) _ _ (λ _. flashed a _ _ _ s h)
          (λ _.
            either I (not (bytes_eq new confirm)) _ _ (λ _. flashed a _ _ _ s h)
              (λ _. keeps_stored (validate_password c new) new salt a s h))))

  keeps_register :
      (name : String) (trimmed : ℕ) (api_key : String) (id : ℕ) (a : Answers) (s : Site RequestLog)
      → I s
      → I (handle_register c default_rl name trimmed api_key id a s).0
  unfolding handle_register
  keeps_register name trimmed api_key id a s h = only I s _ h (
      form a panel s _ h (
        either I (not (validate_name trimmed)) _ _ (λ _. flashed a _ _ _ s h)
          (λ _.
            either I (not a.writes) _ _ (λ _. flashed a _ _ _ s h)
              (λ _.
                either I (create_user c.sha256_hex id name api_key default_rl s.store).1 _ _
                  (λ _. st.created id name api_key s h) (λ _. flashed a _ _ _ s h)))))

  keeps_toggle : (n : ℕ) (a : Answers) (s : Site RequestLog) → I s → I (handle_toggle c n a s).0
  unfolding handle_toggle
  keeps_toggle n a s h =
      let seen = st.looked_up n a.now a.reads s h in
      only I s _ h (elim (Option-cases (get_user_by_id n a.now a.reads s.store).1) [
        | inl nobody ↦ rw nobody seen
        | inr (u, found) ↦ rw found (st.status_set n (toggled u.status) a.writes _ seen)
      ])

  keeps_reset_key :
      (n : ℕ) (new_key : String) (a : Answers) (s : Site RequestLog)
      → I s
      → I (handle_admin_reset_key c n new_key a s).0
  unfolding handle_admin_reset_key
  keeps_reset_key n new_key a s h =
      let seen = st.looked_up n a.now a.reads s h in
      only I s _ h (elim (Option-cases (get_user_by_id n a.now a.reads s.store).1) [
        | inl nobody ↦ rw nobody seen
        | inr (u, found) ↦
            rw found (either I (not a.writes) _ _ (λ _. seen) (λ _. st.key_reset n new_key _ seen))
      ])

  keeps_limit :
      (n : ℕ) (field : IntField) (a : Answers) (s : Site RequestLog)
      → I s
      → I (handle_update_rate_limit c n field a s).0
  unfolding handle_update_rate_limit
  keeps_limit n field a s h =
      let (low, high) = clamp_limit-range field in
      only I s _ h (
        form a panel s _ h (
          either I (update_user_rate_limit n (clamp_limit field) a.writes s.store).1 _ _
            (λ _. flashed a _ _ _ _ (st.limit_set n (clamp_limit field) a.writes s low high h))
            (λ _. h)))

  keeps_export :
      (n : ℕ) (a : Answers) (s : Site RequestLog)
      → (sends n (export n) (handle_export c n a s).1 ≡ true → Marks n)
      → I s
      → I (handle_export c n a s).0
  unfolding handle_export admins_only is_admin_session
  keeps_export n a s marks h =
      either I s.cookie.admin _ _
        (λ admin.
          either I a.reads _ _
            (λ reads. saved I a _ s (st.marked n s (marks (csv_sent c n a s admin reads)) h) h)
            (λ _. h))
        (λ _. h)

  keeps_delete : (n : ℕ) (a : Answers) (s : Site RequestLog) → I s → I (handle_delete c n a s).0
  unfolding handle_delete
  keeps_delete n a s h = only I s _ h (
      either I (not (among n s.cookie.exported)) _ _ (λ _. h)
        (λ marked.
          either I (delete_user n a.writes s.store).1 _ _
            (λ _.
              let gone = st.deleted n a.writes s (ground arith) h in
              saved I a _ _ (st.unmarked n _ gone) gone)
            (λ _. h)))

  keeps_system :
      (next : String) (a : Answers) (s : Site RequestLog)
      → I s
      → I (handle_reset_system c next a s).0
  unfolding handle_reset_system
  keeps_system next a s h =
      only I s _ h (either I a.writes _ _ (λ _. flashed a _ _ _ _ (st.cleared s h)) (λ _. h))

  keeps_logout : (a : Answers) (s : Site RequestLog) → I s → I (handle_logout c a s).0
  unfolding handle_logout
  keeps_logout a s h = saved I a _ s (st.session false s.cookie.flashes s h) h

  -- Every handler keeps such a property, if an export that it answers with the CSV may be marked.
  pub handle-Stable :
      (r : Request) (a : Answers) (s : Site RequestLog)
      → ((n : ℕ) → sends n r (handle c default_rl r a s).1 ≡ true → Marks n)
      → I s
      → I (handle c default_rl r a s).0
  unfolding handle
  handle-Stable logout a s marks h = keeps_logout a s h
  handle-Stable (change_password current new confirm salt) a s marks h =
      keeps_password current new confirm salt a s h
  handle-Stable (register name trimmed api_key id) a s marks h =
      keeps_register name trimmed api_key id a s h
  handle-Stable (toggle n) a s marks h = keeps_toggle n a s h
  handle-Stable (reset_key n new_key) a s marks h = keeps_reset_key n new_key a s h
  handle-Stable (update_rate_limit n field) a s marks h = keeps_limit n field a s h
  handle-Stable (export n) a s marks h = keeps_export n a s (marks n) h
  handle-Stable (delete_page n) a s marks h = keeps_delete n a s h
  handle-Stable (reset_system next) a s marks h = keeps_system next a s h

-- So does any sequence of requests, where exports may be marked without a condition.
pub run-Stable :
    (c : Library) (default_rl : ℕ) {RequestLog : Type 0} (I : Site RequestLog → Type 0)
    → Stable c default_rl I (λ n. Unit)
    → (rs : List (Request × Answers)) (s : Site RequestLog) → I s
    → I (run c default_rl rs s)
unfolding run
run-Stable c default_rl I st [] s h = h
run-Stable c default_rl I st ((r, a) ∷ rs) s h =
    run-Stable c default_rl I st rs (handle c default_rl r a s).0
      (handle-Stable c default_rl I (λ n. Unit) st r a s (λ n e. tt) h)
