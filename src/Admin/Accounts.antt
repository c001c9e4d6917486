-- ===== src/Admin/Accounts.antt =====
-- The admin pages on the users (handlers.go: handleToggle, handleUpdateRateLimit, handleRegister and
-- the others that write the table).
use gateway.Prelude.{
  if◌then◌else◌, str_eq, ℕ, String, ◌≡◌, ◌≢◌, ◌≤◌, refl, sym, ◌∙◌, true, some, List, All, subst,
}
use gateway.Users.{
  active, disabled, User, Key, id_key, Store, row_by_id, row_of, get_user, get_user_by_id,
  update_user_status,
}
use gateway.Users.Rows.{row_by_id-update}
use gateway.Users.Present.{row_by_id-updated, get_user-rows}
use gateway.Users.Everyone.{status-All, limit-All, delete-All, reset-All, create-All}
use gateway.Users.Coherence.{
  Coherent, status-Coherent, limit-Coherent, delete-Coherent, reset-Coherent, create-Coherent,
  get-Coherent, get-eq-row,
}
use gateway.Admin.{Site, Answers, redirect, admins_only, is_admin_session}
use gateway.Admin.Forms.{Library, toggled}
use gateway.Admin.Pages.{Request, handle_toggle, run, panel}
use gateway.Admin.Invariants.{Stable, run-Stable}

module _ (c : Library) (default_rl : ℕ) {RequestLog : Type 0} where
  abbrev pub IsCoherent : Site RequestLog → Type 0
  IsCoherent s = Coherent s.store

  IsCoherent-Stable : Stable c default_rl IsCoherent (λ n. Unit)
  unfolding get_user_by_id
  IsCoherent-Stable = record {
    session = λ admin flashes s h. h;
    hash = λ new s h. h;
    cleared = λ s h. h;
    looked_up = λ n now ok s h. get-Coherent (id_key n) now ok s.store h;
    created = λ id name key s h. create-Coherent c.sha256_hex id name key default_rl s.store h;
    status_set = λ n status ok s h. status-Coherent n status ok s.store h;
    key_reset = λ n key s h. reset-Coherent c.sha256_hex n key s.store h;
    limit_set = λ n limit ok s low high h. limit-Coherent n limit ok s.store h;
    marked = λ n s m h. h;
    deleted = λ n ok s m h. delete-Coherent n ok s.store h;
    unmarked = λ n s h. h;
  }

  -- After any requests to the admin pages, whatever their forms and whatever fails, a lookup through
  -- the user cache answers what the table then holds, if the cache agreed with the table before.
  pub lookup-run_pages :
      (rs : List (Request × Answers)) (s : Site RequestLog) (k : Key) (now : ℕ)
      → Coherent s.store
      → (get_user k now true (run c default_rl rs s).store).1
        ≡ row_of k (run c default_rl rs s).store.rows
  lookup-run_pages rs s k now h =
      get-eq-row k now (run c default_rl rs s).store
        (run-Stable c default_rl IsCoherent IsCoherent-Stable rs s h)

-- A limit that the form for it can set.
abbrev pub InRange : User → Type 0
InRange u = (1 ≤ u.rate_limit) × (u.rate_limit ≤ 1000)

module _ (c : Library) (default_rl : ℕ) {RequestLog : Type 0} where
  abbrev pub AllInRange : Site RequestLog → Type 0
  AllInRange s = All InRange s.store.rows

  AllInRange-Stable :
      1 ≤ default_rl → default_rl ≤ 1000 → Stable c default_rl AllInRange (λ n. Unit)
  unfolding get_user_by_id
  AllInRange-Stable low high = record {
    session = λ admin flashes s h. h;
    hash = λ new s h. h;
    cleared = λ s h. h;
    looked_up =
        λ n now ok s h. subst (All InRange) (sym (get_user-rows (id_key n) now ok s.store)) h;
    created = λ id name key s h.
        create-All InRange c.sha256_hex id name key default_rl s.store (low, high) h;
    status_set = λ n status ok s h. status-All InRange n status ok s.store (λ u r. r) h;
    key_reset = λ n key s h. reset-All InRange c.sha256_hex n key s.store (λ u r. r) h;
    limit_set =
        λ n limit ok s low' high' h. limit-All InRange n limit ok s.store (λ u r. (low', high')) h;
    marked = λ n s m h. h;
    deleted = λ n ok s m h. delete-All InRange n ok s.store h;
    unmarked = λ n s h. h;
  }

  -- Whatever is put into the forms, every user's rate limit stays between 1 and 1000, if the limits
  -- and the configured default were before.
  pub run-InRange :
      (rs : List (Request × Answers)) (s : Site RequestLog)
      → 1 ≤ default_rl
      → default_rl ≤ 1000
      → All InRange s.store.rows
      → All InRange (run c default_rl rs s).store.rows
  run-InRange rs s low high h =
      run-Stable c default_rl AllInRange (AllInRange-Stable low high) rs s h

status_changed :
    (uid later : ℕ) (status : String) (s : Store) (u : User)
    → Coherent s
    → row_by_id uid s.rows ≡ some u
    → let s' = (update_user_status uid status true s).0 in
      let u' : User = record u { status = status } in
      (row_by_id uid s'.rows ≡ some u')
      × ((get_user_by_id uid later true s').1 ≡ some u')
      × ((m : ℕ) (v : User) → m ≢ uid → row_by_id m s.rows ≡ some v → row_by_id m s'.rows ≡ some v)
unfolding update_user_status get_user_by_id row_of
status_changed uid later status s u h row =
    let changed =
      row_by_id-updated (λ v. record v { status = status }) uid s.rows u (λ v. refl) row in
    (
      changed,
      get-eq-row (id_key uid) later (update_user_status uid status true s).0
            (status-Coherent uid status true s h)
          ∙ changed,
      λ m v ne e.
          row_by_id-update uid (λ w. record w { status = status }) (λ w. refl) m s.rows v ne e,
    )

module _ (c : Library) {RequestLog : Type 0} where
  toggle_step :
      (uid : ℕ) (a : Answers) (s : Site RequestLog) (u : User)
      → s.cookie.admin ≡ true
      → a.reads ≡ true
      → a.writes ≡ true
      → (get_user_by_id uid a.now true s.store).1 ≡ some u
      → handle_toggle c uid a s ≡ (
        record s {
          store =
              (update_user_status uid
                (toggled u.status)
                true
                (get_user_by_id uid a.now true s.store).0).0;
        },
        redirect panel,
      )
  unfolding handle_toggle admins_only is_admin_session update_user_status
  toggle_step uid a s u admin reads writes found = simp (admin, reads, writes, found)

  -- An administrator's toggle, with a database that answers and a cache that agrees with it: the
  -- user's stored status is the other one, every other row is as before, and a lookup through the
  -- cache sees the new status.
  pub toggle-flips :
      (uid later : ℕ) (a : Answers) (s : Site RequestLog) (u : User)
      → s.cookie.admin ≡ true
      → a.reads ≡ true
      → a.writes ≡ true
      → Coherent s.store
      → row_by_id uid s.store.rows ≡ some u
      → let s' = (handle_toggle c uid a s).0.store in
        let status = if str_eq u.status active then disabled else active in
        let u' : User = record u { status = status } in
        ((handle_toggle c uid a s).1 ≡ redirect panel)
        × (row_by_id uid s'.rows ≡ some u')
        × ((get_user_by_id uid later true s').1 ≡ some u')
        × ((m : ℕ) (v : User)
            → m ≢ uid
            → row_by_id m s.store.rows ≡ some v
            → row_by_id m s'.rows ≡ some v)
  unfolding get_user_by_id row_of toggled
  toggle-flips uid later a s u admin reads writes h row =
      let found = get-eq-row (id_key uid) a.now s.store h ∙ row in
      let same = get_user-rows (id_key uid) a.now true s.store in
      let g = (get_user (id_key uid) a.now true s.store).0 in
      let (changed, seen, others) =
        status_changed uid later (toggled u.status) g u
          (get-Coherent (id_key uid) a.now true s.store h)
          (subst (λ us. row_by_id uid us ≡ some u) (sym same) row) in
      rw (toggle_step uid a s u admin reads writes found) (
        refl,
        changed,
        seen,
        λ m v ne e. others m v ne (subst (λ us. row_by_id m us ≡ some v) (sym same) e),
      )
