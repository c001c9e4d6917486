-- ===== src/Admin/Exports.antt =====
-- A user is deleted only after an export (handlers.go: handleExport, handleDelete).
use gateway.Prelude.{
  ℕ, ◌≡◌, refl, sym, subst, ◌∙◌, Bool, true, false, not, ◌||◌, Option, none, some, List, [], ◌∷◌,
  ◌==◌, arith, keep, Bool-cases, inl, inr, ◌⊎◌, ap, ==_iff,
}
use gateway.Users.{User, row_by_id}
use gateway.Users.Present.{
  Present, get_user-Present, status-Present, limit-Present, delete-Present, reset-Present,
  create-Present,
}
use gateway.Admin.{
  among, Site, Answers, Reply, csv, LogRow, admins_only, is_admin_session, get_user_logs,
}
use gateway.Admin.Forms.{Library}
use gateway.Admin.Pages.{
  Request, logout, change_password, register, toggle, reset_key, update_rate_limit, export,
  delete_page, reset_system, handle_export, handle, run,
}
use gateway.Admin.Invariants.{is_for, sent_to, sends, Stable, handle-Stable}

module _ (uid n : ℕ) (ms : List ℕ) where
  not_marked : uid ≡ n → among uid ms ≡ false → among n ms ≡ true → ⊥
  not_marked e out marked = let gone = subst (λ m. among m ms ≡ false) e out in ground arith

neither : {p q : Bool} → (p || q) ≡ false → (p ≡ false) × (q ≡ false)
neither {p} {q} h = ground arith

false_is_true : false ≡ true → ⊥
false_is_true h = cc

none_is_some : {A : Type 0} {x : A} → none ≡ some x → ⊥
none_is_some h = cc

kept :
    (uid n : ℕ) (ms : List ℕ)
    → among uid ms ≡ false
    → among uid (keep (λ m. not (m == n)) ms) ≡ false
unfolding among
kept uid n [] h = refl
kept uid n (m ∷ ms) h = ground (arith, kept uid n ms)

-- What is not answered with the logs of one user may have been with those of another.
other_sent :
    (uid : ℕ) (to : Option ℕ)
    → is_for uid to ≡ false
    → (n : ℕ) → is_for n to ≡ true
    → (n == uid) ≡ false
other_sent uid none here n e = absurd (false_is_true e)
other_sent uid (some m) here n e = ground arith

second_of : {p q : Bool} → p ≡ false → (p || q) ≡ true → q ≡ true
second_of {p} {q} e h = ground arith

-- The request is an export of the user, and the reply the CSV of the log rows with the user's ID.
abbrev pub Sends : {RequestLog : Type 0} → ℕ → Request → Site RequestLog → Reply → Type 0
Sends uid r s reply =
    (r ≡ export uid) × (reply ≡ csv (keep (λ (l : LogRow). l.user_id == uid) s.logs))

export-Sends :
    (c : Library) {RequestLog : Type 0} (uid n : ℕ) (a : Answers) (s : Site RequestLog)
    → sends uid (export n) (handle_export c n a s).1 ≡ true
    → Sends uid (export n) s (handle_export c n a s).1
unfolding handle_export admins_only is_admin_session get_user_logs
export-Sends c uid n a s h = elim (Bool-cases s.cookie.admin) [
  | inr guest ↦ absurd (false_is_true (rw guest at h))
  | inl admin ↦ elim (Bool-cases a.reads) [
    | inr failed ↦ absurd (false_is_true (rw (admin, failed) at h))
    | inl reads ↦
        let same : n ≡ uid = (==_iff n uid).0 (rw (admin, reads) at h) in
        rw (admin, reads)
          (ap export same, ap (λ m. csv (keep (λ (l : LogRow). l.user_id == m) s.logs)) same)
  ]
]

module _ (c : Library) (uid : ℕ) {RequestLog : Type 0} where
  -- The user's row is there, and no saved session says that the user's logs were exported.
  abbrev pub Held : Site RequestLog → Type 0
  Held s = Present uid s.store.rows × (among uid s.cookie.exported ≡ false)

  -- While no export of that user's logs is marked, no handler takes the row.
  Held-Stable : (default_rl : ℕ) → Stable c default_rl Held (λ n. (n == uid) ≡ false)
  unfolding among
  Held-Stable default_rl = record {
    session = λ admin flashes s h. h;
    hash = λ new s h. h;
    cleared = λ s h. h;
    looked_up = λ n now ok s h. (get_user-Present uid n now ok s.store h.0, h.1);
    created = λ id name key s h.
        (create-Present uid c.sha256_hex id name key default_rl s.store h.0, h.1);
    status_set = λ n status ok s h. (status-Present uid n status ok s.store h.0, h.1);
    key_reset = λ n key s h. (reset-Present uid c.sha256_hex n key s.store h.0, h.1);
    limit_set = λ n limit ok s low high h. (limit-Present uid n limit ok s.store h.0, h.1);
    marked = λ n s other h. (h.0, rw other h.1);
    deleted = λ n ok s marked h. (
      delete-Present uid n ok s.store (λ e. not_marked uid n s.cookie.exported e h.1 marked) h.0,
      h.1,
    );
    unmarked = λ n s h. (h.0, kept uid n s.cookie.exported h.1);
  }

  -- Whether one of the requests was answered with the CSV of the user's logs.
  abbrev pub sent : ℕ → List (Request × Answers) → Site RequestLog → Bool
  sent default_rl [] s = false
  sent default_rl ((r, a) ∷ rs) s =
      sends uid r (handle c default_rl r a s).1 || sent default_rl rs (handle c default_rl r a s).0

  not_sent-Held :
      (default_rl : ℕ) (rs : List (Request × Answers)) (s : Site RequestLog)
      → sent default_rl rs s ≡ false
      → Held s
      → Held (run c default_rl rs s)
  unfolding run
  not_sent-Held default_rl [] s none_sent h = h
  not_sent-Held default_rl ((r, a) ∷ rs) s none_sent h =
      let (here, later) = neither none_sent in
      not_sent-Held default_rl rs (handle c default_rl r a s).0 later (
        handle-Stable c default_rl Held (λ n. (n == uid) ≡ false) (Held-Stable default_rl) r a s
          (other_sent uid (sent_to r (handle c default_rl r a s).1) here) h)

  sends-Sends :
      (default_rl : ℕ) (r : Request) (a : Answers) (s : Site RequestLog)
      → sends uid r (handle c default_rl r a s).1 ≡ true
      → Sends uid r s (handle c default_rl r a s).1
  unfolding handle
  sends-Sends default_rl (export n) a s h = export-Sends c uid n a s h
  sends-Sends default_rl logout a s h = absurd (false_is_true h)
  sends-Sends default_rl (change_password current new confirm salt) a s h = absurd (false_is_true h)
  sends-Sends default_rl (register name trimmed api_key id) a s h = absurd (false_is_true h)
  sends-Sends default_rl (toggle n) a s h = absurd (false_is_true h)
  sends-Sends default_rl (reset_key n new_key) a s h = absurd (false_is_true h)
  sends-Sends default_rl (update_rate_limit n f) a s h = absurd (false_is_true h)
  sends-Sends default_rl (delete_page n) a s h = absurd (false_is_true h)
  sends-Sends default_rl (reset_system next) a s h = absurd (false_is_true h)

  -- One of the requests sends the user's logs, as they are when it comes.
  abbrev pub Sent : ℕ → List (Request × Answers) → Site RequestLog → Type 0
  Sent default_rl [] s = ⊥
  Sent default_rl ((r, a) ∷ rs) s =
      Sends uid r s (handle c default_rl r a s).1 ⊎ Sent default_rl rs (handle c default_rl r a s).0

  sent-Sent :
      (default_rl : ℕ) (rs : List (Request × Answers)) (s : Site RequestLog)
      → sent default_rl rs s ≡ true
      → Sent default_rl rs s
  sent-Sent default_rl [] s h = absurd (false_is_true h)
  sent-Sent default_rl ((r, a) ∷ rs) s h =
      elim (Bool-cases (sends uid r (handle c default_rl r a s).1)) [
        | inl here ↦ inl (sends-Sends default_rl r a s here)
        | inr not_here ↦
            inr (sent-Sent default_rl rs (handle c default_rl r a s).0 (second_of not_here h))
      ]

  -- If a user's row is gone after some requests, and at their start the session did not say that the
  -- user's logs were exported, then one of the requests was an export of that user, answered with the
  -- CSV of the log rows that had the user's ID when it came, all of them and in order.
  pub run-exported :
      (default_rl : ℕ) (rs : List (Request × Answers)) (s : Site RequestLog) (u : User)
      → row_by_id uid s.store.rows ≡ some u
      → among uid s.cookie.exported ≡ false
      → row_by_id uid (run c default_rl rs s).store.rows ≡ none
      → Sent default_rl rs s
  run-exported default_rl rs s u there unmarked gone = elim (Bool-cases (sent default_rl rs s)) [
    | inl yes_sent ↦ sent-Sent default_rl rs s yes_sent
    | inr not_sent ↦
        let ((v, row), m) = not_sent-Held default_rl rs s not_sent ((u, there), unmarked) in
        absurd (none_is_some (sym gone ∙ row))
  ]
