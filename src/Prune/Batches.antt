-- ===== src/Prune/Batches.antt =====
-- The batches of a sweep are one deletion (db.go: pruneLogs).
use gateway.Prelude.{
  ℕ, zero, suc, ◌+◌, ◌-◌, ◌*◌, ◌≤◌, min, ◌≡◌, refl, sym, ap, ap₂, ◌==◌, ◌∙◌, Bool, true, false,
  List, [], ◌∷◌, ltb, lt→ltb, ge→ltb, if◌then◌else◌, drop, dec_lt, Bool-cases, inl, inr, arith,
}
use gateway.Logs.Pages.{drop-add}
use gateway.Prune.{batch_size, max_batches, delete_batch, Pruned, prune_table, prune_logs}

-- How many rows at the front of a table are older than the cutoff.
abbrev pub expired : ℕ → List ℕ → ℕ
expired cutoff [] = 0
expired cutoff (ts ∷ rows) = let n = expired cutoff rows in if ltb ts cutoff then n + 1 else 0

delete_batch-min :
    (cutoff limit : ℕ) (rows : List ℕ)
    → (delete_batch cutoff limit rows).1 ≡ min limit (expired cutoff rows)
unfolding delete_batch
delete_batch-min cutoff zero rows = omega arith
delete_batch-min cutoff (suc limit) [] = omega arith
delete_batch-min cutoff (suc limit) (ts ∷ rows) = ground (arith, delete_batch-min cutoff limit rows)

delete_batch-drop :
    (cutoff limit : ℕ) (rows : List ℕ)
    → (delete_batch cutoff limit rows).0 ≡ drop (delete_batch cutoff limit rows).1 rows
unfolding delete_batch
delete_batch-drop cutoff zero rows = refl
delete_batch-drop cutoff (suc limit) [] = refl
delete_batch-drop cutoff (suc limit) (ts ∷ rows) = elim (Bool-cases (ltb ts cutoff)) [
  | inl old ↦
      let n = (delete_batch cutoff limit rows).1 in
      let next : suc n ≡ n + 1 = omega arith in
      simp old (delete_batch-drop cutoff limit rows ∙ ap (λ j. drop j (ts ∷ rows)) next)
  | inr young ↦ simp young refl
]

expired-drop :
    (cutoff n : ℕ) (rows : List ℕ)
    → n ≤ expired cutoff rows
    → expired cutoff (drop n rows) ≡ expired cutoff rows - n
expired-drop cutoff zero rows h = omega arith
expired-drop cutoff (suc n) [] h = omega arith
expired-drop cutoff (suc n) (ts ∷ rows) h = ground (arith, expired-drop cutoff n rows)

-- A table from which the first `e` rows are gone.
abbrev pub without_first : ℕ → List ℕ → ℕ → Pruned
without_first e rows deleted = record {
  rows = drop e rows;
  deleted = deleted + e;
  succeeded = true;
}

without_first-drop :
    (b e e' : ℕ) (rows : List ℕ) (deleted : ℕ)
    → e' ≡ b + e
    → without_first e (drop b rows) (deleted + b) ≡ without_first e' rows deleted
without_first-drop b e e' rows deleted h =
    let sum : deleted + b + e ≡ deleted + e' = omega (arith, h) in
    let all = drop-add e b rows ∙ ap (λ j. drop j rows) (sym h) in
    λ i. record { rows = all i; deleted = sum i; succeeded = true }

module _ (execs : ℕ → Bool) (cutoff : ℕ) where
  -- Where every DELETE succeeds, the batches of a table together delete what one DELETE without a
  -- limit of its own would: all rows older than the cutoff, or as many as the batches can hold.
  pub prune_table-without_first :
      (m k : ℕ) (rows : List ℕ) (deleted : ℕ)
      → ((j : ℕ) → execs j ≡ true)
      → prune_table execs cutoff m k rows deleted
        ≡ without_first (min (m * batch_size) (expired cutoff rows)) rows deleted
  unfolding prune_table
  prune_table-without_first zero k rows deleted ok =
      let none : min (0 * batch_size) (expired cutoff rows) ≡ 0 = omega arith in
      let same : deleted ≡ deleted + 0 = omega arith in
      rw none (λ i. record { rows = rows; deleted = same i; succeeded = true })
  prune_table-without_first (suc m) k rows deleted ok =
      let n = (delete_batch cutoff batch_size rows).1 in
      let n_is = delete_batch-min cutoff batch_size rows in
      let left = delete_batch-drop cutoff batch_size rows in
      elim (dec_lt n batch_size) [
        | yes short ↦
            let whole : min (suc m * batch_size) (expired cutoff rows) ≡ n = omega (arith, n_is) in
            simp (ok k, lt→ltb n batch_size short)
              (λ i. record {
                rows = (left ∙ ap (λ j. drop j rows) (sym whole)) i;
                deleted = deleted + sym whole i;
                succeeded = true;
              })
        | no full ↦
            let e = expired cutoff rows in
            let later = expired-drop cutoff n rows (omega (arith, n_is)) in
            let sum : min (suc m * batch_size) e
                ≡ n + min (m * batch_size) (expired cutoff (drop n rows)) =
              omega (arith, n_is, later, full) in
            simp (ok k, ge→ltb n batch_size (omega arith))
              (prune_table-without_first m (k + 1) (delete_batch cutoff batch_size rows).0
                  (deleted + n) ok
                ∙ ap (λ l. without_first (min (m * batch_size) (expired cutoff l)) l (deleted + n))
                    left
                ∙ without_first-drop n (min (m * batch_size) (expired cutoff (drop n rows)))
                    (min (suc m * batch_size) e) rows deleted sum)
      ]

positive : (n : ℕ) → 1 ≤ n → (n == 0) ≡ false
positive n h = ground arith

-- A sweep of the log tables that meets no error leaves each as one deletion of its expired rows would,
-- up to the hundred thousand that the batches can hold; it counts what it deleted. No row that is
-- behind one within the retention is touched.
pub prune_logs-without_first :
    (execs execs' : ℕ → Bool) (retention cutoff : ℕ) (logs requests : List ℕ)
    → ((j : ℕ) → execs j ≡ true)
    → ((j : ℕ) → execs' j ≡ true)
    → 1 ≤ retention
    → prune_logs execs execs' retention cutoff logs requests ≡ (
      without_first (min 100_000 (expired cutoff logs)) logs 0,
      without_first (min 100_000 (expired cutoff requests)) requests 0,
    )
unfolding prune_logs
prune_logs-without_first execs execs' retention cutoff logs requests ok ok' some_days =
    let first = prune_table-without_first execs cutoff max_batches 0 logs 0 ok in
    let second = prune_table-without_first execs' cutoff max_batches 0 requests 0 ok' in
    let succeeds = ap (λ p. p.succeeded) first in
    simp (positive retention some_days, succeeds) (ap₂ (λ p q. (p, q)) first second)
