-- ===== src/Prune.antt =====
-- Log retention (db.go: pruneLogs). A table is the times of its rows, oldest first, as its index on ts
-- orders them; `execs n` says whether the n-th DELETE succeeds.
pub mod Batches
use gateway.Prelude.{ℕ, zero, suc, ◌+◌, Bool, true, false, List, [], ◌∷◌, ltb, ◌==◌, if◌then◌else◌}

abbrev pub batch_size : ℕ
batch_size = 500

abbrev pub max_batches : ℕ
max_batches = 200

-- DELETE … WHERE ts < cutoff ORDER BY ts LIMIT limit: the rows left, and how many are gone.
unfoldable pub delete_batch : ℕ → ℕ → List ℕ → List ℕ × ℕ
delete_batch cutoff zero rows = (rows, 0)
delete_batch cutoff (suc limit) [] = ([], 0)
delete_batch cutoff (suc limit) (ts ∷ rows) =
    let (left, n) = delete_batch cutoff limit rows in
    if ltb ts cutoff then (left, n + 1) else (ts ∷ rows, 0)

-- The rows left of a table, the count of those deleted, and whether every DELETE succeeded.
pub record Pruned : Type 0 where
  pub rows : List ℕ
  pub deleted : ℕ
  pub succeeded : Bool

-- The loop over the batches of one table, with `m` of them left and the k-th DELETE next.
unfoldable pub prune_table : (ℕ → Bool) → ℕ → ℕ → ℕ → List ℕ → ℕ → Pruned
unfolding delete_batch
prune_table execs cutoff zero k rows deleted = record {
  rows = rows;
  deleted = deleted;
  succeeded = true;
}
prune_table execs cutoff (suc m) k rows deleted =
    let (left, n) = delete_batch cutoff batch_size rows in
    let rest = prune_table execs cutoff m (k + 1) left (deleted + n) in
    if execs k
    then if ltb n batch_size
      then record { rows = left; deleted = deleted + n; succeeded = true }
      else rest
    else record { rows = rows; deleted = deleted; succeeded = false }

-- pruneLogs: the two tables as they are left. A failure at the first one leaves the second alone;
-- `execs` and `execs'` are the DELETEs of the two. A retention of 0 deletes nothing.
unfoldable pub prune_logs : (ℕ → Bool) → (ℕ → Bool) → ℕ → ℕ → List ℕ → List ℕ → Pruned × Pruned
unfolding prune_table
prune_logs execs execs' retention cutoff logs requests =
    let first = prune_table execs cutoff max_batches 0 logs 0 in
    let second = prune_table execs' cutoff max_batches 0 requests 0 in
    let alone : Pruned = record { rows = requests; deleted = 0; succeeded = true } in
    if retention == 0
    then (record { rows = logs; deleted = 0; succeeded = true }, alone)
    else if first.succeeded
    then (first, second)
    else (first, alone)
