-- ===== src/LogWriter.antt =====
-- The batched log writers (logwriter.go). Both writers are one loop over their entry type. An event is
-- one case of the loop's select, or an enqueue by a request; the database answers each flush.
pub mod Order
pub mod Limits
use gateway.Prelude.{
  ℕ, ◌+◌, Bool, true, false, List, [], ◌∷◌, ◌++◌, ltb, leb, if◌then◌else◌, length, keep,
}

abbrev pub log_queue_size : ℕ
log_queue_size = 1024

abbrev pub flush_threshold : ℕ
flush_threshold = 100

-- What the database answers to one batch: each statement may fail.
pub record Answers (A : Type 0) : Type 0 where
  pub begin_ok : Bool
  pub prepare_ok : Bool
  pub exec_ok : A → Bool
  pub commit_ok : Bool

-- The rows that flushInteractionBatch or flushRequestBatch leaves in the database.
unfoldable pub flush_batch : {A : Type 0} → Answers A → List A → List A
flush_batch a [] = []
flush_batch a (e ∷ batch) =
    if a.begin_ok
    then if a.prepare_ok then if a.commit_ok then keep a.exec_ok (e ∷ batch) else [] else []
    else []

-- The channel, the writer's batch and timer, and what has gone by: the entries handed to a flush,
-- the rows written, the count of drops.
pub record Writer (A : Type 0) : Type 0 where
  pub queue : List A
  pub batch : List A
  pub timer_active : Bool
  pub flushed : List A
  pub written : List A
  pub dropped : ℕ

abbrev pub new_writer : {A : Type 0} → Writer A
new_writer = record {
  queue = [];
  batch = [];
  timer_active = false;
  flushed = [];
  written = [];
  dropped = 0;
}

-- enqueueInteractionLog, enqueueRequestLog: a full channel drops the entry.
unfoldable pub enqueue : {A : Type 0} → A → Writer A → Writer A
enqueue e w =
    if ltb (length w.queue) log_queue_size
    then record w { queue = w.queue ++ e ∷ [] }
    else record w { dropped = w.dropped + 1 }

-- The closure `flush`: the batch is emptied whatever the database answers.
unfoldable pub flush : {A : Type 0} → Answers A → Writer A → Writer A
flush a w = record w {
  batch = [];
  timer_active = false;
  flushed = w.flushed ++ w.batch;
  written = w.written ++ flush_batch a w.batch;
}

-- `case e := <-ch`
unfoldable pub take_entry : {A : Type 0} → Answers A → A → List A → Writer A → Writer A
take_entry a e rest w =
    let w' = record w { queue = rest; batch = w.batch ++ e ∷ []; timer_active = true } in
    if leb flush_threshold (length w'.batch) then flush a w' else w'

unfoldable pub receive_from : {A : Type 0} → Answers A → List A → Writer A → Writer A
receive_from a [] w = w
receive_from a (e ∷ rest) w = take_entry a e rest w

unfoldable pub receive : {A : Type 0} → Answers A → Writer A → Writer A
unfolding receive_from
receive a w = receive_from a w.queue w

-- `case <-timer.C`
unfoldable pub timer_fires : {A : Type 0} → Answers A → Writer A → Writer A
timer_fires a w = flush a w

-- `case <-ctx.Done()`: what is buffered is drained and flushed, and the loop returns.
unfoldable pub shut_down : {A : Type 0} → Answers A → Writer A → Writer A
shut_down a w = flush a (record w { queue = []; batch = w.batch ++ w.queue })

pub data Event (A : Type 0) : Type 0 where
  enqueues : A → Event A
  receives : Answers A → Event A
  fires : Answers A → Event A

unfoldable pub step : {A : Type 0} → Writer A → Event A → Writer A
step w (enqueues e) = enqueue e w
step w (receives a) = receive a w
step w (fires a) = timer_fires a w

unfoldable pub run : {A : Type 0} → Writer A → List (Event A) → Writer A
run w [] = w
run w (e ∷ es) = run (step w e) es

-- runInteractionWriter, runRequestWriter, from the start to the end of the context.
unfoldable pub run_writer : {A : Type 0} → List (Event A) → Answers A → Writer A
run_writer es a = shut_down a (run new_writer es)
