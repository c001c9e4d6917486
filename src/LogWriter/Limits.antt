-- ===== src/LogWriter/Limits.antt =====
-- The bounds on what the log writers buffer (logwriter.go).
use gateway.Prelude.{
  ◌≤◌, ◌<◌, ◌≡◌, refl, sym, true, Bool-cases, inl, inr, List, [], ◌∷◌, ◌++◌, ltb, leb, lt→ltb,
  length, arith, length-append,
}
use gateway.LogWriter.{
  Answers, Writer, new_writer, enqueue, flush, take_entry, receive_from, receive, timer_fires,
  Event, enqueues, receives, fires, step, run, log_queue_size, flush_threshold,
}

module _ {A : Type 0} where
  -- The channel is within its capacity, the batch below the threshold, and the timer runs exactly
  -- while the batch holds an entry.
  pub record IsBounded (w : Writer A) : Type 0 where
    pub queue_bound : length w.queue ≤ 1024
    pub batch_bound : length w.batch < 100
    pub waits : w.timer_active ≡ ltb 0 (length w.batch)

  new_writer-IsBounded : IsBounded new_writer
  new_writer-IsBounded = record {
    queue_bound = omega arith;
    batch_bound = omega arith;
    waits = refl;
  }

  flush-IsBounded : (a : Answers A) (w : Writer A) → length w.queue ≤ 1024 → IsBounded (flush a w)
  unfolding flush
  flush-IsBounded a w h = record { queue_bound = h; batch_bound = omega arith; waits = refl }

  take_entry-IsBounded :
      (a : Answers A) (x : A) (rest : List A) (w : Writer A)
      → length (x ∷ rest) ≤ 1024
      → IsBounded w
      → IsBounded (take_entry a x rest w)
  unfolding take_entry
  take_entry-IsBounded a x rest w h v =
      elim (Bool-cases (leb flush_threshold (length (w.batch ++ x ∷ [])))) [
        | inl e ↦ rw e (
            flush-IsBounded a
              (record w { queue = rest; batch = w.batch ++ x ∷ []; timer_active = true })
              (omega (arith, h)))
        | inr e ↦ rw e (record {
          queue_bound = omega (arith, h);
          batch_bound = ground (arith, length-append w.batch (x ∷ []), e);
          waits = sym (
              lt→ltb 0 (length (w.batch ++ x ∷ []))
                (ground (arith, length-append w.batch (x ∷ []))));
        })
      ]

  receive_from-IsBounded :
      (a : Answers A) (q : List A) (w : Writer A)
      → length q ≤ 1024
      → IsBounded w
      → IsBounded (receive_from a q w)
  unfolding receive_from
  receive_from-IsBounded a [] w h v = v
  receive_from-IsBounded a (x ∷ rest) w h v = take_entry-IsBounded a x rest w h v

  step-IsBounded : (w : Writer A) (e : Event A) → IsBounded w → IsBounded (step w e)
  unfolding step enqueue receive timer_fires
  step-IsBounded w (enqueues e) v = elim (Bool-cases (ltb (length w.queue) log_queue_size)) [
    | inl t ↦ rw t (record {
      queue_bound = ground (arith, length-append w.queue (e ∷ []), t);
      batch_bound = v.batch_bound;
      waits = v.waits;
    })
    | inr t ↦
        rw t (record { queue_bound = v.queue_bound; batch_bound = v.batch_bound; waits = v.waits })
  ]
  step-IsBounded w (receives a) v = receive_from-IsBounded a w.queue w v.queue_bound v
  step-IsBounded w (fires a) v = flush-IsBounded a w v.queue_bound

  -- Whatever the sequence of enqueues, receipts and timer expiries and whatever the database answers,
  -- the channel holds at most 1024 entries, the batch fewer than 100, and the flush timer runs exactly
  -- while the batch holds an entry.
  pub run-IsBounded : (w : Writer A) (es : List (Event A)) → IsBounded w → IsBounded (run w es)
  unfolding run
  run-IsBounded w [] v = v
  run-IsBounded w (e ∷ es) v = run-IsBounded (step w e) es (step-IsBounded w e v)
