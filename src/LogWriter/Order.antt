-- ===== src/LogWriter/Order.antt =====
-- No log entry is reordered, repeated or lost after the channel has accepted it (logwriter.go).
use gateway.Prelude.{
  ◌≡◌, refl, sym, ap, ◌∙◌, true, Bool-cases, inl, inr, List, [], ◌∷◌, ◌++◌, ltb, leb, if◌then◌else◌,
  length, append_assoc, append-nil,
}
use gateway.LogWriter.{
  Answers, Writer, new_writer, enqueue, flush, take_entry, receive_from, receive, timer_fires,
  shut_down, Event, enqueues, receives, fires, step, run, run_writer, log_queue_size,
  flush_threshold,
}

module _ {A : Type 0} where
  -- Everything that has been accepted, oldest first.
  abbrev pub held : Writer A → List A
  held w = w.flushed ++ (w.batch ++ w.queue)

  -- What one event adds.
  unfoldable pub accepts : Writer A → Event A → List A
  accepts w (enqueues e) = if ltb (length w.queue) log_queue_size then e ∷ [] else []
  accepts w (receives a) = []
  accepts w (fires a) = []

  -- The entries that the channel accepts from a run of events.
  unfoldable pub accepted : Writer A → List (Event A) → List A
  accepted w [] = []
  accepted w (e ∷ es) = accepts w e ++ accepted (step w e) es

  held-flush : (a : Answers A) (w : Writer A) → held (flush a w) ≡ held w
  unfolding flush
  held-flush a w = append_assoc w.flushed w.batch w.queue

  held-take_entry :
      (a : Answers A) (x : A) (rest : List A) (w : Writer A)
      → held (take_entry a x rest w) ≡ w.flushed ++ (w.batch ++ x ∷ rest)
  unfolding take_entry
  held-take_entry a x rest w =
      elim (Bool-cases (leb flush_threshold (length (w.batch ++ x ∷ [])))) [
        | inl e ↦ rw e (
            held-flush a (record w { queue = rest; batch = w.batch ++ x ∷ []; timer_active = true })
            ∙ ap (λ l. w.flushed ++ l) (append_assoc w.batch (x ∷ []) rest))
        | inr e ↦ rw e (ap (λ l. w.flushed ++ l) (append_assoc w.batch (x ∷ []) rest))
      ]

  held-receive_from :
      (a : Answers A) (q : List A) (w : Writer A) → q ≡ w.queue → held (receive_from a q w) ≡ held w
  unfolding receive_from
  held-receive_from a [] w e = refl
  held-receive_from a (x ∷ rest) w e =
      held-take_entry a x rest w ∙ ap (λ l. w.flushed ++ (w.batch ++ l)) e

  held-step : (w : Writer A) (e : Event A) → held (step w e) ≡ held w ++ accepts w e
  unfolding step accepts enqueue receive timer_fires
  held-step w (enqueues e) = elim (Bool-cases (ltb (length w.queue) log_queue_size)) [
    | inl t ↦ rw t (
        ap (λ l. w.flushed ++ l) (sym (append_assoc w.batch w.queue (e ∷ [])))
        ∙ sym (append_assoc w.flushed (w.batch ++ w.queue) (e ∷ [])))
    | inr t ↦ rw t (sym (append-nil (held w)))
  ]
  held-step w (receives a) = held-receive_from a w.queue w refl ∙ sym (append-nil (held w))
  held-step w (fires a) = held-flush a w ∙ sym (append-nil (held w))

  held-run : (w : Writer A) (es : List (Event A)) → held (run w es) ≡ held w ++ accepted w es
  unfolding run accepted
  held-run w [] = sym (append-nil (held w))
  held-run w (e ∷ es) =
      held-run (step w e) es
      ∙ ap (λ l. l ++ accepted (step w e) es) (held-step w e)
      ∙ append_assoc (held w) (accepts w e) (accepted (step w e) es)

  -- Over any sequence of enqueues, receipts and timer expiries followed by the end of the context,
  -- whatever the database answers, the entries handed to a flush are exactly the entries that the
  -- channel accepted, each once and in the order of their acceptance.
  pub flushed-run_writer :
      (es : List (Event A)) (a : Answers A) → (run_writer es a).flushed ≡ accepted new_writer es
  unfolding run_writer shut_down flush
  flushed-run_writer es a = held-run new_writer es
