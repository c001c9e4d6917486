-- ===== src/Deadline/Bounds.antt =====
-- When a stream's deadline ends the stream, and why (engine.go: streamDeadline).
use gateway.Prelude.{
  ℕ, zero, suc, ◌+◌, ◌-◌, ◌≤◌, ◌<◌, ◌≡◌, ◌≢◌, ◌⊎◌, refl, sym, ap, ◌∙◌, max, Option, none, some,
  arith, leb, Bool, true, false, Option-cases, inl, inr,
}
use gateway.Deadline.{
  Cause, stream_idle, stream_deadline, other_cause, StreamDeadline, until, ceiling, touch,
  new_stream_deadline, cancel, cause_at, fired, reported, cause, stop,
}

-- The deadline, the clock, the last progress of the stream, and its longest silence so far.
pub record World : Type 0 where
  pub deadline : StreamDeadline
  pub clock : ℕ
  pub last : ℕ
  pub longest : ℕ

unfoldable pub begun : ℕ → ℕ → ℕ → World
unfolding new_stream_deadline
begun now idle overall = record {
  deadline = new_stream_deadline now idle overall;
  clock = now;
  last = now;
  longest = 0;
}

unfoldable pub silent : World → ℕ → ℕ
silent w now = max w.longest (now - w.last)

-- A chunk is read; the timer fires, when it is due or later; the client hangs up; the handler returns.
pub data Step (w : World) : World → Type 0 where
  reads :
      (now : ℕ)
      → w.clock ≤ now
      → Step w (record {
        deadline = touch now w.deadline;
        clock = now;
        last = now;
        longest = silent w now;
      })
  fires :
      (now due : ℕ)
      → w.clock ≤ now
      → w.deadline.timer ≡ some due
      → due ≤ now
      → Step w (record w { deadline = fired now w.deadline; clock = now; longest = silent w now })
  client_leaves :
      (now : ℕ)
      → w.clock ≤ now
      → Step w (record w {
        deadline = cancel other_cause w.deadline;
        clock = now;
        longest = silent w now;
      })
  returns :
      (now : ℕ)
      → w.clock ≤ now
      → Step w (record w { deadline = stop w.deadline; clock = now; longest = silent w now })

pub data Reach (s : World) : World → Type 0 where
  here : Reach s s
  next : {t u : World} → Reach s t → Step t u → Reach s u

some_inj : {A : Type 0} {a b : A} → some a ≡ some b → a ≡ b
some_inj e = cc

-- Whether a ceiling has passed.
unfoldable past : Option ℕ → ℕ → Bool
past none now = false
past (some m) now = leb m now

past_mono : (limit : Option ℕ) (t now : ℕ) → t ≤ now → past limit t ≡ true → past limit now ≡ true
unfolding past
past_mono none t now h e = e
past_mono (some m) t now h e = ground (arith, h, e)

cause_at-past :
    (now : ℕ) (limit : Option ℕ) → cause_at now limit ≡ stream_deadline → past limit now ≡ true
unfolding cause_at past
cause_at-past now none e = cc
cause_at-past now (some m) e = ground (arith, e)

cause_at-idle :
    (now last : ℕ) (d : StreamDeadline)
    → cause_at now d.max ≡ stream_idle
    → last + until last d ≤ now
    → d.idle ≤ now - last
unfolding cause_at until
cause_at-idle now last d e h = ground (arith, e, h)

silent_grows : (w : World) (now : ℕ) → w.longest ≤ silent w now
unfolding silent
silent_grows w now = ground arith

cancel-idle : (c : Cause) (d : StreamDeadline) → (cancel c d).idle ≡ d.idle
unfolding cancel
cancel-idle c d = ground arith

cancel-max : (c : Cause) (d : StreamDeadline) → (cancel c d).max ≡ d.max
unfolding cancel
cancel-max c d = ground arith

cancel-ended : (c : Cause) (d : StreamDeadline) → (cancel c d).ended ≢ none
unfolding cancel
cancel-ended c d e = ground (arith, e)

cancel-fresh : (c : Cause) (d : StreamDeadline) → d.ended ≡ none → (cancel c d).ended ≡ some c
unfolding cancel
cancel-fresh c d n = rw n refl

cancel-again : (c a : Cause) (d : StreamDeadline) → d.ended ≡ some a → (cancel c d).ended ≡ some a
unfolding cancel
cancel-again c a d n = rw n refl

cancel-cases :
    (c b : Cause) (d : StreamDeadline)
    → (cancel c d).ended ≡ some b
    → ((d.ended ≡ none) × (c ≡ b)) ⊎ (d.ended ≡ some b)
cancel-cases c b d e = elim (Option-cases d.ended) [
  | inl n ↦ inl (n, some_inj (sym (cancel-fresh c d n) ∙ e))
  | inr (a, n) ↦ inr (n ∙ sym (cancel-again c a d n) ∙ e)
]

module _ (idle : ℕ) (limit : Option ℕ) where
  -- What every step preserves of a deadline with these bounds.
  record IsArmed (w : World) : Type 0 where
    same_idle : w.deadline.idle ≡ idle
    same_max : w.deadline.max ≡ limit
    armed : w.deadline.ended ≡ none → w.deadline.timer ≡ some (w.last + until w.last w.deadline)
    ordered : w.last ≤ w.clock
    quiet : w.deadline.ended ≡ some stream_idle → idle ≤ w.longest
    late : w.deadline.ended ≡ some stream_deadline → past limit w.clock ≡ true

  reads-IsArmed :
      (w : World) (now : ℕ)
      → w.clock ≤ now
      → IsArmed w
      → IsArmed (record {
        deadline = touch now w.deadline;
        clock = now;
        last = now;
        longest = silent w now;
      })
  unfolding touch until silent
  reads-IsArmed w now h i = record {
    same_idle = i.same_idle;
    same_max = i.same_max;
    armed = λ e. refl;
    ordered = omega arith;
    quiet = λ e. omega (arith, i.quiet e);
    late = λ e. past_mono limit w.clock now h (i.late e);
  }

  cancels-IsArmed :
      (w : World) (now : ℕ) (c : Cause) (d : StreamDeadline)
      → w.clock ≤ now
      → IsArmed w
      → (d.idle ≡ w.deadline.idle) × (d.max ≡ w.deadline.max) × (d.ended ≡ w.deadline.ended)
      → (w.deadline.ended ≡ none → c ≡ stream_idle → idle ≤ silent w now)
      → (w.deadline.ended ≡ none → c ≡ stream_deadline → past limit now ≡ true)
      → IsArmed (record w { deadline = cancel c d; clock = now; longest = silent w now })
  cancels-IsArmed w now c d h i (p, q, r) k l = record {
    same_idle = cancel-idle c d ∙ p ∙ i.same_idle;
    same_max = cancel-max c d ∙ q ∙ i.same_max;
    armed = λ e. absurd (cancel-ended c d e);
    ordered = omega (arith, h, i.ordered);
    quiet = λ e. elim (cancel-cases c stream_idle d e) [
      | inl (f, g) ↦ k (sym r ∙ f) g
      | inr f ↦ omega (arith, i.quiet (sym r ∙ f), silent_grows w now)
    ];
    late = λ e. elim (cancel-cases c stream_deadline d e) [
      | inl (f, g) ↦ l (sym r ∙ f) g
      | inr f ↦ past_mono limit w.clock now h (i.late (sym r ∙ f))
    ];
  }

  other_causes : (other_cause ≢ stream_idle) × (other_cause ≢ stream_deadline)
  other_causes = (λ e. cc, λ e. cc)

  -- A stream that ends for another reason than a timer.
  cancel-IsArmed :
      (w : World) (now : ℕ) (d : StreamDeadline)
      → w.clock ≤ now
      → IsArmed w
      → (d.idle ≡ w.deadline.idle) × (d.max ≡ w.deadline.max) × (d.ended ≡ w.deadline.ended)
      → IsArmed (record w { deadline = cancel other_cause d; clock = now; longest = silent w now })
  cancel-IsArmed w now d h i same =
      cancels-IsArmed w now other_cause d h i same (λ n e. absurd (other_causes.0 e))
        (λ n e. absurd (other_causes.1 e))

  fires-IsArmed :
      (w : World) (now due : ℕ)
      → w.clock ≤ now
      → w.deadline.timer ≡ some due
      → due ≤ now
      → IsArmed w
      → IsArmed (record w { deadline = fired now w.deadline; clock = now; longest = silent w now })
  unfolding fired silent
  fires-IsArmed w now due h e l i =
      cancels-IsArmed w now (cause_at now w.deadline.max) (record w.deadline { timer = none }) h i
        (refl, refl, refl)
        (λ n c.
          let due' = some_inj (sym e ∙ i.armed n) in
          omega (arith, i.same_idle, cause_at-idle now w.last w.deadline c (rw (← due') l)))
        (λ n c. cause_at-past now limit (ap (cause_at now) (sym i.same_max) ∙ c))

  Step-IsArmed : {w v : World} → Step w v → IsArmed w → IsArmed v
  unfolding stop
  Step-IsArmed {w} (reads now h) i = reads-IsArmed w now h i
  Step-IsArmed {w} (fires now due h e d) i = fires-IsArmed w now due h e d i
  Step-IsArmed {w} (client_leaves now h) i = cancel-IsArmed w now w.deadline h i (refl, refl, refl)
  Step-IsArmed {w} (returns now h) i =
      cancel-IsArmed w now (record w.deadline { timer = none }) h i (refl, refl, refl)

  Reach-IsArmed : {s w : World} → IsArmed s → Reach s w → IsArmed w
  Reach-IsArmed i here = i
  Reach-IsArmed i (next r st) = Step-IsArmed st (Reach-IsArmed i r)

begun-IsArmed :
    (start idle overall : ℕ) → IsArmed idle (ceiling start overall) (begun start idle overall)
unfolding begun new_stream_deadline touch until
begun-IsArmed start idle overall = record {
  same_idle = refl;
  same_max = refl;
  armed = λ e. refl;
  ordered = omega arith;
  quiet = λ e. cc;
  late = λ e. cc;
}

-- Whether a stream has ended, and the evidence for the cause that is reported.
pub data Explained (start idle overall : ℕ) (w : World) : Type 0 where
  runs :
      (due : ℕ)
      → w.deadline.ended ≡ none
      → w.deadline.timer ≡ some due
      → due ≤ w.last + idle
      → (overall ≡ 0) ⊎ (due ≤ max w.last (start + overall))
      → Explained start idle overall w
  stalled : cause w.deadline ≡ some stream_idle → idle ≤ w.longest → Explained start idle overall w
  too_long :
      cause w.deadline ≡ some stream_deadline
      → 0 < overall
      → start + overall ≤ w.clock
      → Explained start idle overall w
  ended_otherwise :
      w.deadline.ended ≡ some other_cause → cause w.deadline ≡ none → Explained start idle overall w

past-ceiling :
    (start overall now : ℕ)
    → past (ceiling start overall) now ≡ true
    → (0 < overall) × (start + overall ≤ now)
unfolding past ceiling
past-ceiling start zero now e = cc
past-ceiling start (suc n) now e = (omega arith, ground (arith, e))

due-bound :
    (start overall last : ℕ) (d : StreamDeadline)
    → d.max ≡ ceiling start overall
    → (last + until last d ≤ last + d.idle)
      × ((overall ≡ 0) ⊎ (last + until last d ≤ max last (start + overall)))
unfolding until ceiling
due-bound start zero last d e = rw e (omega arith, inl refl)
due-bound start (suc n) last d e = rw e (ground arith, inr (ground arith))

explain :
    (start idle overall : ℕ) (w : World) (o : Option Cause)
    → w.deadline.ended ≡ o
    → IsArmed idle (ceiling start overall) w
    → Explained start idle overall w
unfolding cause reported
explain start idle overall w none e i =
    let b = due-bound start overall w.last w.deadline i.same_max in
    runs (w.last + until w.last w.deadline) e (i.armed e) (omega (arith, b.0, i.same_idle)) b.1
explain start idle overall w (some stream_idle) e i = stalled (rw e refl) (i.quiet e)
explain start idle overall w (some stream_deadline) e i =
    let b = past-ceiling start overall w.clock (i.late e) in too_long (rw e refl) b.0 b.1
explain start idle overall w (some other_cause) e i = ended_otherwise e (rw e refl)

-- Whatever the times at which chunks arrive, the timer runs, the client hangs up and the handler
-- returns: a stream that is reported as idle was silent for the idle time at a stretch, and one that is
-- reported as too long has a limit and has reached it. One that has not ended has its timer set, for
-- the idle time after the last chunk at the latest, and for no later than the limit or the last chunk.
pub Reach-Explained :
    {w : World} (start idle overall : ℕ)
    → Reach (begun start idle overall) w
    → Explained start idle overall w
Reach-Explained {w} start idle overall r =
    explain start idle overall w w.deadline.ended refl
      (Reach-IsArmed idle (ceiling start overall) (begun-IsArmed start idle overall) r)
