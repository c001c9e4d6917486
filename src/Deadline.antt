-- ===== src/Deadline.antt =====
-- The deadline of a stream (engine.go: streamDeadline): its timer, its ceiling and the cause of its
-- context. Each function is given the reading of the clock that it takes.
pub mod Bounds
use gateway.Prelude.{ℕ, zero, suc, ◌+◌, ◌-◌, Option, none, some, ltb, leb, if◌then◌else◌}

-- errStreamIdle, errStreamDeadline, and any other cause: the parent's or context.Canceled.
pub data Cause : Type 0 where
  stream_idle stream_deadline other_cause : Cause

-- `max` is `none` for the zero time, `timer` is the time at which it is due, and `ended` is
-- context.Cause(ctx).
pub record StreamDeadline : Type 0 where
  pub idle : ℕ
  pub max : Option ℕ
  pub timer : Option ℕ
  pub ended : Option Cause

-- until. A ceiling that has passed leaves 0.
unfoldable pub until : ℕ → StreamDeadline → ℕ
until now d = elim d.max [
  | none ↦ d.idle
  | some m ↦ if ltb (m - now) d.idle then m - now else d.idle
]

unfoldable pub ceiling : ℕ → ℕ → Option ℕ
ceiling now zero = none
ceiling now (suc overall) = some (now + suc overall)

-- touch: the timer is reset.
unfoldable pub touch : ℕ → StreamDeadline → StreamDeadline
unfolding until
touch now d = record d { timer = some (now + until now d) }

unfoldable pub new_stream_deadline : ℕ → ℕ → ℕ → StreamDeadline
unfolding touch ceiling
new_stream_deadline now idle overall =
    touch now (record { idle = idle; max = ceiling now overall; timer = none; ended = none })

-- A CancelCauseFunc: the first cause stays.
unfoldable pub cancel : Cause → StreamDeadline → StreamDeadline
cancel cause d = elim d.ended [ none ↦ record d { ended = some cause } | some c ↦ d ]

unfoldable pub cause_at : ℕ → Option ℕ → Cause
cause_at now none = stream_idle
cause_at now (some m) = if leb m now then stream_deadline else stream_idle

-- fired, by the timer, which is then spent.
unfoldable pub fired : ℕ → StreamDeadline → StreamDeadline
unfolding cancel cause_at
fired now d = cancel (cause_at now d.max) (record d { timer = none })

unfoldable pub reported : Option Cause → Option Cause
reported none = none
reported (some stream_idle) = some stream_idle
reported (some stream_deadline) = some stream_deadline
reported (some other_cause) = none

unfoldable pub cause : StreamDeadline → Option Cause
unfolding reported
cause d = reported d.ended

unfoldable pub stop : StreamDeadline → StreamDeadline
unfolding cancel
stop d = cancel other_cause (record d { timer = none })
