-- ===== src/Admission.antt =====
-- The admission of a completion (api_handlers.go: handleChatCompletions up to the engine request,
-- checkRateLimit, decodeAPIBody, acquireEngine; engine.go: concurrencyLimiter). The slots taken are
-- those of the limiters in the present adapter cache, and the clock is read once.
pub mod Slots
use gateway.Prelude.{
  ℕ, ◌+◌, ◌-◌, String, Bool, true, false, ◌&&◌, not, Option, none, some, ◌==◌, ltb, if◌then◌else◌,
}
use gateway.Engine.{EngineCache, Adapter, ollama_adapter, openai_compat_adapter, config_of}
use gateway.RateLimit.{Rate, Registry, is_allowed}
use gateway.Routing.{
  RouteIndex, Routing, Route, route_ok, route_no_engines, route_model_not_found, select_engine,
}
use gateway.Users.{User}

-- cap(sem)
unfoldable pub slots_of : Adapter → ℕ
slots_of (ollama_adapter cf slots) = slots
slots_of (openai_compat_adapter cf slots) = slots

-- What decodeAPIBody and the look at "messages" make of a body; the model is "" where it is no
-- string.
pub data Body : Type 0 where
  too_large : Body
  invalid : Body
  without_messages : Body
  completion : String → Body

-- The status of an error, or the engine to ask, one of whose slots the request then holds.
pub data Admitted : Type 0 where
  refused : ℕ → Admitted
  admitted : Adapter → Admitted

abbrev pub slot_id : Adapter → ℕ
slot_id a = (config_of a).id

-- A send on sem, or a receive from it.
unfoldable pub with_taken : ℕ → ℕ → (ℕ → ℕ) → ℕ → ℕ
with_taken id n taken j = if id == j then n else taken j

-- Release: a receive, if there is anything to receive.
unfoldable pub release : Adapter → (ℕ → ℕ) → ℕ → ℕ
unfolding with_taken
release a taken = with_taken (slot_id a) (taken (slot_id a) - 1) taken

-- TryAcquire within the 250 ms: whether a slot is free in time, and is taken. `gives_up` is a context
-- that has ended, which the select may prefer to a free slot.
unfoldable pub try_acquire : Bool → Adapter → (ℕ → ℕ) → Bool
try_acquire gives_up a taken = not gives_up && ltb (taken (slot_id a)) (slots_of a)

module _ (rate : Rate) where
  pub record Gateway : Type 0 where
    pub limits : Registry rate
    pub routing : Routing
    pub taken : ℕ → ℕ

  unfoldable pub take_slot : Bool → Route → Gateway → Gateway × Admitted
  unfolding try_acquire with_taken
  take_slot gives_up route_no_engines g = (g, refused 502)
  take_slot gives_up route_model_not_found g = (g, refused 404)
  take_slot gives_up (route_ok a) g =
      if try_acquire gives_up a g.taken
      then (
        record g { taken = with_taken (slot_id a) (g.taken (slot_id a) + 1) g.taken },
        admitted a,
      )
      else (g, refused 503)

  unfoldable pub acquire_engine :
      EngineCache → String → ℕ → RouteIndex → Bool → Gateway → Gateway × Admitted
  unfolding take_slot
  acquire_engine c model now built gives_up g =
      take_slot gives_up (select_engine c model now built g.routing).1
        (record g { routing = (select_engine c model now built g.routing).0 })

  unfoldable pub admit_body :
      EngineCache → Body → ℕ → RouteIndex → Bool → Gateway → Gateway × Admitted
  unfolding acquire_engine
  admit_body c too_large now built gives_up g = (g, refused 413)
  admit_body c invalid now built gives_up g = (g, refused 400)
  admit_body c without_messages now built gives_up g = (g, refused 400)
  admit_body c (completion model) now built gives_up g = acquire_engine c model now built gives_up g

  -- handleChatCompletions up to the engine request; `none` is a request without a user.
  unfoldable pub admit_completion :
      EngineCache → Option User → Body → ℕ → RouteIndex → Bool → Gateway → Gateway × Admitted
  unfolding admit_body
  admit_completion c none body now built gives_up g = (g, refused 401)
  admit_completion c (some u) body now built gives_up g =
      let limited = is_allowed rate g.limits u.id u.rate_limit now now in
      let g' = record g { limits = limited.0 } in
      if limited.1 then admit_body c body now built gives_up g' else (g', refused 429)
