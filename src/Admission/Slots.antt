-- ===== src/Admission/Slots.antt =====
-- What an admission does to the slots of the engines, on every path (api_handlers.go, engine.go).
use gateway.Prelude.{
  ℕ, ◌+◌, ◌≤◌, ◌<◌, ◌≡◌, ◌≢◌, refl, sym, subst, ◌∙◌, Bool, true, Bool-cases, inl, inr, Option, none,
  some, arith,
}
use gateway.Engine.{EngineCache, Adapter}
use gateway.RateLimit.{Rate, is_allowed}
use gateway.Routing.{
  RouteIndex, Route, route_ok, route_no_engines, route_model_not_found, select_engine,
}
use gateway.Users.{User}
use gateway.Admission.{
  slots_of, Body, too_large, invalid, without_messages, completion, Admitted, refused, admitted,
  slot_id, with_taken, release, try_acquire, Gateway, take_slot, acquire_engine, admit_body,
  admit_completion,
}

free_slot :
    (gives_up : Bool) (a : Adapter) (taken : ℕ → ℕ)
    → try_acquire gives_up a taken ≡ true
    → taken (slot_id a) < slots_of a
unfolding try_acquire
free_slot gives_up a taken h = ground (arith, h)

refused_admitted : (code : ℕ) (a : Adapter) → refused code ≢ admitted a
refused_admitted code a e = cc

admitted_inj : {a b : Adapter} → admitted a ≡ admitted b → a ≡ b
admitted_inj e = cc

pub released :
    (a : Adapter) (taken : ℕ → ℕ) (j : ℕ)
    → release a (with_taken (slot_id a) (taken (slot_id a) + 1) taken) j ≡ taken j
unfolding release with_taken
released a taken j = ground arith

taken_with_taken :
    (a : Adapter) (taken : ℕ → ℕ) (n : ℕ)
    → n < slots_of a
    → with_taken (slot_id a) (n + 1) taken (slot_id a) ≤ slots_of a
unfolding with_taken
taken_with_taken a taken n h = ground (arith, h)

module _ {rate : Rate} where
  -- Either an error and no slot, or one slot of an engine that had one free.
  pub data Slot (taken : ℕ → ℕ) (p : Gateway rate × Admitted) : Type 0 where
    keeps : (code : ℕ) → p.1 ≡ refused code → p.0.taken ≡ taken → Slot taken p
    takes :
        (a : Adapter)
        → p.1 ≡ admitted a
        → taken (slot_id a) < slots_of a
        → p.0.taken ≡ with_taken (slot_id a) (taken (slot_id a) + 1) taken
        → Slot taken p

  take_slot-Slot :
      (gives_up : Bool) (route : Route) (g : Gateway rate)
      → Slot g.taken (take_slot rate gives_up route g)
  unfolding take_slot
  take_slot-Slot gives_up route_no_engines g = keeps 502 refl refl
  take_slot-Slot gives_up route_model_not_found g = keeps 404 refl refl
  take_slot-Slot gives_up (route_ok a) g = elim (Bool-cases (try_acquire gives_up a g.taken)) [
    | inl t ↦ simp t (takes a refl (free_slot gives_up a g.taken t) refl)
    | inr t ↦ simp t (keeps 503 refl refl)
  ]

  admit_body-Slot :
      (c : EngineCache) (body : Body) (now : ℕ) (built : RouteIndex) (gives_up : Bool)
      (g : Gateway rate)
      → Slot g.taken (admit_body rate c body now built gives_up g)
  unfolding admit_body acquire_engine
  admit_body-Slot c too_large now built gives_up g = keeps 413 refl refl
  admit_body-Slot c invalid now built gives_up g = keeps 400 refl refl
  admit_body-Slot c without_messages now built gives_up g = keeps 400 refl refl
  admit_body-Slot c (completion model) now built gives_up g =
      take_slot-Slot gives_up (select_engine c model now built g.routing).1
        (record g { routing = (select_engine c model now built g.routing).0 })

  pub admit_completion-Slot :
      (c : EngineCache) (user : Option User) (body : Body) (now : ℕ) (built : RouteIndex)
      (gives_up : Bool) (g : Gateway rate)
      → Slot g.taken (admit_completion rate c user body now built gives_up g)
  unfolding admit_completion
  admit_completion-Slot c none body now built gives_up g = keeps 401 refl refl
  admit_completion-Slot c (some u) body now built gives_up g =
      elim (Bool-cases (is_allowed rate g.limits u.id u.rate_limit now now).1) [
        | inl t ↦ simp t (
            admit_body-Slot c body now built gives_up
              (record g { limits = (is_allowed rate g.limits u.id u.rate_limit now now).0 }))
        | inr t ↦ simp t (keeps 429 refl refl)
      ]

  pub Slot-refused :
      (taken : ℕ → ℕ) (p : Gateway rate × Admitted) (code : ℕ)
      → Slot taken p
      → p.1 ≡ refused code
      → p.0.taken ≡ taken
  Slot-refused taken p code (keeps code' e k) h = k
  Slot-refused taken p code (takes a e free k) h = absurd (refused_admitted code a (sym h ∙ e))

  -- A completion that is answered by an error holds no slot of any engine, whichever of its checks it
  -- failed.
  pub refused-keeps :
      (c : EngineCache) (user : Option User) (body : Body) (now : ℕ) (built : RouteIndex)
      (gives_up : Bool) (g : Gateway rate) (code : ℕ)
      → (admit_completion rate c user body now built gives_up g).1 ≡ refused code
      → (admit_completion rate c user body now built gives_up g).0.taken ≡ g.taken
  refused-keeps c user body now built gives_up g code h =
      Slot-refused g.taken _ code (admit_completion-Slot c user body now built gives_up g) h

  pub Slot-admitted :
      (taken : ℕ → ℕ) (p : Gateway rate × Admitted) (a : Adapter) (j : ℕ)
      → Slot taken p
      → p.1 ≡ admitted a
      → (p.0.taken (slot_id a) ≤ slots_of a) × (release a p.0.taken j ≡ taken j)
  Slot-admitted taken p a j (keeps code e k) h = absurd (refused_admitted code a (sym e ∙ h))
  Slot-admitted taken p a j (takes b e free k) h =
      subst (λ x. (p.0.taken (slot_id x) ≤ slots_of x) × (release x p.0.taken j ≡ taken j))
        (admitted_inj (sym e ∙ h))
        (rw k (taken_with_taken b taken (taken (slot_id b)) free, released b taken j))

  -- A completion that is admitted holds one slot of its engine and no more than the engine has are
  -- taken; its release leaves the slots of every engine as they were before it.
  pub admitted-release :
      (c : EngineCache) (user : Option User) (body : Body) (now : ℕ) (built : RouteIndex)
      (gives_up : Bool) (g : Gateway rate) (a : Adapter) (j : ℕ)
      → (admit_completion rate c user body now built gives_up g).1 ≡ admitted a
      → ((admit_completion rate c user body now built gives_up g).0.taken (slot_id a) ≤ slots_of a)
        × (release a (admit_completion rate c user body now built gives_up g).0.taken j ≡ g.taken j)
  admitted-release c user body now built gives_up g a j h =
      Slot-admitted g.taken _ a j (admit_completion-Slot c user body now built gives_up g) h
