-- ===== src/Routing/Publication.antt =====
-- Builds of the index that overlap with each other and with invalidations. A build reads routeGen
-- before it probes; storeRouteIndex and invalidateRouteIndex are steps under routeMu.
use gateway.Prelude.{
  ℕ, ◌+◌, ◌≤◌, ◌<◌, ◌≡◌, inl, inr, false, Option, none, some, List, [], ◌∷◌, ◌++◌, arith, ◌==◌,
  if◌then◌else◌, Bool-cases, Option-cases, All,
}
use gateway.Routing.{
  RouteIndex, Routing, store_route_index, invalidate_route_index, mark_stale, is_stale,
  route_index_ttl,
}

-- The routing state and how often it was invalidated; for each running build, the generation that it
-- has read and how often the index had been invalidated when it began; and how often it had been when
-- the build of the published index began.
pub record World : Type 0 where
  pub routing : Routing
  pub invalidations : ℕ
  pub running : List (ℕ × ℕ)
  pub begun : ℕ

-- A build begins, a build that read `g` ends with some index, and the engines or models change.
pub data Step (w : World) : World → Type 0 where
  begins : Step w (record w { running = (w.routing.gen, w.invalidations) ∷ w.running })
  finishes :
      (before after : List (ℕ × ℕ)) (g seen : ℕ) (idx : RouteIndex)
      → w.running ≡ before ++ (g, seen) ∷ after
      → Step w (record w {
        routing = store_route_index idx g w.routing;
        running = before ++ after;
        begun = (if w.routing.gen == g then seen else w.begun);
      })
  invalidates :
      Step w (record w {
        routing = invalidate_route_index w.routing;
        invalidations = w.invalidations + 1;
      })

pub data Reach (s : World) : World → Type 0 where
  here : Reach s s
  next : {t u : World} → Reach s t → Step t u → Reach s u

-- The process starts without an index and without a build.
abbrev pub started : World
started = record {
  routing = record { index = none; gen = 0; refreshing = false };
  invalidations = 0;
  running = [];
  begun = 0;
}

-- Whether the published index still counts as fresh for some reader.
abbrev pub Unmarked : Option RouteIndex → Type 0
Unmarked none = ⊥
Unmarked (some idx) = 0 < idx.built

-- The generation has moved as often since a build began as there were invalidations.
abbrev Counted : ℕ → ℕ → List (ℕ × ℕ) → Type 0
Counted gen invalidations = All (λ (b : ℕ × ℕ). b.0 + invalidations ≡ gen + b.1)

-- An index that is not marked stale was begun after the last invalidation.
record IsCurrent (w : World) : Type 0 where
  counted : Counted w.routing.gen w.invalidations w.running
  current : Unmarked w.routing.index → w.begun ≡ w.invalidations

Counted-suc :
    (gen inv : ℕ) (bs : List (ℕ × ℕ)) → Counted gen inv bs → Counted (gen + 1) (inv + 1) bs
Counted-suc gen inv [] c = tt
Counted-suc gen inv (b ∷ bs) c = (omega (arith, c.0), Counted-suc gen inv bs c.1)

Counted-one :
    (gen inv : ℕ) (before : List (ℕ × ℕ)) (b : ℕ × ℕ) (after : List (ℕ × ℕ))
    → Counted gen inv (before ++ b ∷ after)
    → (b.0 + inv ≡ gen + b.1) × Counted gen inv (before ++ after)
Counted-one gen inv [] b after c = c
Counted-one gen inv (x ∷ before) b after c =
    let (one, rest) = Counted-one gen inv before b after c.1 in (one, (c.0, rest))

gen-store : (r : Routing) (g : ℕ) (idx : RouteIndex) → (store_route_index idx g r).gen ≡ r.gen
unfolding store_route_index
gen-store r g idx = ground arith

finish-current :
    (r : Routing) (inv begun g seen : ℕ) (idx : RouteIndex)
    → g + inv ≡ r.gen + seen
    → (Unmarked r.index → begun ≡ inv)
    → Unmarked (store_route_index idx g r).index
    → (if r.gen == g then seen else begun) ≡ inv
unfolding store_route_index
finish-current r inv begun g seen idx h c u = elim (Bool-cases (r.gen == g)) [
  | inl same ↦ rw same (ground arith)
  | inr moved ↦ rw moved (c (rw moved at u))
]

invalidate-marks : (r : Routing) → ¬ Unmarked (invalidate_route_index r).index
unfolding invalidate_route_index
invalidate-marks r u = elim (Option-cases r.index) [
  | inl nothing ↦ rw (nothing, mark_stale) at u
  | inr (idx, published) ↦ let h : 0 < 0 = rw (published, mark_stale) at u in absurd (omega arith)
]

Step-IsCurrent : {w x : World} → Step w x → IsCurrent w → IsCurrent x
unfolding invalidate_route_index
Step-IsCurrent begins c = record { counted = (omega arith, c.counted); current = c.current }
Step-IsCurrent {w} (finishes before after g seen idx e) c =
    let (one, rest) =
      Counted-one w.routing.gen w.invalidations before (g, seen) after (rw e at c.counted) in
    record {
      counted = rw (gen-store w.routing g idx) rest;
      current = finish-current w.routing w.invalidations w.begun g seen idx one c.current;
    }
Step-IsCurrent {w} invalidates c = record {
  counted = Counted-suc w.routing.gen w.invalidations w.running c.counted;
  current = λ u. absurd (invalidate-marks w.routing u);
}

Reach-IsCurrent : {t : World} → Reach started t → IsCurrent t
Reach-IsCurrent here = record { counted = tt; current = λ u. absurd u }
Reach-IsCurrent (next r st) = Step-IsCurrent st (Reach-IsCurrent r)

-- From the start of the process on, however builds and invalidations overlap: an index that a reader
-- still takes for fresh comes from a build that began when all the invalidations that there have been
-- until now had happened. (The clock has passed the first minute of its time.)
pub fresh-current :
    {t : World} (idx : RouteIndex) (now : ℕ)
    → Reach started t
    → t.routing.index ≡ some idx
    → route_index_ttl < now
    → is_stale idx now ≡ false
    → t.begun ≡ t.invalidations
unfolding is_stale
fresh-current {t} idx now r published late fresh =
    (Reach-IsCurrent r).current (rw published (ground arith))

-- A build that began before an invalidation publishes nothing after it.
pub late_build_dropped :
    (r : Routing) (idx : RouteIndex) (g : ℕ)
    → g ≤ r.gen
    → store_route_index idx g (invalidate_route_index r) ≡ invalidate_route_index r
unfolding store_route_index invalidate_route_index
late_build_dropped r idx g h = ground arith
