-- ===== src/Routing.antt =====
-- Model-aware routing (routing.go). Times are nanoseconds with 0 for the zero time. A build of the
-- index is given by the probe answers in the order in which they arrived before its context ended.
pub mod Index
pub mod Selection
pub mod Publication
use gateway.Prelude.{
  ℕ, suc, ◌+◌, ◌-◌, ◌*◌, String, str_eq, Bool, true, false, Option, none, some, List, [], ◌∷◌, ◌++◌,
  ltb, leb, ◌==◌, if◌then◌else◌,
}
use gateway.Engine.{EngineCache, Adapter, engine_ollama, cached_adapter, cached_adapters_by_type}

abbrev pub route_index_ttl : ℕ
route_index_ttl = 60 * 1_000_000_000

pub record RouteIndex : Type 0 where
  pub by_model : String → List ℕ
  pub built : ℕ
  pub probed : Bool

-- What the probe of one engine yields for routing: the models if it is up (pd.status, pd.models).
pub record Answer : Type 0 where
  pub engine : ℕ
  pub up : Bool
  pub models : List String

-- idx.byModel[name] = append(idx.byModel[name], id)
unfoldable pub append_id : String → ℕ → (String → List ℕ) → String → List ℕ
append_id name id m key = if str_eq name key then m key ++ id ∷ [] else m key

unfoldable pub append_models : List String → ℕ → (String → List ℕ) → String → List ℕ
append_models [] id m = m
append_models (name ∷ names) id m = append_models names id (append_id name id m)

-- The goroutine of one engine, under its lock.
unfoldable pub merge_answer : Answer → RouteIndex → RouteIndex
merge_answer a idx =
    if a.up
    then record idx { by_model = append_models a.models a.engine idx.by_model; probed = true }
    else idx

unfoldable pub merge_answers : List Answer → RouteIndex → RouteIndex
merge_answers [] idx = idx
merge_answers (a ∷ rest) idx = merge_answers rest (merge_answer a idx)

-- sort.Ints
unfoldable pub insert_sorted : ℕ → List ℕ → List ℕ
insert_sorted x [] = x ∷ []
insert_sorted x (y ∷ ys) = if leb x y then x ∷ y ∷ ys else y ∷ insert_sorted x ys

unfoldable pub sort : List ℕ → List ℕ
unfolding insert_sorted
sort [] = []
sort (x ∷ xs) = insert_sorted x (sort xs)

unfoldable pub build_route_index : ℕ → List Answer → RouteIndex
build_route_index now arrivals =
    let idx =
      merge_answers arrivals (record { by_model = λ name. []; built = now; probed = false }) in
    record idx { by_model = λ name. sort (idx.by_model name) }

-- routeIndexPtr, routeGen and routeRefreshing.
pub record Routing : Type 0 where
  pub index : Option RouteIndex
  pub gen : ℕ
  pub refreshing : Bool

unfoldable pub store_route_index : RouteIndex → ℕ → Routing → Routing
store_route_index idx gen r = if r.gen == gen then record r { index = some idx } else r

-- rebuildRouteIndex with nothing in between; Publication has the interleavings.
unfoldable pub rebuild_route_index : RouteIndex → Routing → Routing × RouteIndex
rebuild_route_index built r = (store_route_index built r.gen r, built)

unfoldable pub is_stale : RouteIndex → ℕ → Bool
is_stale idx now = ltb route_index_ttl (now - idx.built)

-- refreshRouteIndexAsync sets the flag, if it is not set, and starts a rebuild.
unfoldable pub refresh_route_index_async : Routing → Routing
refresh_route_index_async r = record r { refreshing = true }

unfoldable pub current_route_index : ℕ → RouteIndex → Routing → Routing × RouteIndex
current_route_index now built r = elim r.index [
  | none ↦ rebuild_route_index built r
  | some idx ↦ (if is_stale idx now then refresh_route_index_async r else r, idx)
]

abbrev mark_stale : Option RouteIndex → Option RouteIndex
mark_stale none = none
mark_stale (some idx) = some (record idx { built = 0 })

unfoldable pub invalidate_route_index : Routing → Routing
invalidate_route_index r = record r { gen = r.gen + 1; index = mark_stale r.index }

-- `engines[0]` has an adapter or the result is nil.
unfoldable pub default_engine : EngineCache → Option Adapter
default_engine c = elim (cached_adapters_by_type c engine_ollama) [
  | a ∷ rest ↦ some a
  | [] ↦ elim c.engines [ [] ↦ none | e ∷ es ↦ cached_adapter c e.id ]
]

pub data Route : Type 0 where
  route_ok : Adapter → Route
  route_no_engines : Route
  route_model_not_found : Route

unfoldable pub or_no_engines : Option Adapter → Route
or_no_engines none = route_no_engines
or_no_engines (some a) = route_ok a

-- `for _, id := range ids { if a := cachedAdapter(id); a != nil { return a } }`
unfoldable pub first_adapter : EngineCache → List ℕ → Option Adapter
first_adapter c [] = none
first_adapter c (id ∷ ids) = elim (c.adapters id) [ some a ↦ some a | none ↦ first_adapter c ids ]

-- The end of selectEngine, for an index that does not help.
unfoldable pub miss : EngineCache → RouteIndex → Route
miss c idx = if idx.probed then route_model_not_found else or_no_engines (default_engine c)

-- The re-check of a miss against a stale index.
unfoldable pub route_rebuilt : EngineCache → String → RouteIndex → Routing → Routing × Route
unfolding miss or_no_engines
route_rebuilt c model built r =
    let (r', idx) = rebuild_route_index built r in
    elim (first_adapter c (idx.by_model model)) [
      | some a ↦ (r', route_ok a)
      | none ↦ (r', miss c idx)
    ]

unfoldable pub route_named : EngineCache → String → ℕ → RouteIndex → Routing → Routing × Route
unfolding route_rebuilt
route_named c model now built r =
    let (r', idx) = current_route_index now built r in
    elim (first_adapter c (idx.by_model model)) [
      | some a ↦ (r', route_ok a)
      | none ↦ if is_stale idx now then route_rebuilt c model built r' else (r', miss c idx)
    ]

-- selectEngine. `built` is what a build of the index yields at this moment.
unfoldable pub select_engine : EngineCache → String → ℕ → RouteIndex → Routing → Routing × Route
unfolding route_named or_no_engines
select_engine c model now built r = elim c.engines [
  | [] ↦ (r, route_no_engines)
  | e ∷ es ↦
      if str_eq model ""
      then (r, or_no_engines (default_engine c))
      else route_named c model now built r
]
