-- ===== src/Routing/Selection.antt =====
-- Which engine serves a model, and when the answer is that there is none.
use gateway.Prelude.{
  ℕ, ◌≤◌, ◌<◌, String, eq_iff, ◌≡◌, ◌≢◌, ◌⊎◌, inl, inr, refl, Bool, true, false, ◌||◌, Bool-cases,
  Option-cases, none, some, List, [], ◌∷◌, arith, leb, ◌==◌, All,
}
use gateway.Engine.{EngineCache, Adapter}
use gateway.Routing.{
  RouteIndex, Routing, Answer, route_ok, route_model_not_found, insert_sorted, sort, first_adapter,
  is_stale, rebuild_route_index, current_route_index, miss, or_no_engines, default_engine,
  route_rebuilt, route_named, select_engine, build_route_index,
}

-- Whether a list holds a number.
abbrev pub holds : ℕ → List ℕ → Bool
holds x [] = false
holds x (y ∷ ys) = (y == x) || holds x ys

-- An engine of a list serves, and no lower engine of the list can.
pub record Lowest (c : EngineCache) (ids : List ℕ) (a : Adapter) : Type 0 where
  pub id : ℕ
  pub is_listed : holds id ids ≡ true
  pub serves : c.adapters id ≡ some a
  pub lower : All (λ j. j < id → c.adapters j ≡ none) ids

holds-insert_sorted :
    (x y : ℕ) (ys : List ℕ) → holds x (insert_sorted y ys) ≡ ((y == x) || holds x ys)
unfolding insert_sorted
holds-insert_sorted x y [] = refl
holds-insert_sorted x y (z ∷ zs) = ground (arith, holds-insert_sorted x y zs)

holds-sort : (x : ℕ) (ys : List ℕ) → holds x (sort ys) ≡ holds x ys
unfolding sort
holds-sort x [] = refl
holds-sort x (y ∷ ys) = ground (arith, holds-insert_sorted x y (sort ys), holds-sort x ys)

-- The list rises.
abbrev Rising : List ℕ → Type 0
Rising [] = Unit {0}
Rising (x ∷ xs) = All (λ y. x ≤ y) xs × Rising xs

All-le : (x y : ℕ) (ys : List ℕ) → x ≤ y → All (λ z. y ≤ z) ys → All (λ z. x ≤ z) ys
All-le x y [] h a = tt
All-le x y (z ∷ zs) h a = (omega arith, All-le x y zs h a.1)

insert_sorted-All :
    (x y : ℕ) (ys : List ℕ) → x ≤ y → All (λ z. x ≤ z) ys → All (λ z. x ≤ z) (insert_sorted y ys)
unfolding insert_sorted
insert_sorted-All x y [] h a = (h, tt)
insert_sorted-All x y (z ∷ zs) h a = ground (arith, insert_sorted-All x y zs h a.1)

insert_sorted-Rising : (x : ℕ) (ys : List ℕ) → Rising ys → Rising (insert_sorted x ys)
unfolding insert_sorted
insert_sorted-Rising x [] r = (tt, tt)
insert_sorted-Rising x (y ∷ ys) r = elim (Bool-cases (leb x y)) [
  | inl le ↦ rw le ((ground arith, All-le x y ys (ground arith) r.0), r)
  | inr gt ↦ rw gt (insert_sorted-All y x ys (ground arith) r.0, insert_sorted-Rising x ys r.1)
]

sort-Rising : (ys : List ℕ) → Rising (sort ys)
unfolding sort
sort-Rising [] = tt
sort-Rising (y ∷ ys) = insert_sorted-Rising y (sort ys) (sort-Rising ys)

-- Nothing below the head of a rising list.
none_below :
    (c : EngineCache) (x : ℕ) (ys : List ℕ)
    → All (λ y. x ≤ y) ys
    → All (λ j. j < x → c.adapters j ≡ none) ys
none_below c x [] a = tt
none_below c x (y ∷ ys) a = (λ lt. absurd (omega arith), none_below c x ys a.1)

first_adapter-Lowest :
    (c : EngineCache) (ids : List ℕ) (a : Adapter)
    → Rising ids
    → first_adapter c ids ≡ some a
    → Lowest c ids a
unfolding first_adapter
first_adapter-Lowest c [] a r e = cc
first_adapter-Lowest c (x ∷ xs) a r e = elim (Option-cases (c.adapters x)) [
  | inl off ↦
      let rest = first_adapter-Lowest c xs a r.1 (ground arith) in
      record {
        id = rest.id;
        is_listed = ground (arith, rest.is_listed);
        serves = rest.serves;
        lower = (λ _. off, rest.lower);
      }
  | inr (b, on) ↦ record {
    id = x;
    is_listed = ground arith;
    serves = ground arith;
    lower = (λ lt. absurd (omega arith), none_below c x xs r.0);
  }
]

first_adapter-none :
    (c : EngineCache) (ids : List ℕ)
    → first_adapter c ids ≡ none
    → All (λ j. c.adapters j ≡ none) ids
unfolding first_adapter
first_adapter-none c [] e = tt
first_adapter-none c (x ∷ xs) e = elim (Option-cases (c.adapters x)) [
  | inl off ↦ (off, first_adapter-none c xs (ground arith))
  | inr (b, on) ↦ ground arith
]

-- The index is sorted, as every build leaves it.
abbrev pub IsSorted : RouteIndex → Type 0
IsSorted idx = (name : String) → Rising (idx.by_model name)

pub build-IsSorted : (now : ℕ) (arrivals : List Answer) → IsSorted (build_route_index now arrivals)
unfolding build_route_index
build-IsSorted now arrivals name = sort-Rising _

-- The index that an answer rests on: the published one, or the one built for this request.
abbrev pub Used : Routing → RouteIndex → RouteIndex → Type 0
Used r built idx = (r.index ≡ some idx) ⊎ (idx ≡ built)

-- Why an engine was chosen for a named model.
abbrev pub Chosen : EngineCache → String → RouteIndex → Adapter → Type 0
Chosen c model idx a =
    Lowest c (idx.by_model model) a ⊎ ((idx.probed ≡ false) × (default_engine c ≡ some a))

-- Why a named model was not found: an index that is not stale, of which some engine's probe is part,
-- lists no engine for it that has an adapter.
pub record Absent (c : EngineCache) (model : String) (now : ℕ) (r : Routing)
    (built idx : RouteIndex) : Type 0 where
  pub fresh : ((r.index ≡ some idx) × (is_stale idx now ≡ false)) ⊎ (idx ≡ built)
  pub answered : idx.probed ≡ true
  pub nowhere : All (λ j. c.adapters j ≡ none) (idx.by_model model)

miss-not_found :
    (c : EngineCache) (idx : RouteIndex) → miss c idx ≡ route_model_not_found → idx.probed ≡ true
unfolding miss or_no_engines
miss-not_found c idx h = ground arith

miss-ok :
    (c : EngineCache) (idx : RouteIndex) (a : Adapter)
    → miss c idx ≡ route_ok a
    → (idx.probed ≡ false) × (default_engine c ≡ some a)
unfolding miss or_no_engines
miss-ok c idx a h = ground arith

rebuilt-Absent :
    (c : EngineCache) (model : String) (now : ℕ) (r r' : Routing) (built : RouteIndex)
    → (route_rebuilt c model built r').1 ≡ route_model_not_found
    → Absent c model now r built built
unfolding route_rebuilt rebuild_route_index
rebuilt-Absent c model now r r' built h =
    elim (Option-cases (first_adapter c (built.by_model model))) [
      | inl gone ↦ record {
        fresh = inr refl;
        answered = miss-not_found c built (rw (gone, route_rebuilt) at h);
        nowhere = first_adapter-none c (built.by_model model) gone;
      }
      | inr (a, there) ↦ ground arith
    ]

current-Used :
    (now : ℕ) (built : RouteIndex) (r : Routing) → Used r built (current_route_index now built r).1
unfolding current_route_index rebuild_route_index
current-Used now built r = elim (Option-cases r.index) [
  | inl nothing ↦ rw (nothing, current_route_index) (inr refl)
  | inr (idx, published) ↦ rw (published, current_route_index) (inl refl)
]

fresh_of_Used :
    (r : Routing) {built idx : RouteIndex} (now : ℕ)
    → Used r built idx
    → is_stale idx now ≡ false
    → ((r.index ≡ some idx) × (is_stale idx now ≡ false)) ⊎ (idx ≡ built)
fresh_of_Used r now (inl p) h = inl (p, h)
fresh_of_Used r now (inr q) h = inr q

route_named-Absent :
    (c : EngineCache) (model : String) (now : ℕ) (built : RouteIndex) (r : Routing)
    → (route_named c model now built r).1 ≡ route_model_not_found
    → (idx : RouteIndex) × Absent c model now r built idx
unfolding route_named
route_named-Absent c model now built r h =
    let (r', idx) = current_route_index now built r in
    elim (Option-cases (first_adapter c (idx.by_model model))) [
      | inr (a, there) ↦ ground arith
      | inl gone ↦ elim (Bool-cases (is_stale idx now)) [
        | inl stale ↦ (built, rebuilt-Absent c model now r r' built (ground arith))
        | inr valid ↦ (
          idx,
          record {
            fresh = fresh_of_Used r now (current-Used now built r) valid;
            answered = miss-not_found c idx (ground arith);
            nowhere = first_adapter-none c (idx.by_model model) gone;
          },
        )
      ]
    ]

rebuilt-Chosen :
    (c : EngineCache) (model : String) (r' : Routing) (built : RouteIndex) (a : Adapter)
    → IsSorted built
    → (route_rebuilt c model built r').1 ≡ route_ok a
    → Chosen c model built a
unfolding route_rebuilt rebuild_route_index
rebuilt-Chosen c model r' built a sorted h =
    elim (Option-cases (first_adapter c (built.by_model model))) [
      | inl gone ↦ inr (miss-ok c built a (ground arith))
      | inr (b, there) ↦
          inl (first_adapter-Lowest c (built.by_model model) a (sorted model) (ground arith))
    ]

Used-IsSorted :
    (r : Routing) {built idx : RouteIndex}
    → ((i : RouteIndex) → r.index ≡ some i → IsSorted i)
    → IsSorted built
    → Used r built idx
    → IsSorted idx
Used-IsSorted r old new (inl p) = old _ p
Used-IsSorted r old new (inr q) = rw q new

route_named-Chosen :
    (c : EngineCache) (model : String) (now : ℕ) (built : RouteIndex) (r : Routing) (a : Adapter)
    → ((i : RouteIndex) → r.index ≡ some i → IsSorted i)
    → IsSorted built
    → (route_named c model now built r).1 ≡ route_ok a
    → (idx : RouteIndex) × Used r built idx × Chosen c model idx a
unfolding route_named
route_named-Chosen c model now built r a old new h =
    let (r', idx) = current_route_index now built r in
    let used = current-Used now built r in
    elim (Option-cases (first_adapter c (idx.by_model model))) [
      | inr (b, there) ↦ (
        idx,
        used,
        inl (
            first_adapter-Lowest c (idx.by_model model) a (Used-IsSorted r old new used model)
              (ground arith)),
      )
      | inl gone ↦ elim (Bool-cases (is_stale idx now)) [
        | inl stale ↦ (built, inr refl, rebuilt-Chosen c model r' built a new (ground arith))
        | inr valid ↦ (idx, used, inr (miss-ok c idx a (ground arith)))
      ]
    ]

-- "Model not found" is answered only for a named model, and only on the evidence of an index that is
-- not stale: the published one within its lifetime, or one built for this very request.
pub select-not_found :
    (c : EngineCache) (model : String) (now : ℕ) (built : RouteIndex) (r : Routing)
    → (select_engine c model now built r).1 ≡ route_model_not_found
    → (model ≢ "") × ((idx : RouteIndex) × Absent c model now r built idx)
unfolding select_engine or_no_engines
select-not_found c model now built r h =
    (ground (arith, eq_iff model ""), route_named-Absent c model now built r (ground arith))

-- A named model goes to the lowest engine that the index lists for it and that has an adapter. Only
-- an index without any answered probe sends it to the default engine instead.
pub select-Chosen :
    (c : EngineCache) (model : String) (now : ℕ) (built : RouteIndex) (r : Routing) (a : Adapter)
    → model ≢ ""
    → ((i : RouteIndex) → r.index ≡ some i → IsSorted i)
    → IsSorted built
    → (select_engine c model now built r).1 ≡ route_ok a
    → (idx : RouteIndex) × Used r built idx × Chosen c model idx a
unfolding select_engine
select-Chosen c model now built r a named old new h =
    route_named-Chosen c model now built r a old new (ground (arith, eq_iff model ""))
