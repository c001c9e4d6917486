-- ===== src/Api/Models.antt =====
-- The catalogue of models (api_handlers.go: handleListModels), over the probe cache's snapshots.
use gateway.Prelude.{
  ℕ, ◌+◌, String, str_eq, Bool, false, ◌||◌, Option, none, some, List, [], ◌∷◌, ◌++◌, ◌==◌,
  if◌then◌else◌,
}
use gateway.Engine.{EngineConfig}
use gateway.Probe.{RawModel, ProbeData, model_name}
use gateway.Users.{User}

-- Model; the fields that are left out are constants, or repeat `id` and `created`.
pub record Model : Type 0 where
  pub id : String
  pub created : ℕ
  pub owned_by : String
  pub size : ℕ

-- cachedProbeSnapshot: the data by engine ID.
abbrev pub Snapshot : Type 0
Snapshot = List (ℕ × ProbeData)

unfoldable pub lookup : ℕ → Snapshot → Option ProbeData
lookup id [] = none
lookup id ((j, pd) ∷ rest) = if j == id then some pd else lookup id rest

-- A model of an engine that is up, with the engine's type.
pub record Candidate : Type 0 where
  pub owner : String
  pub raw : RawModel

unfoldable pub owned : String → List RawModel → List Candidate
owned t [] = []
owned t (m ∷ ms) = record { owner = t; raw = m } ∷ owned t ms

-- What the two loops visit: `!ok || !pd.status` skips an engine.
unfoldable pub candidates : List EngineConfig → Snapshot → List Candidate
unfolding lookup owned
candidates [] snap = []
candidates (e ∷ es) snap = elim (lookup e.id snap) [
  | none ↦ candidates es snap
  | some pd ↦ if pd.status then owned e.type pd.raw ++ candidates es snap else candidates es snap
]

-- The count of the engines that are up.
unfoldable pub reachable : List EngineConfig → Snapshot → ℕ
unfolding lookup
reachable [] snap = 0
reachable (e ∷ es) snap = elim (lookup e.id snap) [
  | none ↦ reachable es snap
  | some pd ↦ if pd.status then reachable es snap + 1 else reachable es snap
]

-- `created_of` is "created", or the time that "modified_at" parses to; `size_of` is toInt of "size".
pub record Numbers : Type 0 where
  pub created_of : RawModel → ℕ
  pub size_of : RawModel → ℕ

-- seen[name] = true
unfoldable pub see : String → (String → Bool) → String → Bool
see name seen x = str_eq name x || seen x

-- What a catalogue is answered with; `last` of the empty list does not occur.
pub data Reply : Type 0 where
  error : ℕ → Reply
  catalogue : List Model → Option String → Option String → Reply

unfoldable pub first_id : List Model → Option String
first_id [] = none
first_id (m ∷ ms) = some m.id

unfoldable pub last_id : List Model → Option String
last_id [] = none
last_id (m ∷ ms) = elim (last_id ms) [ none ↦ some m.id | some id ↦ some id ]

module _ (numbers : Numbers) where
  unfoldable pub model_of : Candidate → Model
  model_of c = record {
    id = model_name c.raw;
    created = numbers.created_of c.raw;
    owned_by = c.owner;
    size = numbers.size_of c.raw;
  }

  unfoldable pub collect : List Candidate → (String → Bool) → List Model
  unfolding model_of see
  collect [] seen = []
  collect (c ∷ cs) seen =
      let fresh = collect cs (see (model_name c.raw) seen) in
      let same = collect cs seen in
      if str_eq (model_name c.raw) "" || seen (model_name c.raw) then same else model_of c ∷ fresh

  unfoldable pub list_of : List EngineConfig → Snapshot → Reply
  unfolding collect candidates reachable first_id last_id
  list_of engines snap =
      let models = collect (candidates engines snap) (λ x. false) in
      if reachable engines snap == 0
      then error 502
      else catalogue models (first_id models) (last_id models)

  -- `warmed` is the snapshot after warmProbeCache, which an empty one waits for.
  unfoldable pub handle_list_models : Option User → List EngineConfig → Snapshot → Snapshot → Reply
  unfolding list_of
  handle_list_models none engines snap warmed = error 401
  handle_list_models (some u) [] snap warmed = error 502
  handle_list_models (some u) (e ∷ es) [] warmed = list_of (e ∷ es) warmed
  handle_list_models (some u) (e ∷ es) (p ∷ ps) warmed = list_of (e ∷ es) (p ∷ ps)
