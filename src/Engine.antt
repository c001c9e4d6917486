-- ===== src/Engine.antt =====
-- The engine list and its cache of adapters (engine.go: engineCache, newEngine, newConcurrencyLimiter
-- and the cached… readers). An adapter is its kind, its config and the size of its limiter.
use gateway.Prelude.{
  ℕ, String, str_eq, Option, none, some, List, [], ◌∷◌, ◌==◌, if◌then◌else◌, Map, empty_map, insert,
  nat_key,
}

abbrev pub engine_ollama : String
engine_ollama = "ollama"

abbrev pub engine_openai_compat : String
engine_openai_compat = "openai_compat"

pub record EngineConfig : Type 0 where
  pub id : ℕ
  pub name : String
  pub type : String
  pub base_url : String
  pub port : ℕ
  pub api_key : String

pub data Adapter : Type 0 where
  ollama_adapter : EngineConfig → ℕ → Adapter
  openai_compat_adapter : EngineConfig → ℕ → Adapter

unfoldable pub config_of : Adapter → EngineConfig
config_of (ollama_adapter cf slots) = cf
config_of (openai_compat_adapter cf slots) = cf

-- The methods Type and Name.
unfoldable pub type_of : Adapter → String
type_of (ollama_adapter cf slots) = engine_ollama
type_of (openai_compat_adapter cf slots) = engine_openai_compat

unfoldable pub name_of : Adapter → String
name_of (ollama_adapter cf slots) = cf.name
name_of (openai_compat_adapter cf slots) = cf.name

-- newConcurrencyLimiter: `n <= 0` gives 8.
unfoldable pub limiter_size : ℕ → ℕ
limiter_size n = if n == 0 then 8 else n

-- newEngine under cfg.UpstreamConcurrency; `none` is its error.
unfoldable pub new_engine : ℕ → EngineConfig → Option Adapter
new_engine concurrency cf =
    if str_eq cf.type engine_ollama
    then some (ollama_adapter cf (limiter_size concurrency))
    else if str_eq cf.type engine_openai_compat
    then some (openai_compat_adapter cf (limiter_size concurrency))
    else none

pub record EngineCache : Type 0 where
  pub engines : List EngineConfig
  pub adapters : Map ℕ Adapter

-- One step of the loop in reloadEngineCache.
unfoldable pub add_adapter : ℕ → EngineConfig → Map ℕ Adapter → Map ℕ Adapter
add_adapter concurrency e m = elim (new_engine concurrency e) [
  | none ↦ m
  | some a ↦ insert e.id a m
]

unfoldable pub adapters_of : ℕ → List EngineConfig → Map ℕ Adapter → Map ℕ Adapter
adapters_of concurrency [] m = m
adapters_of concurrency (e ∷ es) m = adapters_of concurrency es (add_adapter concurrency e m)

-- reloadEngineCache; `none` is a failed read of the settings.
unfoldable pub reload_engine_cache : ℕ → Option (List EngineConfig) → EngineCache
reload_engine_cache concurrency none = record { engines = []; adapters = empty_map }
reload_engine_cache concurrency (some engines) = record {
  engines = engines;
  adapters = adapters_of concurrency engines empty_map;
}

unfoldable pub cached_adapter : EngineCache → ℕ → Option Adapter
cached_adapter c id = c.adapters id

unfoldable pub with_adapter : Option Adapter → List Adapter → List Adapter
with_adapter none rest = rest
with_adapter (some a) rest = a ∷ rest

unfoldable pub adapters_by_type : EngineCache → String → List EngineConfig → List Adapter
adapters_by_type c t [] = []
adapters_by_type c t (e ∷ es) =
    if str_eq e.type t
    then with_adapter (c.adapters e.id) (adapters_by_type c t es)
    else adapters_by_type c t es

unfoldable pub cached_adapters_by_type : EngineCache → String → List Adapter
unfolding adapters_by_type
cached_adapters_by_type c t = adapters_by_type c t c.engines
