-- ===== src/Probe.antt =====
-- The probe cache (engine.go: probeEngineCached, refreshProbe, invalidateProbeCache, the peeks and the
-- snapshot). Each section under probeCacheMu is one step; a channel is a number, closed when its
-- refresh has ended. Times are nanoseconds with 0 for the zero time.
pub mod Peeks
pub mod Flights
use gateway.Prelude.{
  ℕ, ◌+◌, ◌*◌, String, str_eq, Bool, true, false, not, ◌&&◌, ◌||◌, Option, none, some, List, [],
  ◌∷◌, ltb, ◌==◌, if◌then◌else◌, Map, empty_map, insert, delete, nat_key,
}
use gateway.Engine.{EngineConfig, EngineCache}

abbrev pub probe_cache_ttl : ℕ
probe_cache_ttl = 10 * 1_000_000_000

-- The strings that the gateway reads of a listed model; "" where the key is absent or no string.
pub record RawModel : Type 0 where
  pub name : String
  pub id : String

pub record ProbeData : Type 0 where
  pub status : Bool
  pub models : List String
  pub raw : List RawModel

-- probeData{}
abbrev pub no_data : ProbeData
no_data = record { status = false; models = []; raw = [] }

unfoldable pub model_name : RawModel → String
model_name m = if str_eq m.name "" then m.id else m.name

unfoldable pub names_of : List RawModel → List String
names_of [] = []
names_of (m ∷ ms) = if str_eq (model_name m) "" then names_of ms else model_name m ∷ names_of ms

-- probeEngineFull on the answers of Status and ListModels; `none` is an error. Sizes for display are
-- left out.
unfoldable pub probe_engine_full : Option Bool → Option (List RawModel) → ProbeData
probe_engine_full none listed = no_data
probe_engine_full (some false) listed = no_data
probe_engine_full (some true) none = record { status = true; models = []; raw = [] }
probe_engine_full (some true) (some ms) = record { status = true; models = names_of ms; raw = ms }

pub record ProbeEntry : Type 0 where
  pub data_of : ProbeData
  pub expiry : ℕ
  pub inflight : Option ℕ

-- probeCache and probeGen, and the next channel.
pub record ProbeCache : Type 0 where
  pub entries : Map ℕ ProbeEntry
  pub gen : ℕ
  pub next : ℕ

-- What a caller of probeEngineCached does next: wait, return, or refresh under a generation.
pub data Turn : Type 0 where
  waits : ℕ → Turn
  returns : ProbeData → Turn
  refreshes : ℕ → ℕ → Turn

unfoldable pub stale_values : Option ProbeEntry → ProbeEntry
stale_values none = record { data_of = no_data; expiry = 0; inflight = none }
stale_values (some e) = e

-- The caller becomes the owner of the refresh.
unfoldable pub own_refresh : ℕ → ProbeCache → ProbeCache × Turn
unfolding stale_values
own_refresh id c = (
  record c {
    entries = insert id (record (stale_values (c.entries id)) { inflight = some c.next }) c.entries;
    next = c.next + 1;
  },
  refreshes c.next c.gen,
)

unfoldable pub enter_idle : ℕ → ℕ → ProbeEntry → ProbeCache → ProbeCache × Turn
enter_idle id now e c = if ltb now e.expiry then (c, returns e.data_of) else own_refresh id c

unfoldable pub enter_entry : ℕ → ℕ → ProbeEntry → Option ℕ → ProbeCache → ProbeCache × Turn
enter_entry id now e none c = enter_idle id now e c
enter_entry id now e (some d) c = (c, waits d)

-- One round of the loop in probeEngineCached.
unfoldable pub enter : ℕ → ℕ → ProbeCache → ProbeCache × Turn
unfolding own_refresh enter_entry enter_idle
enter id now c = elim (c.entries id) [
  | none ↦ own_refresh id c
  | some e ↦ enter_entry id now e e.inflight c
]

-- The end of refreshProbe: the result is stored unless the cache was invalidated meanwhile.
unfoldable pub finish_refresh : ℕ → ℕ → ℕ → ProbeData → ProbeCache → ProbeCache
finish_refresh id gen now pd c =
    if c.gen == gen
    then record c {
      entries =
          insert id (record { data_of = pd; expiry = now + probe_cache_ttl; inflight = none })
            c.entries;
    }
    else c

-- Its deferred function when the probe panics.
unfoldable pub abort_refresh : ℕ → ℕ → ProbeCache → ProbeCache
abort_refresh id gen c = if c.gen == gen then record c { entries = delete id c.entries } else c

unfoldable pub invalidate_probe_cache : ProbeCache → ProbeCache
invalidate_probe_cache c = record c { entries = empty_map; gen = c.gen + 1 }

unfoldable pub is_none : Option ℕ → Bool
is_none none = true
is_none (some d) = false

-- peekProbeData: the data, whether there is any, and whether a refresh is wanted.
unfoldable pub peek_probe_data : ℕ → ℕ → ProbeCache → ProbeData × Bool × Bool
unfolding is_none
peek_probe_data id now c = elim (c.entries id) [
  | none ↦ (no_data, false, true)
  | some e ↦
      if e.expiry == 0
      then (no_data, false, is_none e.inflight)
      else (e.data_of, true, is_none e.inflight && not (ltb now e.expiry))
]

pub data EngineState : Type 0 where
  online offline unknown : EngineState

unfoldable pub peek_probe_state : ℕ → ℕ → ProbeCache → EngineState × Bool
unfolding is_none
peek_probe_state id now c = elim (c.entries id) [
  | none ↦ (unknown, true)
  | some e ↦ if e.expiry == 0 then (unknown, is_none e.inflight) else (
    if e.data_of.status then online else offline,
    is_none e.inflight && not (ltb now e.expiry),
  )
]

-- cachedProbeSnapshot over the engine list.
unfoldable pub snapshot_of : List EngineConfig → ℕ → ProbeCache → Map ℕ ProbeData × Bool
snapshot_of [] now c = (empty_map, false)
snapshot_of (e ∷ es) now c =
    let (snap, stale) = snapshot_of es now c in
    let (pd, found, needs_refresh) = peek_probe_data e.id now c in
    (if found then insert e.id pd snap else snap, needs_refresh || stale)

-- navEngines: the sidebar's rows, and whether it starts a warm-up.
unfoldable pub nav_engines : List EngineConfig → ℕ → ProbeCache → List (String × EngineState) × Bool
nav_engines [] now c = ([], false)
nav_engines (e ∷ es) now c =
    let (rows, refresh) = nav_engines es now c in
    let (state, stale) = peek_probe_state e.id now c in ((e.name, state) ∷ rows, stale || refresh)
