-- ===== src/Probe/Peeks.antt =====
-- The pages that read the probe cache agree with each other.
use gateway.Prelude.{ℕ, ◌≡◌, refl, Bool, true, false, List, [], ◌∷◌, if◌then◌else◌, arith, nat_key}
use gateway.Engine.{EngineConfig}
use gateway.Probe.{
  ProbeData, ProbeCache, EngineState, online, offline, unknown, peek_probe_data, peek_probe_state,
  snapshot_of, nav_engines,
}

abbrev pub shown : Bool → ProbeData → EngineState
shown false pd = unknown
shown true pd = if pd.status then online else offline

-- The state shown for an engine is that of the data which a page would show, "unknown" exactly where
-- there is none, and both ask for a refresh in the same cases.
pub peeks_agree :
    (id now : ℕ) (c : ProbeCache)
    → let (pd, found, needs_refresh) = peek_probe_data id now c in
      peek_probe_state id now c ≡ (shown found pd, needs_refresh)
unfolding peek_probe_data peek_probe_state
peeks_agree id now c = ground arith

-- The sidebar and the snapshot ask for a warm-up in the same cases.
pub snapshot-nav :
    (es : List EngineConfig) (now : ℕ) (c : ProbeCache)
    → (snapshot_of es now c).1 ≡ (nav_engines es now c).1
unfolding snapshot_of nav_engines
snapshot-nav [] now c = refl
snapshot-nav (e ∷ es) now c = ground (arith, snapshot-nav es now c, peeks_agree e.id now c)
