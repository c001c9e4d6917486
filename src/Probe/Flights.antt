-- ===== src/Probe/Flights.antt =====
-- Concurrent callers share one refresh, and no result from before an invalidation is kept.
use gateway.Prelude.{
  ℕ, ◌+◌, ◌≤◌, ◌<◌, ◌≡◌, ◌≢◌, sym, subst, Option, none, some, arith, Map, insert, delete, nat_key,
  ==_iff,
}
use gateway.Probe.{
  ProbeData, ProbeEntry, ProbeCache, waits, refreshes, own_refresh, enter, finish_refresh,
  abort_refresh, invalidate_probe_cache,
}

-- The channel of the refresh that an engine's entry announces.
abbrev pub announced : Option ProbeEntry → Option ℕ
announced none = none
announced (some e) = e.inflight

-- The cache and the refreshes that are running: by channel, the engine and the generation.
pub record World : Type 0 where
  pub cache : ProbeCache
  pub running : Map ℕ (ℕ × ℕ)

-- A caller goes through the loop once; a refresh ends or panics; the engines change.
pub data Step (w : World) : World → Type 0 where
  calls_idle :
      (id now : ℕ)
      → ((d g : ℕ) → (enter id now w.cache).1 ≢ refreshes d g)
      → Step w (record w { cache = (enter id now w.cache).0 })
  calls_owner :
      (id now d g : ℕ)
      → (enter id now w.cache).1 ≡ refreshes d g
      → Step w (record { cache = (enter id now w.cache).0; running = insert d (id, g) w.running })
  ends :
      (d id gen now : ℕ) (pd : ProbeData)
      → w.running d ≡ some (id, gen)
      → Step w
          (record { cache = finish_refresh id gen now pd w.cache; running = delete d w.running })
  panics :
      (d id gen : ℕ)
      → w.running d ≡ some (id, gen)
      → Step w (record { cache = abort_refresh id gen w.cache; running = delete d w.running })
  invalidates : Step w (record w { cache = invalidate_probe_cache w.cache })

pub data Reach (s : World) : World → Type 0 where
  here : Reach s s
  next : {t u : World} → Reach s t → Step t u → Reach s u

-- The announced refreshes are exactly the running ones of the current generation.
pub record IsSound (w : World) : Type 0 where
  pub runs :
      (id d : ℕ) → announced (w.cache.entries id) ≡ some d → w.running d ≡ some (id, w.cache.gen)
  pub announces :
      (id d : ℕ) → w.running d ≡ some (id, w.cache.gen) → announced (w.cache.entries id) ≡ some d
  pub old : (id d g : ℕ) → w.running d ≡ some (id, g) → g ≤ w.cache.gen
  pub below : (id d g : ℕ) → w.running d ≡ some (id, g) → d < w.cache.next

enter_idle_cache :
    (id now : ℕ) (c : ProbeCache)
    → ((d g : ℕ) → (enter id now c).1 ≢ refreshes d g)
    → (enter id now c).0 ≡ c
unfolding enter own_refresh
enter_idle_cache id now c h = ground (arith, h c.next c.gen)

enter_owner :
    (id now d g : ℕ) (c : ProbeCache)
    → (enter id now c).1 ≡ refreshes d g
    → (announced (c.entries id) ≡ none)
      × ((enter id now c).0 ≡ (own_refresh id c).0)
      × (c.next ≡ d)
      × (c.gen ≡ g)
unfolding enter own_refresh
enter_owner id now d g c h = ground arith

owner-IsSound :
    (w : World) (id : ℕ)
    → announced (w.cache.entries id) ≡ none
    → IsSound w
    → IsSound (record {
      cache = (own_refresh id w.cache).0;
      running = insert w.cache.next (id, w.cache.gen) w.running;
    })
unfolding own_refresh insert
owner-IsSound w id idle v = record {
  runs = λ j d h. ground (arith, v.runs j d, v.below j d w.cache.gen, ==_iff id j);
  announces = λ j d h. ground (arith, v.announces j d, ==_iff id j);
  old = λ j d g h. ground (arith, v.old j d g);
  below = λ j d g h. ground (arith, v.below j d g);
}

ends-IsSound :
    (w : World) (d id gen now : ℕ) (pd : ProbeData)
    → w.running d ≡ some (id, gen)
    → IsSound w
    → IsSound
        (record { cache = finish_refresh id gen now pd w.cache; running = delete d w.running })
unfolding finish_refresh insert delete
ends-IsSound w d id gen now pd run v = record {
  runs = λ j e h. ground (arith, v.runs j e, v.announces id d, v.runs j d, ==_iff id j, ==_iff d e);
  announces = λ j e h. ground (arith, v.announces j e, v.announces id d, ==_iff id j, ==_iff d e);
  old = λ j e g h. ground (arith, v.old j e g);
  below = λ j e g h. ground (arith, v.below j e g);
}

panics-IsSound :
    (w : World) (d id gen : ℕ)
    → w.running d ≡ some (id, gen)
    → IsSound w
    → IsSound (record { cache = abort_refresh id gen w.cache; running = delete d w.running })
unfolding abort_refresh delete
panics-IsSound w d id gen run v = record {
  runs = λ j e h. ground (arith, v.runs j e, v.announces id d, v.runs j d, ==_iff id j, ==_iff d e);
  announces = λ j e h. ground (arith, v.announces j e, v.announces id d, ==_iff id j, ==_iff d e);
  old = λ j e g h. ground (arith, v.old j e g);
  below = λ j e g h. ground (arith, v.below j e g);
}

invalidates-IsSound :
    (w : World) → IsSound w → IsSound (record w { cache = invalidate_probe_cache w.cache })
unfolding invalidate_probe_cache
invalidates-IsSound w v = record {
  runs = λ j e h. ground arith;
  announces = λ j e h. ground (arith, v.old j e (w.cache.gen + 1));
  old = λ j e g h. ground (arith, v.old j e g);
  below = v.below;
}

Step-IsSound : {w x : World} → Step w x → IsSound w → IsSound x
Step-IsSound {w} (calls_idle id now idle) v =
    subst (λ c. IsSound (record w { cache = c })) (sym (enter_idle_cache id now w.cache idle)) v
Step-IsSound {w} (calls_owner id now d g owns) v =
    let (idle, same, at, under) = enter_owner id now d g w.cache owns in
    rw (same, ← at, ← under) (owner-IsSound w id idle v)
Step-IsSound {w} (ends d id gen now pd run) v = ends-IsSound w d id gen now pd run v
Step-IsSound {w} (panics d id gen run) v = panics-IsSound w d id gen run v
Step-IsSound {w} invalidates v = invalidates-IsSound w v

pub Reach-IsSound : {s t : World} → IsSound s → Reach s t → IsSound t
Reach-IsSound v here = v
Reach-IsSound v (next r st) = Step-IsSound st (Reach-IsSound v r)

waiting :
    (id now d : ℕ) (c : ProbeCache)
    → (enter id now c).1 ≡ waits d
    → announced (c.entries id) ≡ some d
unfolding enter own_refresh
waiting id now d c h = ground arith

-- However callers, refreshes, panics and invalidations interleave, an engine has at most one running
-- refresh of the current generation.
pub single_flight :
    {s t : World} (id d e : ℕ)
    → IsSound s
    → Reach s t
    → t.running d ≡ some (id, t.cache.gen)
    → t.running e ≡ some (id, t.cache.gen)
    → d ≡ e
single_flight {s} {t} id d e v r p q =
    let w = Reach-IsSound v r in cc (w.announces id d p, w.announces id e q)

-- However callers, refreshes, panics and invalidations interleave, a caller that is told to wait waits
-- on a refresh of the current generation that is still running.
pub waits-running :
    {s t : World} (id now d : ℕ)
    → IsSound s
    → Reach s t
    → (enter id now t.cache).1 ≡ waits d
    → t.running d ≡ some (id, t.cache.gen)
waits-running {s} {t} id now d v r h = (Reach-IsSound v r).runs id d (waiting id now d t.cache h)
