-- ===== src/RateLimit.antt =====
-- The per-user rate limiter (ratelimit.go). The token bucket is golang.org/x/time/rate and a
-- parameter. A registry entry holds a pointer to its bucket, so the buckets live on a heap: Allow
-- runs outside the registry's lock, on a bucket that may have left the map meanwhile.
pub mod Buckets
pub mod Bursts
use gateway.Prelude.{
  ℕ, suc, ◌+◌, ◌-◌, ◌*◌, Bool, true, false, not, ◌||◌, Option, none, some, List, [], ◌∷◌, ltb, ◌==◌,
  if◌then◌else◌, Map, empty_map, insert, delete, nat_key,
}

-- rate.NewLimiter(limit / 60 per second, burst limit) made at a time, and Allow at a time.
pub record Rate : Type 1 where
  pub Limiter : Type 0
  pub new_limiter : ℕ → ℕ → Limiter
  pub allow : Limiter → ℕ → Limiter × Bool

abbrev pub idle_evict_after : ℕ
idle_evict_after = 30 * 60 * 1_000_000_000

-- `limiter` is the address of the bucket.
pub record UserLimiter : Type 0 where
  pub limiter : ℕ
  pub limit : ℕ
  pub last_use : ℕ

module _ (rate : Rate) where
  open rate use {Limiter, new_limiter, allow}

  -- rlReg, with the heap of all buckets made so far and the next free address.
  pub record Registry : Type 0 where
    pub m : Map ℕ UserLimiter
    pub heap : Map ℕ Limiter
    pub next : ℕ

  -- A new bucket, and the user's entry for it.
  unfoldable pub create : Registry → ℕ → ℕ → ℕ → Registry × ℕ
  create r user_id limit now = (
    record {
      m = insert user_id (record { limiter = r.next; limit = limit; last_use = now }) r.m;
      heap = insert r.next (new_limiter limit now) r.heap;
      next = r.next + 1;
    },
    r.next,
  )

  -- The part of isAllowed under the lock: the registry that is left, and the entry's bucket.
  unfoldable pub admit : Registry → ℕ → ℕ → ℕ → Registry × ℕ
  admit r user_id limit now = elim (r.m user_id) [
    | none ↦ create r user_id limit now
    | some entry ↦
        if entry.limit == limit
        then (record r { m = insert user_id (record entry { last_use = now }) r.m }, entry.limiter)
        else create r user_id limit now
  ]

  -- entry.limiter.Allow(), on the heap.
  unfoldable pub allow_at : Registry → ℕ → ℕ → Registry × Bool
  allow_at r address now = elim (r.heap address) [
    | none ↦ (r, false)
    | some l ↦ let (l', ok) = allow l now in (record r { heap = insert address l' r.heap }, ok)
  ]

  -- isAllowed. `limit <= 0` on ints is 0 here. The two clock readings differ.
  unfoldable pub is_allowed : Registry → ℕ → ℕ → ℕ → ℕ → Registry × Bool
  is_allowed r user_id limit now later =
      if limit == 0
      then (r, false)
      else let (r', address) = admit r user_id limit now in allow_at r' address later

  unfoldable pub drop_user_limiter : Registry → ℕ → Registry
  drop_user_limiter r user_id = record r { m = delete user_id r.m }

  unfoldable pub reset_all_limiters : Registry → Registry
  reset_all_limiters r = record r { m = empty_map }

  -- The entries that `e.lastUse.Before(cutoff)` leaves.
  unfoldable pub unless_idle : ℕ → Option UserLimiter → Option UserLimiter
  unless_idle cutoff none = none
  unless_idle cutoff (some e) = if ltb e.last_use cutoff then none else some e

  unfoldable pub sweep_idle_limiters : Registry → ℕ → Registry
  unfolding unless_idle
  sweep_idle_limiters r now = record r { m = λ id. unless_idle (now - idle_evict_after) (r.m id) }
