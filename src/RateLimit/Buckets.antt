-- ===== src/RateLimit/Buckets.antt =====
-- Each user has a bucket of their own, and keeps it.
use gateway.Prelude.{
  ℕ, ◌<◌, ◌≡◌, ◌≢◌, Bool-cases, Option-cases, inl, inr, Option, none, some, ◌==◌, arith, insert,
  delete, nat_key, ==_iff,
}
use gateway.RateLimit.{
  Rate, UserLimiter, Registry, create, admit, allow_at, is_allowed, drop_user_limiter,
  sweep_idle_limiters,
}

module _ {rate : Rate} where
  -- Every entry points to a bucket that was made, and no two users share one.
  pub record IsSound (r : Registry rate) : Type 0 where
    pub made : (u : ℕ) (e : UserLimiter) → r.m u ≡ some e → e.limiter < r.next
    pub kept : (a : ℕ) → a < r.next → r.heap a ≢ none
    pub apart :
        (u v : ℕ) (e f : UserLimiter)
        → r.m u ≡ some e
        → r.m v ≡ some f
        → e.limiter ≡ f.limiter
        → u ≡ v

  create-IsSound :
      (r : Registry rate) (u limit now : ℕ) → IsSound r → IsSound (create rate r u limit now).0
  unfolding create insert
  create-IsSound r u limit now v = record {
    made = λ w e h. ground (arith, v.made w e);
    kept = λ a lt h. ground (arith, v.kept a);
    apart = λ w x e f h k same.
        ground (arith, v.apart w x e f, v.made w e, v.made x f, ==_iff u w, ==_iff u x);
  }

  touch-IsSound :
      (r : Registry rate) (u now : ℕ) (entry : UserLimiter)
      → r.m u ≡ some entry
      → IsSound r
      → IsSound (record r { m = insert u (record entry { last_use = now }) r.m })
  unfolding insert
  touch-IsSound r u now entry here v = record {
    made = λ w e h. ground (arith, v.made w e, v.made u entry here);
    kept = v.kept;
    apart = λ w x e f h k same.
        ground (
          arith,
          v.apart w x e f,
          v.apart u x entry f,
          v.apart w u e entry,
          ==_iff u w,
          ==_iff u x,
        );
  }

  pub admit-IsSound :
      (r : Registry rate) (u limit now : ℕ) → IsSound r → IsSound (admit rate r u limit now).0
  unfolding admit
  admit-IsSound r u limit now v = elim (Option-cases (r.m u)) [
    | inl new ↦ rw (new, admit) (create-IsSound r u limit now v)
    | inr (entry, here) ↦ elim (Bool-cases (entry.limit == limit)) [
      | inl same ↦ rw (here, admit) (rw same (touch-IsSound r u now entry here v))
      | inr changed ↦ rw (here, admit) (rw changed (create-IsSound r u limit now v))
    ]
  ]

  pub allow_at-IsSound :
      (r : Registry rate) (a now : ℕ) → IsSound r → IsSound (allow_at rate r a now).0
  unfolding allow_at insert
  allow_at-IsSound r a now v = record {
    made = λ w e h. ground (arith, v.made w e);
    kept = λ b lt h. ground (arith, v.kept b);
    apart = λ w x e f h k same. ground (arith, v.apart w x e f);
  }

  -- Every call on the registry keeps it sound: a request, an administrator's change of a user, the
  -- reset, and the sweep.
  pub is_allowed-IsSound :
      (r : Registry rate) (u limit now later : ℕ)
      → IsSound r
      → IsSound (is_allowed rate r u limit now later).0
  unfolding is_allowed
  is_allowed-IsSound r u limit now later v = elim (Bool-cases (limit == 0)) [
    | inl refused ↦ rw refused v
    | inr tried ↦ rw tried (
        allow_at-IsSound (admit rate r u limit now).0 (admit rate r u limit now).1 later
          (admit-IsSound r u limit now v))
  ]

  pub drop-IsSound : (r : Registry rate) (u : ℕ) → IsSound r → IsSound (drop_user_limiter rate r u)
  unfolding drop_user_limiter delete
  drop-IsSound r u v = record {
    made = λ w e h. ground (arith, v.made w e);
    kept = v.kept;
    apart = λ w x e f h k same. ground (arith, v.apart w x e f);
  }

  pub sweep-IsSound :
      (r : Registry rate) (now : ℕ) → IsSound r → IsSound (sweep_idle_limiters rate r now)
  unfolding sweep_idle_limiters
  sweep-IsSound r now v = record {
    made = λ w e h. ground (arith, v.made w e);
    kept = v.kept;
    apart = λ w x e f h k same. ground (arith, v.apart w x e f);
  }

  -- What a user's next request meets: the entry, and the state of its bucket.
  abbrev pub bucket : Registry rate → ℕ → Option (ℕ × Option rate.Limiter)
  bucket r u = elim (r.m u) [ none ↦ none | some e ↦ some (e.limit, r.heap e.limiter) ]

  admit_entry_ne :
      (r : Registry rate) (u w limit now : ℕ) → u ≢ w → (admit rate r u limit now).0.m w ≡ r.m w
  unfolding admit create insert
  admit_entry_ne r u w limit now other = ground (arith, ==_iff u w)

  admit_bucket_ne :
      (r : Registry rate) (u w limit now : ℕ) (e : UserLimiter)
      → IsSound r
      → u ≢ w
      → r.m w ≡ some e
      → ((admit rate r u limit now).1 ≢ e.limiter)
        × ((admit rate r u limit now).0.heap e.limiter ≡ r.heap e.limiter)
  unfolding admit create insert
  admit_bucket_ne r u w limit now e v other here = elim (Option-cases (r.m u)) [
    | inl new ↦ ground (arith, v.made w e here)
    | inr (f, mine) ↦ ground (arith, v.made w e here, v.apart u w f e mine here)
  ]

  allow_at_ne :
      (r : Registry rate) (a b now : ℕ)
      → a ≢ b
      → ((allow_at rate r a now).0.m ≡ r.m) × ((allow_at rate r a now).0.heap b ≡ r.heap b)
  unfolding allow_at insert
  allow_at_ne r a b now other = ground (arith, ==_iff a b)

  allow_at_m : (r : Registry rate) (a now : ℕ) → (allow_at rate r a now).0.m ≡ r.m
  unfolding allow_at
  allow_at_m r a now = ground arith

  -- A request of one user leaves the bucket of every other user as it is, whether it makes a new
  -- bucket, takes from an old one, or is refused.
  pub bucket-is_allowed_ne :
      (r : Registry rate) (u w limit now later : ℕ)
      → IsSound r
      → u ≢ w
      → bucket (is_allowed rate r u limit now later).0 w ≡ bucket r w
  unfolding is_allowed
  bucket-is_allowed_ne r u w limit now later v other = elim (Option-cases (r.m w)) [
    | inl nobody ↦ ground (
      arith,
      admit_entry_ne r u w limit now other,
      allow_at_m (admit rate r u limit now).0 (admit rate r u limit now).1 later,
    )
    | inr (e, here) ↦ ground (
      arith,
      admit_entry_ne r u w limit now other,
      admit_bucket_ne r u w limit now e v other here,
      allow_at_ne (admit rate r u limit now).0 (admit rate r u limit now).1 e.limiter later,
    )
  ]
