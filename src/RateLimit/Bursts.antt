-- ===== src/RateLimit/Bursts.antt =====
-- How many requests of a burst are served, whoever else is served in between.
use gateway.Prelude.{
  ℕ, min, ◌+◌, ◌-◌, ◌<◌, ◌≡◌, ◌≢◌, Bool, Bool-cases, Option-cases, inl, inr, List, [], ◌∷◌, Option,
  none, some, ltb, ◌==◌, if◌then◌else◌, arith, insert, nat_key, ==_iff, ==_refl,
}
use gateway.RateLimit.{Rate, Registry, create, admit, allow_at, is_allowed}
use gateway.RateLimit.Buckets.{IsSound, bucket, is_allowed-IsSound, bucket-is_allowed_ne}

-- What golang.org/x/time/rate documents of a bucket at one instant: it starts with a full burst,
-- Allow takes a token if there is one, and refuses and takes nothing if there is none.
pub record RateLaws (rate : Rate) : Type 0 where
  pub tokens : rate.Limiter → ℕ → ℕ
  pub starts_full : (limit t : ℕ) → tokens (rate.new_limiter limit t) t ≡ limit
  pub takes : (l : rate.Limiter) (t : ℕ) → tokens (rate.allow l t).0 t ≡ tokens l t - 1
  pub answers : (l : rate.Limiter) (t : ℕ) → (rate.allow l t).1 ≡ ltb 0 (tokens l t)

take_one :
    (ok : Bool) (rest n a a' : ℕ)
    → ok ≡ ltb 0 a
    → a' ≡ a - 1
    → rest ≡ min n a'
    → (if ok then rest + 1 else rest) ≡ min (n + 1) a
take_one ok rest n a a' h k e = ground arith

module _ {rate : Rate} (laws : RateLaws rate) (limits : ℕ → ℕ) (t : ℕ) where
  open laws use {tokens, starts_full, takes, answers}

  -- The tokens that the next request of a user meets, under the user's current limit.
  abbrev pub allowance : Option (ℕ × Option rate.Limiter) → ℕ → ℕ
  allowance none limit = limit
  allowance (some (old, none)) limit = if old == limit then 0 else limit
  allowance (some (old, some l)) limit = if old == limit then tokens l t else limit

  -- The requests of `u` among those of a burst that are served.
  pub served : Registry rate → ℕ → List ℕ → ℕ
  served r u [] = 0
  served r u (w ∷ rest) =
      let (r', ok) = is_allowed rate r w (limits w) t t in
      let more = served r' u rest in if w == u then (if ok then more + 1 else more) else more

  pub requests_of : ℕ → List ℕ → ℕ
  requests_of u [] = 0
  requests_of u (w ∷ rest) = if w == u then requests_of u rest + 1 else requests_of u rest

  own_request :
      (r : Registry rate) (u : ℕ)
      → IsSound r
      → 0 < limits u
      → ((is_allowed rate r u (limits u) t t).1 ≡ ltb 0 (allowance (bucket r u) (limits u)))
        × (allowance (bucket (is_allowed rate r u (limits u) t t).0 u) (limits u)
            ≡ allowance (bucket r u) (limits u) - 1)
  unfolding is_allowed admit create allow_at insert
  own_request r u v pos = elim (Option-cases (r.m u)) [
    | inl new ↦ ground (
      arith,
      starts_full (limits u) t,
      takes (rate.new_limiter (limits u) t) t,
      answers (rate.new_limiter (limits u) t) t,
    )
    | inr (e, here) ↦ elim (Option-cases (r.heap e.limiter)) [
      | inl lost ↦ absurd (v.kept e.limiter (v.made u e here) lost)
      | inr (l, there) ↦ ground (
        arith,
        starts_full (limits u) t,
        takes (rate.new_limiter (limits u) t) t,
        answers (rate.new_limiter (limits u) t) t,
        takes l t,
        answers l t,
      )
    ]
  ]

  -- In a burst of requests by any users in any order, exactly as many requests of a user are served
  -- as the user sent and their bucket holds tokens; no other user's requests change that.
  pub served-requests :
      (ws : List ℕ) (r : Registry rate) (u : ℕ)
      → IsSound r
      → 0 < limits u
      → served r u ws ≡ min (requests_of u ws) (allowance (bucket r u) (limits u))
  unfolding served requests_of
  served-requests [] r u v pos = omega arith
  served-requests (w ∷ ws) r u v pos = elim (Bool-cases (w == u)) [
    | inl mine ↦
        let rest = (is_allowed rate r u (limits u) t t).0 in
        let (answer, left) = own_request r u v pos in
        rw ((==_iff w u).0 mine, ==_refl u)
          (take_one _ _ _ _ _ answer left
            (served-requests ws rest u (is_allowed-IsSound r u (limits u) t t v) pos))
    | inr other ↦
        let rest = (is_allowed rate r w (limits w) t t).0 in
        let apart : w ≢ u = ground arith in
        rw (other, ← bucket-is_allowed_ne r w u (limits w) t t v apart)
          (served-requests ws rest u (is_allowed-IsSound r w (limits w) t t v) pos)
  ]
