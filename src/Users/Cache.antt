-- ===== src/Users/Cache.antt =====
-- The cache as a bounded map with one entry to a key.
use gateway.Prelude.{
  ℕ, zero, suc, ◌+◌, ◌≤◌, eq_iff, ◌≡◌, ◌↔◌, refl, subst, Bool, true, not, none, some, List, [], ◌∷◌,
  if◌then◌else◌, arith, ==_iff, All, length, take, keep, ltb, Bool-cases, Option-cases, inl, inr,
  length-take, length-keep-le,
}
use gateway.Users.{
  User, Key, api, id_key, key_eq, Entry, find, without, user_cache_get, user_cache_set,
  user_cache_cap, user_cache_ttl, concerns, invalidate_user_cache,
}

pub key_eq_iff : (j k : Key) → (key_eq j k ≡ true) ↔ (j ≡ k)
unfolding key_eq
key_eq_iff (api a) (api b) = ground (arith, eq_iff a b)
key_eq_iff (api a) (id_key n) = ground arith
key_eq_iff (id_key m) (api b) = ground arith
key_eq_iff (id_key m) (id_key n) = ground (arith, ==_iff m n)

-- A statement about every entry survives whatever the cache drops.
module _ (P : Entry → Type 0) where
  pub All-without : (k : Key) (es : List Entry) → All P es → All P (without k es)
  unfolding without
  All-without k [] a = tt
  All-without k (e ∷ es) a = elim (Bool-cases (key_eq e.key k)) [
    | inl hit ↦ rw hit (All-without k es a.1)
    | inr miss ↦ rw miss (a.0, All-without k es a.1)
  ]

  pub All-keep : (p : Entry → Bool) (es : List Entry) → All P es → All P (keep p es)
  All-keep p [] a = tt
  All-keep p (e ∷ es) a = elim (Bool-cases (p e)) [
    | inl hit ↦ rw hit (a.0, All-keep p es a.1)
    | inr miss ↦ rw miss (All-keep p es a.1)
  ]

  pub All-take : (n : ℕ) (es : List Entry) → All P es → All P (take n es)
  All-take zero es a = tt
  All-take (suc n) [] a = tt
  All-take (suc n) (e ∷ es) a = (a.0, All-take n es a.1)

  pub All-find :
      (k : Key) (es : List Entry) (e : Entry) → All P es → find k es ≡ some e → P e × (e.key ≡ k)
  unfolding find
  All-find k [] e a h = cc
  All-find k (d ∷ es) e a h = elim (Bool-cases (key_eq d.key k)) [
    | inl hit ↦
        let same : d ≡ e = ground arith in
        subst (λ (x : Entry). P x × (x.key ≡ k)) same (a.0, (key_eq_iff d.key k).0 hit)
    | inr miss ↦ All-find k es e a.1 (ground arith)
  ]

abbrev pub Distinct : List Entry → Type 0
Distinct [] = Unit {0}
Distinct (e ∷ es) = (find e.key es ≡ none) × Distinct es

pub record IsCache (es : List Entry) : Type 0 where
  pub distinct : Distinct es
  pub bounded : length es ≤ user_cache_cap

pub find-without :
    (k j : Key) (es : List Entry) → find j (without k es) ≡ (if key_eq k j then none else find j es)
unfolding find without
find-without k j [] = ground arith
find-without k j (e ∷ es) =
    ground (arith, find-without k j es, key_eq_iff e.key k, key_eq_iff e.key j, key_eq_iff k j)

find-take-none : (n : ℕ) (j : Key) (es : List Entry) → find j es ≡ none → find j (take n es) ≡ none
unfolding find
find-take-none zero j es h = refl
find-take-none (suc n) j [] h = refl
find-take-none (suc n) j (e ∷ es) h = ground (arith, find-take-none n j es)

find-keep-none :
    (p : Entry → Bool) (j : Key) (es : List Entry) → find j es ≡ none → find j (keep p es) ≡ none
unfolding find
find-keep-none p j [] h = refl
find-keep-none p j (e ∷ es) h = ground (arith, find-keep-none p j es)

Distinct-take : (n : ℕ) (es : List Entry) → Distinct es → Distinct (take n es)
Distinct-take zero es d = tt
Distinct-take (suc n) [] d = tt
Distinct-take (suc n) (e ∷ es) d = (find-take-none n e.key es d.0, Distinct-take n es d.1)

Distinct-keep : (p : Entry → Bool) (es : List Entry) → Distinct es → Distinct (keep p es)
Distinct-keep p [] d = tt
Distinct-keep p (e ∷ es) d = elim (Bool-cases (p e)) [
  | inl kept ↦ rw kept (find-keep-none p e.key es d.0, Distinct-keep p es d.1)
  | inr gone ↦ rw gone (Distinct-keep p es d.1)
]

Distinct-without : (k : Key) (es : List Entry) → Distinct es → Distinct (without k es)
unfolding without
Distinct-without k [] d = tt
Distinct-without k (e ∷ es) d = elim (Bool-cases (key_eq e.key k)) [
  | inl hit ↦ rw hit (Distinct-without k es d.1)
  | inr miss ↦ rw miss (ground (arith, find-without k e.key es), Distinct-without k es d.1)
]

length-without-le : (k : Key) (es : List Entry) → length (without k es) ≤ length es
unfolding without
length-without-le k [] = omega arith
length-without-le k (e ∷ es) = ground (arith, length-without-le k es)

length-without_found :
    (k : Key) (es : List Entry) (e : Entry)
    → find k es ≡ some e
    → length (without k es) + 1 ≤ length es
unfolding find without
length-without_found k [] e h = cc
length-without_found k (d ∷ es) e h =
    ground (arith, length-without_found k es e, length-without-le k es)

abbrev Always : Entry → Type 0
Always e = Unit {0}

All-Always : (es : List Entry) → All Always es
All-Always [] = tt
All-Always (e ∷ es) = (tt, All-Always es)

found_key : (k : Key) (es : List Entry) (e : Entry) → find k es ≡ some e → e.key ≡ k
found_key k es e h = (All-find Always k es e (All-Always es) h).1

-- A found entry in front of the rest.
moved-IsCache :
    (k : Key) (es : List Entry) (e f : Entry)
    → f.key ≡ k
    → find k es ≡ some e
    → IsCache es
    → IsCache (f ∷ without k es)
moved-IsCache k es e f same h v = record {
  distinct = (
    rw same (ground (arith, find-without k k es, key_eq_iff k k)),
    Distinct-without k es v.distinct,
  );
  bounded = omega (arith, length-without_found k es e h, v.bounded);
}

pub get-IsCache :
    (k : Key) (now : ℕ) (es : List Entry) → IsCache es → IsCache (user_cache_get k now es).0
unfolding user_cache_get
get-IsCache k now es v = elim (Option-cases (find k es)) [
  | inl nothing ↦ rw (nothing, user_cache_get) v
  | inr (e, h) ↦ elim (Bool-cases (ltb e.exp now)) [
    | inl old ↦
        rw (h, user_cache_get)
          (rw old (record {
            distinct = Distinct-without k es v.distinct;
            bounded = omega (arith, length-without-le k es, v.bounded);
          }))
    | inr live ↦ rw (h, user_cache_get) (rw live (moved-IsCache k es e e (found_key k es e h) h v))
  ]
]

pub set-IsCache :
    (k : Key) (u : User) (now : ℕ) (es : List Entry)
    → IsCache es
    → IsCache (user_cache_set k u now es)
unfolding user_cache_set
set-IsCache k u now es v =
    let e : Entry = record { key = k; user = u; exp = now + user_cache_ttl } in
    elim (Option-cases (find k es)) [
      | inl new ↦
          rw (new, user_cache_set)
            (record {
              distinct = Distinct-take user_cache_cap (e ∷ es) (new, v.distinct);
              bounded = omega (arith, length-take user_cache_cap (e ∷ es));
            })
      | inr (d, h) ↦ rw (h, user_cache_set) (moved-IsCache k es d e refl h v)
    ]

pub invalidate-IsCache :
    (n : ℕ) (es : List Entry) → IsCache es → IsCache (invalidate_user_cache n es)
unfolding invalidate_user_cache
invalidate-IsCache n es v = record {
  distinct = Distinct-keep (λ e. not (concerns n e)) es v.distinct;
  bounded = omega (arith, length-keep-le (λ e. not (concerns n e)) es, v.bounded);
}

-- A user put into the cache is what the next lookup of that key returns until the entry is five
-- minutes old, and is gone from then on.
pub get-set :
    (k : Key) (u : User) (now later : ℕ) (es : List Entry)
    → (user_cache_get k later (user_cache_set k u now es)).1
      ≡ (if ltb (now + user_cache_ttl) later then none else some u)
unfolding user_cache_set user_cache_get find
get-set k u now later es = ground (arith, key_eq_iff k k)
