-- ===== src/Users/Coherence.antt =====
-- The cache is transparent: what it answers is what the table answers.
use gateway.Prelude.{
  ◌==◌, ℕ, ◌+◌, String, str_eq, eq_iff, ◌≡◌, ◌≢◌, refl, Bool, true, false, not, none, some, List,
  [], ◌∷◌, ◌++◌, arith, All, keep, ltb, Bool-cases, Option-cases, inl, inr,
}
use gateway.Users.{
  User, Key, api, id_key, Entry, find, user_cache_get, user_cache_set, user_cache_cap,
  user_cache_ttl, concerns, invalidate_user_cache, row_by_hash, row_by_id, update_row, delete_row,
  row_of, Store, get_user, name_taken, create_user, update_user_status, reset_user_api_key,
  update_user_rate_limit, delete_user,
}
use gateway.Users.Rows.{
  row_by_hash-append, row_by_id-append, row_by_id-delete, row_by_hash-delete, row_by_id-update,
  row_by_hash-update,
}
use gateway.Users.Cache.{All-without, All-take, All-find}

abbrev pub Agrees : List User → Entry → Type 0
Agrees rows e = row_of e.key rows ≡ some e.user

abbrev pub Coherent : Store → Type 0
Coherent s = All (Agrees s.rows) s.cache

-- The rows that a change of one user leaves alone.
record Spares (n : ℕ) (old new : List User) : Type 0 where
  by_id : (m : ℕ) (u : User) → m ≢ n → row_by_id m old ≡ some u → row_by_id m new ≡ some u
  by_hash :
      (h : String) (u : User) → u.id ≢ n → row_by_hash h old ≡ some u → row_by_hash h new ≡ some u

key-Spares :
    {n : ℕ} {old new : List User} (k : Key) (u : User) (x : ℕ)
    → Spares n old new
    → concerns n (record { key = k; user = u; exp = x }) ≡ false
    → row_of k old ≡ some u
    → row_of k new ≡ some u
unfolding concerns row_of
key-Spares (api h) u x sp c a = sp.by_hash h u (ground arith) a
key-Spares (id_key m) u x sp c a = sp.by_id m u (ground arith) a

keep-Spares :
    (n : ℕ) (old new : List User) (es : List Entry)
    → Spares n old new
    → All (Agrees old) es
    → All (Agrees new) (keep (λ e. not (concerns n e)) es)
keep-Spares n old new [] sp a = tt
keep-Spares n old new (e ∷ es) sp a = elim (Bool-cases (concerns n e)) [
  | inl gone ↦ rw gone (keep-Spares n old new es sp a.1)
  | inr kept ↦ rw kept (key-Spares e.key e.user e.exp sp kept a.0, keep-Spares n old new es sp a.1)
]

update-Spares :
    (n : ℕ) (f : User → User) (us : List User)
    → ((u : User) → (f u).id ≡ u.id)
    → ((u : User) → (f u).api_key ≡ u.api_key)
    → Spares n us (update_row n f us)
update-Spares n f us same_id same_hash = record {
  by_id = λ m u. row_by_id-update n f same_id m us u;
  by_hash = λ h u. row_by_hash-update n f h us u (λ v e. rw (same_hash v) e);
}

same_rows : (n : ℕ) (us : List User) → Spares n us us
same_rows n us = record { by_id = λ m u other found. found; by_hash = λ h u other found. found }

delete-Spares : (n : ℕ) (us : List User) → Spares n us (delete_row n us)
delete-Spares n us = record {
  by_id = λ m u. row_by_id-delete n m us u;
  by_hash = λ h u. row_by_hash-delete n h us u;
}

hash_taken :
    (h : String) (us : List User) (u : User)
    → row_by_hash h us ≡ none
    → row_by_hash h us ≡ some u
    → ⊥
hash_taken h us u p q = cc

reset-Spares :
    (n : ℕ) (new : String) (us : List User)
    → row_by_hash new us ≡ none
    → Spares n us (update_row n (λ u. record u { api_key = new }) us)
reset-Spares n new us free = record {
  by_id = λ m u. row_by_id-update n (λ v. record v { api_key = new }) (λ v. refl) m us u;
  by_hash = λ h u ne found.
      row_by_hash-update n (λ v. record v { api_key = new }) h us u (λ v _. fresh h u found) ne
        found;
}
  where
    fresh : (h : String) (u : User) → row_by_hash h us ≡ some u → str_eq new h ≡ false
    fresh h u found = elim (Bool-cases (str_eq new h)) [
      | inl same ↦ absurd (hash_taken h us u (rw (← (eq_iff new h).0 same) free) found)
      | inr other ↦ other
    ]

invalidate-Coherent :
    (n : ℕ) (s : Store) (new : List User) (ds : List ℕ)
    → Spares n s.rows new
    → Coherent s
    → Coherent (record { rows = new; cache = invalidate_user_cache n s.cache; dropped = ds })
unfolding invalidate_user_cache
invalidate-Coherent n s new ds sp c = keep-Spares n s.rows new s.cache sp c

pub status-Coherent :
    (n : ℕ) (status : String) (db_ok : Bool) (s : Store)
    → Coherent s
    → Coherent (update_user_status n status db_ok s).0
unfolding update_user_status
status-Coherent n status false s c = c
status-Coherent n status true s c =
    invalidate-Coherent n s _ s.dropped
      (update-Spares n (λ u. record u { status = status }) s.rows (λ u. refl) (λ u. refl)) c

pub limit-Coherent :
    (n limit : ℕ) (db_ok : Bool) (s : Store)
    → Coherent s
    → Coherent (update_user_rate_limit n limit db_ok s).0
unfolding update_user_rate_limit
limit-Coherent n limit false s c = c
limit-Coherent n limit true s c =
    invalidate-Coherent n s _ (n ∷ s.dropped)
      (update-Spares n (λ u. record u { rate_limit = limit }) s.rows (λ u. refl) (λ u. refl)) c

pub delete-Coherent :
    (n : ℕ) (db_ok : Bool) (s : Store) → Coherent s → Coherent (delete_user n db_ok s).0
unfolding delete_user
delete-Coherent n false s c = c
delete-Coherent n true s c = invalidate-Coherent n s _ (n ∷ s.dropped) (delete-Spares n s.rows) c

pub reset-Coherent :
    (sha256_hex : String → String) (n : ℕ) (raw_key : String) (s : Store)
    → Coherent s
    → Coherent (reset_user_api_key sha256_hex n raw_key s).0
unfolding reset_user_api_key
reset-Coherent sha256_hex n raw_key s c =
    elim (Option-cases (row_by_hash (sha256_hex raw_key) s.rows)) [
      | inl free ↦
          rw (free, reset_user_api_key)
            (invalidate-Coherent n s _ s.dropped (reset-Spares n (sha256_hex raw_key) s.rows free)
              c)
      | inr (u, taken) ↦
          rw (taken, reset_user_api_key)
            (elim (Bool-cases (u.id == n)) [
              | inl own ↦ rw own (invalidate-Coherent n s s.rows s.dropped (same_rows n s.rows) c)
              | inr other ↦ rw other c
            ])
    ]

append-Agrees :
    (old new : List User) (es : List Entry) → All (Agrees old) es → All (Agrees (old ++ new)) es
append-Agrees old new [] a = tt
append-Agrees old new (e ∷ es) a = (key-append e.key e.user a.0, append-Agrees old new es a.1)
  where
    key-append : (k : Key) (u : User) → row_of k old ≡ some u → row_of k (old ++ new) ≡ some u
    key-append (api h) u q = unfold row_of in row_by_hash-append h old new u q
    key-append (id_key m) u q = unfold row_of in row_by_id-append m old new u q

pub create-Coherent :
    (sha256_hex : String → String) (id : ℕ) (name raw_key : String) (limit : ℕ) (s : Store)
    → Coherent s
    → Coherent (create_user sha256_hex id name raw_key limit s).0
unfolding create_user
create-Coherent sha256_hex id name raw_key limit s c =
    elim (Option-cases (row_by_hash (sha256_hex raw_key) s.rows)) [
      | inl free ↦ elim (Bool-cases (name_taken name s.rows)) [
        | inl named ↦ rw (free, create_user) (rw named c)
        | inr new ↦ rw (free, create_user) (rw new (append-Agrees s.rows _ s.cache c))
      ]
      | inr (u, taken) ↦ rw (taken, create_user) c
    ]

-- What a cache lookup leaves and what it answers.
cache_get-Agrees :
    (rows : List User) (k : Key) (now : ℕ) (es : List Entry)
    → All (Agrees rows) es
    → All (Agrees rows) (user_cache_get k now es).0
      × ((u : User) → (user_cache_get k now es).1 ≡ some u → row_of k rows ≡ some u)
unfolding user_cache_get
cache_get-Agrees rows k now es a = elim (Option-cases (find k es)) [
  | inl nothing ↦ rw (nothing, user_cache_get) (a, λ u h. cc)
  | inr (e, hit) ↦
      let rest = All-without (Agrees rows) k es a in
      let (right, same) = All-find (Agrees rows) k es e a hit in
      elim (Bool-cases (ltb e.exp now)) [
        | inl old ↦ rw (hit, user_cache_get) (rw old (rest, λ u h. cc))
        | inr live ↦ rw (hit, user_cache_get) (rw live ((right, rest), λ u h. cc (right, same)))
      ]
]

cache_set-Agrees :
    (rows : List User) (k : Key) (u : User) (now : ℕ) (es : List Entry)
    → row_of k rows ≡ some u
    → All (Agrees rows) es
    → All (Agrees rows) (user_cache_set k u now es)
unfolding user_cache_set
cache_set-Agrees rows k u now es right a = elim (Option-cases (find k es)) [
  | inl new ↦
      rw (new, user_cache_set)
        (All-take (Agrees rows) user_cache_cap
          (record { key = k; user = u; exp = now + user_cache_ttl } ∷ es) (right, a))
  | inr (d, h) ↦ rw (h, user_cache_set) (right, All-without (Agrees rows) k es a)
]

pub get-Coherent :
    (k : Key) (now : ℕ) (db_ok : Bool) (s : Store)
    → Coherent s
    → Coherent (get_user k now db_ok s).0
unfolding get_user
get-Coherent k now db_ok s c =
    let (kept, told) = cache_get-Agrees s.rows k now s.cache c in
    elim (Option-cases (user_cache_get k now s.cache).1) [
      | inr (u, hit) ↦ rw (hit, get_user) kept
      | inl miss ↦ elim (Bool-cases db_ok) [
        | inr down ↦ rw (miss, get_user) (rw down kept)
        | inl up ↦ elim (Option-cases (row_of k s.rows)) [
          | inl nobody ↦ rw (miss, get_user) (rw (up, nobody) kept)
          | inr (u, row) ↦
              rw (miss, get_user) (rw (up, row) (cache_set-Agrees s.rows k u now _ row kept))
        ]
      ]
    ]

pub get-eq-row :
    (k : Key) (now : ℕ) (s : Store) → Coherent s → (get_user k now true s).1 ≡ row_of k s.rows
unfolding get_user
get-eq-row k now s c =
    let (kept, told) = cache_get-Agrees s.rows k now s.cache c in
    elim (Option-cases (user_cache_get k now s.cache).1) [
      | inr (u, hit) ↦ ground (arith, told u hit)
      | inl miss ↦ ground arith
    ]

-- The calls that the handlers make.
pub data Call : Type 0 where
  looks_up : Key → ℕ → Bool → Call
  creates : ℕ → String → String → ℕ → Call
  sets_status : ℕ → String → Bool → Call
  resets_key : ℕ → String → Call
  sets_limit : ℕ → ℕ → Bool → Call
  deletes : ℕ → Bool → Call

module _ (sha256_hex : String → String) where
  abbrev pub step : Store → Call → Store
  step s (looks_up k now ok) = (get_user k now ok s).0
  step s (creates id name key limit) = (create_user sha256_hex id name key limit s).0
  step s (sets_status n status ok) = (update_user_status n status ok s).0
  step s (resets_key n key) = (reset_user_api_key sha256_hex n key s).0
  step s (sets_limit n limit ok) = (update_user_rate_limit n limit ok s).0
  step s (deletes n ok) = (delete_user n ok s).0

  abbrev pub run : Store → List Call → Store
  run s [] = s
  run s (c ∷ cs) = run (step s c) cs

  step-Coherent : (s : Store) (c : Call) → Coherent s → Coherent (step s c)
  step-Coherent s (looks_up k now ok) v = get-Coherent k now ok s v
  step-Coherent s (creates id name key limit) v = create-Coherent sha256_hex id name key limit s v
  step-Coherent s (sets_status n status ok) v = status-Coherent n status ok s v
  step-Coherent s (resets_key n key) v = reset-Coherent sha256_hex n key s v
  step-Coherent s (sets_limit n limit ok) v = limit-Coherent n limit ok s v
  step-Coherent s (deletes n ok) v = delete-Coherent n ok s v

  run-Coherent : (cs : List Call) (s : Store) → Coherent s → Coherent (run s cs)
  run-Coherent [] s v = v
  run-Coherent (c ∷ cs) s v = run-Coherent cs (step s c) (step-Coherent s c v)

  -- After any sequence of calls, one at a time, a lookup through the cache answers exactly what the
  -- table holds at that moment: a disabled, re-keyed, re-limited or deleted user is seen at once.
  pub lookup-run :
      (cs : List Call) (s : Store) (k : Key) (now : ℕ)
      → Coherent s
      → (get_user k now true (run s cs)).1 ≡ row_of k (run s cs).rows
  lookup-run cs s k now v = get-eq-row k now (run s cs) (run-Coherent cs s v)
