-- ===== src/Users.antt =====
-- Users and their cache (db.go: userCacheGet, userCacheSet, invalidateUserCache and the user queries).
-- The container/list and its index userCacheIdx are one list of entries, most recently used first.
pub mod Rows
pub mod Present
pub mod Everyone
pub mod Cache
pub mod Coherence
pub mod Race
use gateway.Prelude.{
  ◌||◌, ℕ, ◌+◌, ◌*◌, String, str_eq, Bool, true, false, not, ◌&&◌, Option, none, some, List, [],
  ◌∷◌, ◌++◌, map, ltb, leb, ◌==◌, if◌then◌else◌, length, take, keep,
}

-- A row of users, without created_at. `api_key` is the hash.
pub record User : Type 0 where
  pub id : ℕ
  pub name : String
  pub api_key : String
  pub status : String
  pub rate_limit : ℕ

abbrev pub active : String
active = "active"

abbrev pub disabled : String
disabled = "disabled"

abbrev pub user_cache_ttl : ℕ
user_cache_ttl = 5 * 60 * 1_000_000_000

abbrev pub user_cache_cap : ℕ
user_cache_cap = 4096

-- "api:" with the hash of a key, or "id:" with a user id.
pub data Key : Type 0 where
  api : String → Key
  id_key : ℕ → Key

unfoldable pub key_eq : Key → Key → Bool
key_eq (api a) (api b) = str_eq a b
key_eq (id_key m) (id_key n) = m == n
key_eq (api a) (id_key n) = false
key_eq (id_key m) (api b) = false

pub record Entry : Type 0 where
  pub key : Key
  pub user : User
  pub exp : ℕ

unfoldable pub find : Key → List Entry → Option Entry
find k [] = none
find k (e ∷ es) = if key_eq e.key k then some e else find k es

unfoldable pub without : Key → List Entry → List Entry
without k [] = []
without k (e ∷ es) = if key_eq e.key k then without k es else e ∷ without k es

-- userCacheGet: an expired entry is dropped, a live one moves to the front.
unfoldable pub user_cache_get : Key → ℕ → List Entry → List Entry × Option User
user_cache_get k now es = elim (find k es) [
  | none ↦ (es, none)
  | some e ↦ if ltb e.exp now then (without k es, none) else (e ∷ without k es, some e.user)
]

-- userCacheSet: an entry of that key is renewed in front, a new one is put in front and the back is
-- dropped down to the cap.
unfoldable pub user_cache_set : Key → User → ℕ → List Entry → List Entry
user_cache_set k u now es =
    let e : Entry = record { key = k; user = u; exp = now + user_cache_ttl } in
    elim (find k es) [ some old ↦ e ∷ without k es | none ↦ take user_cache_cap (e ∷ es) ]

-- Whether invalidateUserCache drops an entry.
unfoldable pub concerns : ℕ → Entry → Bool
concerns user_id e = elim e.key [ id_key n ↦ n == user_id | api hash ↦ e.user.id == user_id ]

unfoldable pub invalidate_user_cache : ℕ → List Entry → List Entry
unfolding concerns
invalidate_user_cache user_id es = keep (λ e. not (concerns user_id e)) es

-- The users table, with the two lookups that the queries make.
unfoldable pub row_by_hash : String → List User → Option User
row_by_hash h [] = none
row_by_hash h (u ∷ us) = if str_eq u.api_key h then some u else row_by_hash h us

unfoldable pub row_by_id : ℕ → List User → Option User
row_by_id n [] = none
row_by_id n (u ∷ us) = if u.id == n then some u else row_by_id n us

unfoldable pub update_row : ℕ → (User → User) → List User → List User
update_row n f [] = []
update_row n f (u ∷ us) = (if u.id == n then f u else u) ∷ update_row n f us

unfoldable pub delete_row : ℕ → List User → List User
delete_row n [] = []
delete_row n (u ∷ us) = if u.id == n then delete_row n us else u ∷ delete_row n us

-- The process: the table, the cache, and the users whose limiter has been dropped.
pub record Store : Type 0 where
  pub rows : List User
  pub cache : List Entry
  pub dropped : List ℕ

-- What a query returns when the database answers.
unfoldable pub row_of : Key → List User → Option User
row_of (api h) us = row_by_hash h us
row_of (id_key n) us = row_by_id n us

-- getUserByAPIKey and getUserByID after the key is formed. `db_ok` is whether the query succeeds; a
-- failed one is `none` inside the answer's result, as its callers treat it.
unfoldable pub get_user : Key → ℕ → Bool → Store → Store × Option User
get_user k now db_ok s =
    let (cache, hit) = user_cache_get k now s.cache in
    elim hit [
      | some u ↦ (record s { cache = cache }, some u)
      | none ↦
          if db_ok
          then elim (row_of k s.rows) [
            | none ↦ (record s { cache = cache }, none)
            | some u ↦ (record s { cache = user_cache_set k u now cache }, some u)
          ]
          else (record s { cache = cache }, none)
    ]

unfoldable pub get_user_by_api_key :
    (String → String) → String → ℕ → Bool → Store → Store × Option User
get_user_by_api_key sha256_hex raw_key = get_user (api (sha256_hex raw_key))

unfoldable pub get_user_by_id : ℕ → ℕ → Bool → Store → Store × Option User
get_user_by_id n = get_user (id_key n)

-- Whether the UNIQUE constraint on the name refuses it.
unfoldable pub name_taken : String → List User → Bool
name_taken name [] = false
name_taken name (u ∷ us) = str_eq u.name name || name_taken name us

-- createUser: a name or a hash that is taken fails a UNIQUE constraint. `id` is the next rowid.
unfoldable pub create_user : (String → String) → ℕ → String → String → ℕ → Store → Store × Bool
create_user sha256_hex id name raw_key rate_limit s =
    elim (row_by_hash (sha256_hex raw_key) s.rows) [
      | some u ↦ (s, false)
      | none ↦ if name_taken name s.rows then (s, false) else (
        record s {
          rows =
              s.rows
              ++ record {
                id = id;
                name = name;
                api_key = sha256_hex raw_key;
                status = disabled;
                rate_limit = rate_limit;
              }
                ∷ [];
        },
        true,
      )
    ]

unfoldable pub update_user_status : ℕ → String → Bool → Store → Store × Bool
update_user_status n status db_ok s =
    if db_ok
    then (
      record s {
        rows = update_row n (λ u. record u { status = status }) s.rows;
        cache = invalidate_user_cache n s.cache;
      },
      true,
    )
    else (s, false)

-- resetUserAPIKey, with the UNIQUE constraint on api_key. A row that has the hash already stays as it
-- is. A write that fails in another way is the caller's case.
unfoldable pub reset_user_api_key : (String → String) → ℕ → String → Store → Store × Bool
reset_user_api_key sha256_hex n raw_key s = elim (row_by_hash (sha256_hex raw_key) s.rows) [
  | some u ↦
      if u.id == n then (record s { cache = invalidate_user_cache n s.cache }, true) else (s, false)
  | none ↦ (
    record s {
      rows = update_row n (λ u. record u { api_key = sha256_hex raw_key }) s.rows;
      cache = invalidate_user_cache n s.cache;
    },
    true,
  )
]

unfoldable pub update_user_rate_limit : ℕ → ℕ → Bool → Store → Store × Bool
update_user_rate_limit n rate_limit db_ok s =
    if db_ok
    then (
      record {
        rows = update_row n (λ u. record u { rate_limit = rate_limit }) s.rows;
        cache = invalidate_user_cache n s.cache;
        dropped = n ∷ s.dropped;
      },
      true,
    )
    else (s, false)

-- deleteUser: the transaction takes the user's row and logs, or nothing.
unfoldable pub delete_user : ℕ → Bool → Store → Store × Bool
delete_user n db_ok s =
    if db_ok
    then (
      record {
        rows = delete_row n s.rows;
        cache = invalidate_user_cache n s.cache;
        dropped = n ∷ s.dropped;
      },
      true,
    )
    else (s, false)
