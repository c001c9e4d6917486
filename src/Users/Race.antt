-- ===== src/Users/Race.antt =====
-- getUserByAPIKey reads the table and fills the cache in two steps; nothing keeps a change of the user
-- from coming in between.
use gateway.Prelude.{ℕ, ◌+◌, ◌≤◌, String, ◌≡◌, refl, Bool, true, some, List, [], ◌∷◌, arith}
use gateway.Users.{
  User, Key, api, Store, user_cache_set, user_cache_ttl, row_of, row_by_hash, update_row, active,
  disabled, update_user_status, get_user,
}
use gateway.Users.Cache.{get-set}

-- The second half of getUserByAPIKey: the row that was read goes into the cache.
pub fill : Key → User → ℕ → Store → Store
fill k u now s = record s { cache = user_cache_set k u now s.cache }

get-after-fill :
    (k : Key) (u : User) (now later : ℕ) (db_ok : Bool) (s : Store)
    → later ≤ now + user_cache_ttl
    → (get_user k later db_ok (fill k u now s)).1 ≡ some u
unfolding get_user fill
get-after-fill k u now later db_ok s h = ground (arith, get-set k u now later s.cache)

row_updated :
    (h : String) (n : ℕ) (f : User → User) (us : List User) (u : User)
    → ((v : User) → (f v).api_key ≡ v.api_key)
    → u.id ≡ n
    → row_by_hash h us ≡ some u
    → row_by_hash h (update_row n f us) ≡ some (f u)
unfolding row_by_hash update_row
row_updated h n f [] u keeps same e = cc
row_updated h n f (v ∷ us) u keeps same e =
    ground (arith, keeps v, row_updated h n f us u keeps same)

-- When an administrator disables a user between a lookup's read of the table and its fill of the cache,
-- the cache serves the user as active for five more minutes, while the table has them disabled.
pub disabled_user_served :
    (hash : String) (u : User) (s : Store) (now later : ℕ) (db_ok : Bool)
    → row_of (api hash) s.rows ≡ some u
    → u.status ≡ active
    → later ≤ now + user_cache_ttl
    → let s' = fill (api hash) u now (update_user_status u.id disabled true s).0 in
      ((get_user (api hash) later db_ok s').1 ≡ some u)
      × (row_of (api hash) s'.rows ≡ some (record u { status = disabled }))
unfolding row_of update_user_status
disabled_user_served hash u s now later db_ok read on h = (
  get-after-fill (api hash) u now later db_ok _ h,
  unfold fill in
      row_updated hash u.id (λ v. record v { status = disabled }) s.rows u (λ v. refl) refl read,
)
