-- ===== src/Users/Rows.antt =====
-- What an update or a deletion of one user leaves of the others' rows.
use gateway.Prelude.{ℕ, String, str_eq, ◌≡◌, ◌≢◌, false, some, List, [], ◌∷◌, ◌++◌, arith}
use gateway.Users.{User, row_by_hash, row_by_id, update_row, delete_row}

pub row_by_id-id : (n : ℕ) (us : List User) (u : User) → row_by_id n us ≡ some u → u.id ≡ n
unfolding row_by_id
row_by_id-id n [] u h = cc
row_by_id-id n (v ∷ us) u h = ground (arith, row_by_id-id n us u)

pub row_by_hash-append :
    (h : String) (us vs : List User) (u : User)
    → row_by_hash h us ≡ some u
    → row_by_hash h (us ++ vs) ≡ some u
unfolding row_by_hash
row_by_hash-append h [] vs u e = cc
row_by_hash-append h (v ∷ us) vs u e = ground (arith, row_by_hash-append h us vs u)

pub row_by_id-append :
    (n : ℕ) (us vs : List User) (u : User)
    → row_by_id n us ≡ some u
    → row_by_id n (us ++ vs) ≡ some u
unfolding row_by_id
row_by_id-append n [] vs u e = cc
row_by_id-append n (v ∷ us) vs u e = ground (arith, row_by_id-append n us vs u)

module _ (n : ℕ) where
  pub row_by_id-delete :
      (m : ℕ) (us : List User) (u : User)
      → m ≢ n
      → row_by_id m us ≡ some u
      → row_by_id m (delete_row n us) ≡ some u
  unfolding row_by_id delete_row
  row_by_id-delete m [] u ne e = cc
  row_by_id-delete m (v ∷ us) u ne e = ground (arith, row_by_id-delete m us u ne)

  pub row_by_hash-delete :
      (h : String) (us : List User) (u : User)
      → u.id ≢ n
      → row_by_hash h us ≡ some u
      → row_by_hash h (delete_row n us) ≡ some u
  unfolding row_by_hash delete_row
  row_by_hash-delete h [] u ne e = cc
  row_by_hash-delete h (v ∷ us) u ne e = ground (arith, row_by_hash-delete h us u ne)

  module _ (f : User → User) where
    pub row_by_id-update :
        ((u : User) → (f u).id ≡ u.id)
        → (m : ℕ) (us : List User) (u : User) → m ≢ n
        → row_by_id m us ≡ some u
        → row_by_id m (update_row n f us) ≡ some u
    unfolding row_by_id update_row
    row_by_id-update same m [] u ne e = cc
    row_by_id-update same m (v ∷ us) u ne e =
        ground (arith, same v, row_by_id-update same m us u ne)

    -- A new hash that no row has hides no other row.
    pub row_by_hash-update :
        (h : String) (us : List User) (u : User)
        → ((v : User) → str_eq v.api_key h ≡ false → str_eq (f v).api_key h ≡ false)
        → u.id ≢ n
        → row_by_hash h us ≡ some u
        → row_by_hash h (update_row n f us) ≡ some u
    unfolding row_by_hash update_row
    row_by_hash-update h [] u keeps ne e = cc
    row_by_hash-update h (v ∷ us) u keeps ne e =
        ground (arith, keeps v, row_by_hash-update h us u keeps ne)
