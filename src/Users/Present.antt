-- ===== src/Users/Present.antt =====
-- That a user's row exists, through the operations on the users' table (db.go).
use gateway.Prelude.{
  ◌==◌, Bool-cases, ℕ, String, ◌≡◌, ◌≢◌, refl, subst, Bool, true, false, some, List, [], ◌∷◌, arith,
  if_either, ℕ_discrete, Option-cases, inl, inr,
}
use gateway.Users.{
  User, Key, id_key, Store, row_by_id, row_by_hash, name_taken, update_row, get_user,
  get_user_by_id, create_user, update_user_status, reset_user_api_key, update_user_rate_limit,
  delete_user,
}
use gateway.Users.Rows.{row_by_id-append, row_by_id-delete, row_by_id-update}

abbrev pub Present : ℕ → List User → Type 0
Present uid us = (u : User) × (row_by_id uid us ≡ some u)

-- What an update does to the row that it is about.
pub row_by_id-updated :
    (f : User → User) (n : ℕ) (us : List User) (u : User)
    → ((v : User) → (f v).id ≡ v.id)
    → row_by_id n us ≡ some u
    → row_by_id n (update_row n f us) ≡ some (f u)
unfolding row_by_id update_row
row_by_id-updated f n [] u same e = cc
row_by_id-updated f n (v ∷ us) u same e = ground (arith, same v, row_by_id-updated f n us u same)

pub get_user-rows :
    (k : Key) (now : ℕ) (db_ok : Bool) (s : Store) → (get_user k now db_ok s).0.rows ≡ s.rows
unfolding get_user
get_user-rows k now db_ok s = ground arith

module _ (uid : ℕ) where
  -- The operations on the users' table that leave the row where it is.
  pub get_user-Present :
      (n now : ℕ) (db_ok : Bool) (s : Store)
      → Present uid s.rows
      → Present uid (get_user_by_id n now db_ok s).0.rows
  unfolding get_user_by_id
  get_user-Present n now db_ok s (u, row) = (u, rw (get_user-rows (id_key n) now db_ok s) row)

  update-Present :
      (n : ℕ) (f : User → User) (us : List User)
      → ((v : User) → (f v).id ≡ v.id)
      → Present uid us
      → Present uid (update_row n f us)
  update-Present n f us same (u, row) = elim (ℕ_discrete uid n) [
    | yes here ↦ (
      f u,
      subst (λ m. row_by_id uid (update_row m f us) ≡ some (f u)) here
          (row_by_id-updated f uid us u same row),
    )
    | no other ↦ (u, row_by_id-update n f same uid us u other row)
  ]

  pub status-Present :
      (n : ℕ) (status : String) (db_ok : Bool) (s : Store)
      → Present uid s.rows
      → Present uid (update_user_status n status db_ok s).0.rows
  unfolding update_user_status
  status-Present n status true s p =
      update-Present n (λ u. record u { status = status }) s.rows (λ v. refl) p
  status-Present n status false s p = p

  pub limit-Present :
      (n limit : ℕ) (db_ok : Bool) (s : Store)
      → Present uid s.rows
      → Present uid (update_user_rate_limit n limit db_ok s).0.rows
  unfolding update_user_rate_limit
  limit-Present n limit true s p =
      update-Present n (λ u. record u { rate_limit = limit }) s.rows (λ v. refl) p
  limit-Present n limit false s p = p

  pub delete-Present :
      (n : ℕ) (db_ok : Bool) (s : Store)
      → uid ≢ n
      → Present uid s.rows
      → Present uid (delete_user n db_ok s).0.rows
  unfolding delete_user
  delete-Present n true s ne (u, row) = (u, row_by_id-delete n uid s.rows u ne row)
  delete-Present n false s ne p = p

  module _ (sha256_hex : String → String) where
    pub reset-Present :
        (n : ℕ) (raw_key : String) (s : Store)
        → Present uid s.rows
        → Present uid (reset_user_api_key sha256_hex n raw_key s).0.rows
    unfolding reset_user_api_key
    reset-Present n raw_key s p = elim (Option-cases (row_by_hash (sha256_hex raw_key) s.rows)) [
      | inl free ↦
          rw (free, reset_user_api_key)
            (update-Present n (λ u. record u { api_key = sha256_hex raw_key }) s.rows (λ v. refl) p)
      | inr (u, taken) ↦
          rw (taken, reset_user_api_key)
            (elim (Bool-cases (u.id == n)) [ inl own ↦ rw own p | inr other ↦ rw other p ])
    ]

    pub create-Present :
        (id : ℕ) (name raw_key : String) (limit : ℕ) (s : Store)
        → Present uid s.rows
        → Present uid (create_user sha256_hex id name raw_key limit s).0.rows
    unfolding create_user
    create-Present id name raw_key limit s (u, row) =
        elim (Option-cases (row_by_hash (sha256_hex raw_key) s.rows)) [
          | inl free ↦
              rw (free, create_user)
                (if_either {A = Store × Bool} (λ p. Present uid p.0.rows) (name_taken name s.rows) _
                  _ (λ _. (u, row)) (λ _. (u, row_by_id-append uid s.rows _ u row)))
          | inr (v, taken) ↦ rw (taken, create_user) (u, row)
        ]
