-- ===== src/Users/Everyone.antt =====
-- What holds of every row, through the operations on the users' table (db.go).
use gateway.Prelude.{
  Bool-cases, ℕ, String, Bool, true, false, List, [], ◌∷◌, ◌++◌, ◌==◌, All, if_either, Option-cases,
  inl, inr,
}
use gateway.Users.{
  User, Store, row_by_hash, name_taken, update_row, delete_row, create_user, update_user_status,
  reset_user_api_key, update_user_rate_limit, delete_user, disabled,
}

All-append : {A : Type 0} (P : A → Type 0) (xs ys : List A) → All P xs → All P ys → All P (xs ++ ys)
All-append P [] ys a b = b
All-append P (x ∷ xs) ys a b = (a.0, All-append P xs ys a.1 b)

All-update :
    (P : User → Type 0) (n : ℕ) (f : User → User) (us : List User)
    → ((u : User) → P u → P (f u))
    → All P us
    → All P (update_row n f us)
unfolding update_row
All-update P n f [] k a = tt
All-update P n f (u ∷ us) k a =
    (if_either P (u.id == n) (f u) u (λ _. k u a.0) (λ _. a.0), All-update P n f us k a.1)

All-delete : (P : User → Type 0) (n : ℕ) (us : List User) → All P us → All P (delete_row n us)
unfolding delete_row
All-delete P n [] a = tt
All-delete P n (u ∷ us) a =
    let rest = All-delete P n us a.1 in
    if_either (All P) (u.id == n) (delete_row n us) (u ∷ delete_row n us) (λ _. rest)
      (λ _. (a.0, rest))

module _ (P : User → Type 0) where
  pub status-All :
      (n : ℕ) (status : String) (ok : Bool) (s : Store)
      → ((u : User) → P u → P (record u { status = status }))
      → All P s.rows
      → All P (update_user_status n status ok s).0.rows
  unfolding update_user_status
  status-All n status true s k a = All-update P n (λ u. record u { status = status }) s.rows k a
  status-All n status false s k a = a

  pub limit-All :
      (n limit : ℕ) (ok : Bool) (s : Store)
      → ((u : User) → P u → P (record u { rate_limit = limit }))
      → All P s.rows
      → All P (update_user_rate_limit n limit ok s).0.rows
  unfolding update_user_rate_limit
  limit-All n limit true s k a = All-update P n (λ u. record u { rate_limit = limit }) s.rows k a
  limit-All n limit false s k a = a

  pub delete-All :
      (n : ℕ) (ok : Bool) (s : Store) → All P s.rows → All P (delete_user n ok s).0.rows
  unfolding delete_user
  delete-All n true s a = All-delete P n s.rows a
  delete-All n false s a = a

  pub reset-All :
      (sha256_hex : String → String) (n : ℕ) (raw_key : String) (s : Store)
      → ((u : User) → P u → P (record u { api_key = sha256_hex raw_key }))
      → All P s.rows
      → All P (reset_user_api_key sha256_hex n raw_key s).0.rows
  unfolding reset_user_api_key
  reset-All sha256_hex n raw_key s k a =
      elim (Option-cases (row_by_hash (sha256_hex raw_key) s.rows)) [
        | inl free ↦
            rw (free, reset_user_api_key)
              (All-update P n (λ u. record u { api_key = sha256_hex raw_key }) s.rows k a)
        | inr (u, taken) ↦
            rw (taken, reset_user_api_key)
              (elim (Bool-cases (u.id == n)) [ inl own ↦ rw own a | inr other ↦ rw other a ])
      ]

  pub create-All :
      (sha256_hex : String → String) (id : ℕ) (name raw_key : String) (limit : ℕ) (s : Store)
      → P (record {
        id = id;
        name = name;
        api_key = sha256_hex raw_key;
        status = disabled;
        rate_limit = limit;
      })
      → All P s.rows
      → All P (create_user sha256_hex id name raw_key limit s).0.rows
  unfolding create_user
  create-All sha256_hex id name raw_key limit s new a =
      elim (Option-cases (row_by_hash (sha256_hex raw_key) s.rows)) [
        | inl free ↦
            rw (free, create_user)
              (if_either {A = Store × Bool} (λ p. All P p.0.rows) (name_taken name s.rows) _ _
                (λ _. a) (λ _. All-append P s.rows _ a (new, tt)))
        | inr (u, taken) ↦ rw (taken, create_user) a
      ]
