-- ===== src/Usage/Totals.antt =====
-- The panel's figures against the rows of the query (usage.go: buildUsagePanel).
use gateway.Prelude.{
  ℕ, ◌≡◌, ◌≢◌, refl, sym, ap, ◌∙◌, String, str_eq, eq_iff, true, false, Bool-cases, inl, inr, List,
  [], ◌∷◌, ◌++◌, map, append_assoc, append-nil, if◌then◌else◌, keep, arith,
}
use gateway.Usage.{
  UsageRow, UsageByModel, ClientUsage, by_model, new_client, add_usage, add_row, add_rows, largest,
  with_bar, build_usage_panel,
}

-- The rows of one client.
unfoldable pub rows_of : String → List UsageRow → List UsageRow
rows_of n = keep (λ r. str_eq r.user_name n)

-- The models listed under a client's name, none if it has no entry.
unfoldable pub models_of : String → List ClientUsage → List UsageByModel
models_of n [] = []
models_of n (c ∷ cs) = if str_eq c.name n then c.models else models_of n cs

new_models : String → UsageRow → List UsageByModel
new_models n r = if str_eq r.user_name n then by_model r ∷ [] else []

true_ne_false : true ≢ false
true_ne_false e = cc

-- Two different names are not both `n`.
other_name : (a b n : String) → str_eq a b ≡ false → str_eq a n ≡ true → str_eq b n ≡ false
other_name a b n h e = elim (Bool-cases (str_eq b n)) [
  | inl t ↦
      absurd (true_ne_false (sym ((eq_iff a b).1 ((eq_iff a n).0 e ∙ sym ((eq_iff b n).0 t))) ∙ h))
  | inr t ↦ t
]

same_name : (a b n : String) → str_eq a b ≡ true → str_eq b n ≡ str_eq a n
same_name a b n h = ap (λ x. str_eq x n) (sym ((eq_iff a b).0 h))

models_of-add_row :
    (n : String) (r : UsageRow) (cs : List ClientUsage)
    → models_of n (add_row r cs) ≡ models_of n cs ++ new_models n r
unfolding models_of add_row add_usage new_client new_models by_model
models_of-add_row n r [] = ground arith
models_of-add_row n r (c ∷ cs) = elim (Bool-cases (str_eq c.name r.user_name)) [
  | inl t ↦ elim (Bool-cases (str_eq c.name n)) [
    | inl u ↦ simp (t, u, same_name c.name r.user_name n t) refl
    | inr u ↦ simp (t, u, same_name c.name r.user_name n t) (sym (append-nil (models_of n cs)))
  ]
  | inr t ↦ elim (Bool-cases (str_eq c.name n)) [
    | inl u ↦ simp (t, u, other_name c.name r.user_name n t u) (sym (append-nil c.models))
    | inr u ↦ simp (t, u) (models_of-add_row n r cs)
  ]
]

new_models-rows_of :
    (n : String) (r : UsageRow) (rs : List UsageRow)
    → new_models n r ++ map by_model (rows_of n rs) ≡ map by_model (rows_of n (r ∷ rs))
unfolding new_models rows_of
new_models-rows_of n r rs = ground arith

models_of-add_rows :
    (n : String) (rs : List UsageRow) (cs : List ClientUsage)
    → models_of n (add_rows rs cs) ≡ models_of n cs ++ map by_model (rows_of n rs)
unfolding add_rows rows_of
models_of-add_rows n [] cs = sym (append-nil (models_of n cs))
models_of-add_rows n (r ∷ rs) cs =
    models_of-add_rows n rs (add_row r cs)
    ∙ ap (λ l. l ++ map by_model (rows_of n rs)) (models_of-add_row n r cs)
    ∙ append_assoc (models_of n cs) (new_models n r) (map by_model (rows_of n rs))
    ∙ ap (λ l. models_of n cs ++ l) (new_models-rows_of n r rs)

models_of-with_bar :
    (n : String) (m : ℕ) (cs : List ClientUsage)
    → models_of n (map (with_bar m) cs) ≡ models_of n cs
unfolding models_of with_bar
models_of-with_bar n m [] = refl
models_of-with_bar n m (c ∷ cs) =
    ap (λ l. if str_eq c.name n then c.models else l) (models_of-with_bar n m cs)

-- The panel lists under each client name exactly the rows of that name, in the order of the query, and
-- no entry for a name without rows.
pub panel-models_of :
    (n : String) (rows : List UsageRow) (window : String) (known : ℕ)
    → models_of n (build_usage_panel rows window known).clients ≡ map by_model (rows_of n rows)
unfolding build_usage_panel models_of
panel-models_of n rows window known =
    models_of-with_bar n (largest (add_rows rows []) 0) (add_rows rows [])
    ∙ models_of-add_rows n rows []
