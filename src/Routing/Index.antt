-- ===== src/Routing/Index.antt =====
-- The index does not depend on the order in which the engines answer, and the lowest engine wins.
use mathlib.Core.List.{Perm, Permᴰ}
use mathlib.Core.Logic.{∥∥₁_elim}
use gateway.Prelude.{
  ℕ, String, str_eq, ◌≡◌, refl, sym, ap, ◌∙◌, false, List, [], ◌∷◌, ◌++◌, arith, if◌then◌else◌,
  append-nil, append_assoc,
}
use gateway.Routing.{
  RouteIndex, Answer, append_id, append_models, merge_answer, merge_answers, insert_sorted, sort,
  build_route_index,
}

-- An engine's id, once for each time that it lists the model.
pub listed : String → ℕ → List String → List ℕ
listed name id [] = []
listed name id (n ∷ ns) = if str_eq n name then id ∷ listed name id ns else listed name id ns

pub ids_for : String → List Answer → List ℕ
ids_for name [] = []
ids_for name (a ∷ rest) =
    if a.up then listed name a.engine a.models ++ ids_for name rest else ids_for name rest

append_models-listed :
    (ns : List String) (id : ℕ) (m : String → List ℕ) (name : String)
    → append_models ns id m name ≡ m name ++ listed name id ns
unfolding append_models listed append_id
append_models-listed [] id m name = sym (append-nil (m name))
append_models-listed (n ∷ ns) id m name = ground (
  arith,
  append_models-listed ns id (append_id n id m) name,
  append_assoc (m name) (id ∷ []) (listed name id ns),
)

merge_answers-ids_for :
    (answers : List Answer) (idx : RouteIndex) (name : String)
    → (merge_answers answers idx).by_model name ≡ idx.by_model name ++ ids_for name answers
unfolding merge_answers merge_answer ids_for
merge_answers-ids_for [] idx name = sym (append-nil (idx.by_model name))
merge_answers-ids_for (a ∷ rest) idx name = ground (
  arith,
  merge_answers-ids_for rest (merge_answer a idx) name,
  append_models-listed a.models a.engine idx.by_model name,
  append_assoc (idx.by_model name) (listed name a.engine a.models) (ids_for name rest),
)

-- A model's entry is the sorted list of the engines that answered with it.
by_model-build :
    (now : ℕ) (arrivals : List Answer) (name : String)
    → (build_route_index now arrivals).by_model name ≡ sort (ids_for name arrivals)
unfolding build_route_index
by_model-build now arrivals name = ap sort (
    merge_answers-ids_for arrivals (record { by_model = λ n. []; built = now; probed = false })
      name)

insert_sorted_comm :
    (x y : ℕ) (zs : List ℕ)
    → insert_sorted x (insert_sorted y zs) ≡ insert_sorted y (insert_sorted x zs)
unfolding insert_sorted
insert_sorted_comm x y [] = ground arith
insert_sorted_comm x y (z ∷ zs) = ground (arith, insert_sorted_comm x y zs)

sort-append : (xs ys zs : List ℕ) → sort ys ≡ sort zs → sort (xs ++ ys) ≡ sort (xs ++ zs)
unfolding sort
sort-append [] ys zs e = e
sort-append (x ∷ xs) ys zs e = ap (insert_sorted x) (sort-append xs ys zs e)

insert-past : (x : ℕ) (xs ys : List ℕ) → sort (xs ++ x ∷ ys) ≡ insert_sorted x (sort (xs ++ ys))
unfolding sort
insert-past x [] ys = refl
insert-past x (y ∷ xs) ys =
    ap (insert_sorted y) (insert-past x xs ys) ∙ insert_sorted_comm y x (sort (xs ++ ys))

sort-swap : (xs ys zs : List ℕ) → sort (xs ++ (ys ++ zs)) ≡ sort (ys ++ (xs ++ zs))
unfolding sort
sort-swap [] ys zs = refl
sort-swap (x ∷ xs) ys zs =
    ap (insert_sorted x) (sort-swap xs ys zs) ∙ sym (insert-past x ys (xs ++ zs))

ids_swap :
    (name : String) (a b : Answer) (rest : List Answer)
    → sort (ids_for name (a ∷ b ∷ rest)) ≡ sort (ids_for name (b ∷ a ∷ rest))
unfolding ids_for
ids_swap name a b rest = ground (
  arith,
  sort-swap (listed name a.engine a.models) (listed name b.engine b.models) (ids_for name rest),
)

ids_cons :
    (name : String) (a : Answer) (xs ys : List Answer)
    → sort (ids_for name xs) ≡ sort (ids_for name ys)
    → sort (ids_for name (a ∷ xs)) ≡ sort (ids_for name (a ∷ ys))
unfolding ids_for
ids_cons name a xs ys e =
    ground
      (arith, sort-append (listed name a.engine a.models) (ids_for name xs) (ids_for name ys) e)

ids_permuted :
    (name : String) {xs ys : List Answer}
    → Permᴰ xs ys
    → sort (ids_for name xs) ≡ sort (ids_for name ys)
ids_permuted name Permᴰ.nil = refl
ids_permuted name (Permᴰ.cons {a = a} {b = b} {l₁ = xs} {l₂ = ys} same p) =
    rw (← same) (ids_cons name a xs ys (ids_permuted name p))
ids_permuted name (Permᴰ.swap {a = a} {b = b} {l = l} p q) = rw (← p, ← q) (ids_swap name a b l)
ids_permuted name (Permᴰ.trans p q) = ids_permuted name p ∙ ids_permuted name q

List_ℕ-set : IsSet (List ℕ)
List_ℕ-set = hlevel

-- Whatever the order in which the engines answer, every model is routed to the same engines.
pub by_model-perm :
    (now : ℕ) (xs ys : List Answer) (name : String)
    → Perm xs ys
    → (build_route_index now xs).by_model name ≡ (build_route_index now ys).by_model name
by_model-perm now xs ys name p =
    by_model-build now xs name
    ∙ ∥∥₁_elim p (List_ℕ-set _ _) (λ d. ids_permuted name d)
    ∙ sym (by_model-build now ys name)
