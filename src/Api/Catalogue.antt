-- ===== src/Api/Catalogue.antt =====
-- What a catalogue lists (api_handlers.go: handleListModels).
use gateway.Prelude.{
  ◌≡◌, refl, sym, ap, ◌∙◌, String, str_eq, eq_iff, eq_refl, Bool, true, false, not, ◌&&◌, ◌||◌,
  List, [], ◌∷◌, ◌++◌, ◌+◌, ◌==◌, ℕ, Option, none, some, if◌then◌else◌, Bool-cases, inl, inr, arith,
}
use gateway.Engine.{EngineConfig}
use gateway.Users.{User}
use gateway.Probe.{RawModel, ProbeData, model_name}
use gateway.Api.Models.{
  Model, Snapshot, lookup, owned, Candidate, candidates, reachable, Numbers, see, model_of, collect,
  Reply, error, catalogue, list_of, handle_list_models,
}

false_is_true : false ≡ true → ⊥
false_is_true h = cc

abbrev pub listed : String → List Model → Bool
listed x [] = false
listed x (m ∷ ms) = str_eq m.id x || listed x ms

-- Whether one of the candidates has the name, which is not blank.
abbrev pub offered : String → List Candidate → Bool
offered x [] = false
offered x (c ∷ cs) =
    not (str_eq (model_name c.raw) "") && str_eq (model_name c.raw) x || offered x cs

abbrev pub distinct : List Model → Bool
distinct [] = true
distinct (m ∷ ms) = not (listed m.id ms) && distinct ms

-- The step of the count, over Booleans: `b` is a blank name, `n` and `x` whether that name and the one
-- looked for were seen, `e` whether they are the same, and `o` whether the rest offers it.
skipped :
    (b n x e o : Bool)
    → (b || n) ≡ true
    → (e ≡ true → x ≡ n)
    → (not x && o) ≡ (not x && (not b && e || o))
skipped true n x e o h same = refl
skipped false true true e o h same = refl
skipped false true false true o h same = cc (same refl)
skipped false true false false o h same = refl
skipped false false x e o h same = absurd (false_is_true h)

taken :
    (b n x e o : Bool)
    → (b || n) ≡ false
    → (e ≡ true → x ≡ n)
    → (e || (not (e || x) && o)) ≡ (not x && (not b && e || o))
taken true n x e o h same = absurd (false_is_true (sym h))
taken false true x e o h same = absurd (false_is_true (sym h))
taken false false true true o h same = cc (same refl)
taken false false true false o h same = refl
taken false false false true o h same = refl
taken false false false false o h same = refl

-- Whether an engine is up, and whether one of its models has the name, which is not blank.
abbrev pub is_up : Option ProbeData → Bool
is_up none = false
is_up (some pd) = pd.status

abbrev pub named : String → List RawModel → Bool
named x [] = false
named x (m ∷ ms) = not (str_eq (model_name m) "") && str_eq (model_name m) x || named x ms

abbrev pub serves : String → Option ProbeData → Bool
serves x none = false
serves x (some pd) = pd.status && named x pd.raw

abbrev pub any_up : List EngineConfig → Snapshot → Bool
any_up [] snap = false
any_up (e ∷ es) snap = is_up (lookup e.id snap) || any_up es snap

abbrev pub served : String → List EngineConfig → Snapshot → Bool
served x [] snap = false
served x (e ∷ es) snap = serves x (lookup e.id snap) || served x es snap

-- The snapshot that is read: the warmed one where the first one is empty.
abbrev pub used : Snapshot → Snapshot → Snapshot
used [] warmed = warmed
used (p ∷ ps) warmed = p ∷ ps

abbrev pub Lists : String → List EngineConfig → Snapshot → Reply → Type 0
Lists x engines snap (error code) = (code ≡ 502) × (any_up engines snap ≡ false)
Lists x engines snap (catalogue models first last) =
    (any_up engines snap ≡ true)
    × (distinct models ≡ true)
    × (listed x models ≡ served x engines snap)

either_assoc : (a b c : Bool) → (a || (b || c)) ≡ ((a || b) || c)
either_assoc true b c = refl
either_assoc false b c = refl

offered-owned :
    (x t : String) (ms : List RawModel) (cs : List Candidate)
    → offered x (owned t ms ++ cs) ≡ (named x ms || offered x cs)
unfolding owned
offered-owned x t [] cs = refl
offered-owned x t (m ∷ ms) cs =
    let here = not (str_eq (model_name m) "") && str_eq (model_name m) x in
    ap (λ b. here || b) (offered-owned x t ms cs) ∙ either_assoc here (named x ms) (offered x cs)

offered_step :
    (x t : String) (o : Option ProbeData) (cs : List Candidate) (b : Bool)
    → offered x cs ≡ b
    → offered x (elim o [ none ↦ cs | some pd ↦ if pd.status then owned t pd.raw ++ cs else cs ])
      ≡ (serves x o || b)
offered_step x t none cs b h = h
offered_step x t (some pd) cs b h = elim (Bool-cases pd.status) [
  | inl up ↦ simp up (offered-owned x t pd.raw cs ∙ ap (λ c. named x pd.raw || c) h)
  | inr down ↦ simp down h
]

offered-candidates :
    (x : String) (es : List EngineConfig) (snap : Snapshot)
    → offered x (candidates es snap) ≡ served x es snap
unfolding candidates
offered-candidates x [] snap = refl
offered-candidates x (e ∷ es) snap =
    offered_step x e.type (lookup e.id snap) (candidates es snap) (served x es snap)
      (offered-candidates x es snap)

reachable_step :
    (o : Option ProbeData) (n : ℕ) (b : Bool)
    → (n == 0) ≡ not b
    → (elim o [ none ↦ n | some pd ↦ if pd.status then n + 1 else n ] == 0) ≡ not (is_up o || b)
reachable_step none n b h = h
reachable_step (some pd) n b h = elim (Bool-cases pd.status) [
  | inl up ↦ simp up (ground arith)
  | inr down ↦ simp down h
]

reachable-any_up :
    (es : List EngineConfig) (snap : Snapshot) → (reachable es snap == 0) ≡ not (any_up es snap)
unfolding reachable
reachable-any_up [] snap = refl
reachable-any_up (e ∷ es) snap =
    reachable_step (lookup e.id snap) (reachable es snap) (any_up es snap)
      (reachable-any_up es snap)

none_up : (b : Bool) → not b ≡ true → b ≡ false
none_up true h = absurd (false_is_true h)
none_up false h = refl

some_up : (b : Bool) → not b ≡ false → b ≡ true
some_up true h = refl
some_up false h = absurd (false_is_true (sym h))

module _ (numbers : Numbers) where
  listed-collect :
      (x : String) (cs : List Candidate) (seen : String → Bool)
      → listed x (collect numbers cs seen) ≡ (not (seen x) && offered x cs)
  unfolding collect model_of see
  listed-collect x [] seen = ground arith
  listed-collect x (c ∷ cs) seen =
      let n = model_name c.raw in
      let same = λ (e : str_eq n x ≡ true). ap seen (sym ((eq_iff n x).0 e)) in
      elim (Bool-cases (str_eq n "" || seen n)) [
        | inl skip ↦ simp skip (
            listed-collect x cs seen
            ∙ skipped (str_eq n "") (seen n) (seen x) (str_eq n x) (offered x cs) skip same)
        | inr fresh ↦ simp fresh (
            ap (λ b. str_eq n x || b) (listed-collect x cs (see n seen))
            ∙ taken (str_eq n "") (seen n) (seen x) (str_eq n x) (offered x cs) fresh same)
      ]

  distinct-collect :
      (cs : List Candidate) (seen : String → Bool) → distinct (collect numbers cs seen) ≡ true
  unfolding collect model_of see
  distinct-collect [] seen = refl
  distinct-collect (c ∷ cs) seen =
      let n = model_name c.raw in
      elim (Bool-cases (str_eq n "" || seen n)) [
        | inl skip ↦ simp skip (distinct-collect cs seen)
        | inr fresh ↦ simp fresh (
            ap (λ b. not b && distinct (collect numbers cs (see n seen)))
              (listed-collect n cs (see n seen)
                ∙ ap (λ b. not (b || seen n) && offered n cs) (eq_refl n))
            ∙ distinct-collect cs (see n seen))
      ]

  -- What the catalogue has.
  collect-Lists :
      (engines : List EngineConfig) (snap : Snapshot) (x : String)
      → let models = collect numbers (candidates engines snap) (λ y. false) in
        (distinct models ≡ true) × (listed x models ≡ served x engines snap)
  collect-Lists engines snap x = (
    distinct-collect (candidates engines snap) (λ y. false),
    listed-collect x (candidates engines snap) (λ y. false) ∙ offered-candidates x engines snap,
  )

  list_of-Lists :
      (x : String) (engines : List EngineConfig) (snap : Snapshot)
      → Lists x engines snap (list_of numbers engines snap)
  unfolding list_of
  list_of-Lists x engines snap = elim (Bool-cases (reachable engines snap == 0)) [
    | inl down ↦
        simp down (refl, none_up (any_up engines snap) (sym (reachable-any_up engines snap) ∙ down))
    | inr up ↦
        let (once, names) = collect-Lists engines snap x in
        simp up
          (some_up (any_up engines snap) (sym (reachable-any_up engines snap) ∙ up), once, names)
  ]

  -- What handleListModels answers to a user. With no engine up in the snapshot that it uses (the warmed
  -- one where there was none) it is 502. Otherwise it is a catalogue that has each model once, and has a
  -- name exactly if it is not blank and a model of an engine that is up has it.
  pub handle_list_models-Lists :
      (u : User) (engines : List EngineConfig) (snap warmed : Snapshot) (x : String)
      → Lists x engines (used snap warmed) (handle_list_models numbers (some u) engines snap warmed)
  unfolding handle_list_models
  handle_list_models-Lists u [] snap warmed x = (refl, refl)
  handle_list_models-Lists u (e ∷ es) [] warmed x = list_of-Lists x (e ∷ es) warmed
  handle_list_models-Lists u (e ∷ es) (p ∷ ps) warmed x = list_of-Lists x (e ∷ es) (p ∷ ps)
