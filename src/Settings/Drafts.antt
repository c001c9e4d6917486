-- ===== src/Settings/Drafts.antt =====
-- The test of a draft against what saving the same form stores (handlers.go: handleEngineTestDraft).
use gateway.Prelude.{
  ℕ, ◌≡◌, refl, sym, ap, subst, ◌∙◌, String, str_eq, eq_iff, true, false, Bool-cases, inl, inr,
  Option, none, some, List, [], ◌∷◌, ◌==◌, if◌then◌else◌,
}
use gateway.Engine.{EngineConfig, engine_ollama, engine_openai_compat}
use gateway.Settings.{
  blank, number, EngineForm, is_blank, clear_other_type, apply_engine_edit, edit_engine,
  created_config, find_engine, draft, draft_base, draft_config,
}
use gateway.Settings.Edits.{apply_engine_edit-id}

-- The two configs reach the same engine in the same way: all but the ID and the name is equal.
pub record IsSameEngine (e e' : EngineConfig) : Type 0 where
  pub same_type : e.type ≡ e'.type
  pub same_base_url : e.base_url ≡ e'.base_url
  pub same_port : e.port ≡ e'.port
  pub same_api_key : e.api_key ≡ e'.api_key

abbrev edited : (EngineConfig → EngineConfig) → Option EngineConfig → Option EngineConfig
edited f none = none
edited f (some e) = some (f e)

-- After an edit, if there is one, its ID has the edited engine.
HasEdited :
    ℕ → (EngineConfig → EngineConfig) → List EngineConfig → Option (List EngineConfig) → Type 0
HasEdited i f es none = Unit
HasEdited i f es (some es') = find_engine i es' ≡ edited f (find_engine i es)

cons-HasEdited :
    (i : ℕ) (f : EngineConfig → EngineConfig) (x : EngineConfig) (es : List EngineConfig)
    (o : Option (List EngineConfig))
    → (x.id == i) ≡ false
    → HasEdited i f es o
    → HasEdited i f (x ∷ es) (elim o [ none ↦ none | some es' ↦ some (x ∷ es') ])
unfolding HasEdited find_engine
cons-HasEdited i f x es none t h = tt
cons-HasEdited i f x es (some es') t h = rw t h

find_engine_head :
    (i : ℕ) (e : EngineConfig) (es : List EngineConfig)
    → (e.id == i) ≡ true
    → find_engine i (e ∷ es) ≡ some e
unfolding find_engine
find_engine_head i e es t = simp t

edit-HasEdited :
    (i : ℕ) (f : EngineConfig → EngineConfig) (es : List EngineConfig)
    → ((e : EngineConfig) → (f e).id ≡ e.id)
    → HasEdited i f es (edit_engine i f es)
unfolding HasEdited edit_engine find_engine
edit-HasEdited i f [] k = tt
edit-HasEdited i f (x ∷ es) k = elim (Bool-cases (x.id == i)) [
  | inl t ↦ rw t (
      find_engine_head i (f x) es (ap (λ n. n == i) (k x) ∙ t)
      ∙ sym (ap (edited f) (find_engine_head i x es t)))
  | inr t ↦ rw t (cons-HasEdited i f x es (edit_engine i f es) t (edit-HasEdited i f es k))
]

some_inj : {e e' : EngineConfig} → some e ≡ some e' → e ≡ e'
some_inj h = cc

-- The edit of a draft and the edit of the saved engine differ in the name alone.
edit-IsSameEngine :
    (t name url : String) (port : ℕ) (key : String) (e : EngineConfig)
    → IsSameEngine (apply_engine_edit t "" url port key e) (apply_engine_edit t name url port key e)
unfolding apply_engine_edit clear_other_type
edit-IsSameEngine t name url port key e = elim (Bool-cases (str_eq t engine_ollama)) [
  | inl u ↦
      simp u
        (record { same_type = refl; same_base_url = refl; same_port = refl; same_api_key = refl })
  | inr u ↦ elim (Bool-cases (str_eq t engine_openai_compat)) [
    | inl v ↦
        simp (u, v)
          (record { same_type = refl; same_base_url = refl; same_port = refl; same_api_key = refl })
    | inr v ↦
        simp (u, v)
          (record { same_type = refl; same_base_url = refl; same_port = refl; same_api_key = refl })
  ]
]

blank_key : (key : String) → (if is_blank key then "" else key) ≡ key
blank_key key = elim (Bool-cases (is_blank key)) [
  | inl t ↦ rw t (sym ((eq_iff key "").0 t))
  | inr t ↦ rw t refl
]

created-IsSameEngine :
    (t name url : String) (port : ℕ) (key : String) (id : ℕ)
    → IsSameEngine
        (apply_engine_edit t "" url port key draft)
        (created_config id t name url port key)
unfolding apply_engine_edit clear_other_type created_config
created-IsSameEngine t name url port key id = elim (Bool-cases (str_eq t engine_ollama)) [
  | inl u ↦
      simp u
        (record { same_type = refl; same_base_url = refl; same_port = refl; same_api_key = refl })
  | inr u ↦ elim (Bool-cases (str_eq t engine_openai_compat)) [
    | inl v ↦
        simp (u, v)
          (record {
            same_type = refl;
            same_base_url = refl;
            same_port = refl;
            same_api_key = blank_key key;
          })
    | inr v ↦
        simp (u, v)
          (record {
            same_type = refl;
            same_base_url = refl;
            same_port = refl;
            same_api_key = blank_key key;
          })
  ]
]

-- If the cached list is the stored one, then the config that the draft test probes agrees with the
-- engine that saving the same form stores, up to the ID and the name: the saved engine's own key where
-- the form leaves the key blank.
pub draft-edit :
    (f : EngineForm) (t url : String) (port id : ℕ) (es es' : List EngineConfig)
    (e e' : EngineConfig)
    → f.engine_id ≡ number id
    → find_engine id es ≡ some e
    → edit_engine id (apply_engine_edit t f.engine_name url port f.api_key) es ≡ some es'
    → find_engine id es' ≡ some e'
    → IsSameEngine (draft_config f t url port es) e'
unfolding draft_config draft_base HasEdited
draft-edit f t url port id es es' e e' n m q m' =
    rw (n, draft_base, m)
      (subst (IsSameEngine (apply_engine_edit t "" url port f.api_key e))
        (some_inj (sym (ap (edited change) m) ∙ sym stored ∙ m'))
        (edit-IsSameEngine t f.engine_name url port f.api_key e))
  where
    change : EngineConfig → EngineConfig
    change = apply_engine_edit t f.engine_name url port f.api_key

    stored : find_engine id es' ≡ edited change (find_engine id es)
    stored =
        subst (HasEdited id change es) q
          (edit-HasEdited id change es (apply_engine_edit-id t f.engine_name url port f.api_key))

-- For a form without an engine_id, the config that the draft test probes agrees with the engine that
-- saving the form creates, up to the ID and the name.
pub draft-create :
    (f : EngineForm) (t url : String) (port id : ℕ) (cached : List EngineConfig)
    → f.engine_id ≡ blank
    → IsSameEngine
        (draft_config f t url port cached)
        (created_config id t f.engine_name url port f.api_key)
unfolding draft_config draft_base
draft-create f t url port id cached b =
    rw b (created-IsSameEngine t f.engine_name url port f.api_key id)
