-- ===== src/Settings/Edits.antt =====
-- What the engine forms do to the stored list and the cache on every branch (handlers.go, engine.go).
use gateway.Prelude.{
  ℕ, ◌≡◌, refl, String, str_eq, Bool, true, false, Option, none, some, List, [], ◌∷◌, ◌++◌, ◌==◌,
  ltb, if◌then◌else◌, length, arith, ◌||◌,
}
use gateway.Engine.{EngineConfig, engine_ollama, engine_openai_compat}
use gateway.Settings.{
  IntField, blank, malformed, negative, number, EngineForm, Reply, not_found, read_failed,
  save_failed, created, updated, removed, Fields, rejected, valid, is_blank, port_field,
  engine_form_fields, clear_other_type, apply_engine_edit, edit_engine, next_id, created_config,
  Answers, Settings, save_engines, saved, create_engine, store_edit, update_engine, store_engine,
  with_fields, Request, guarded, handle_engine_settings, other_engines, remove_engine,
  remove_by_field, handle_remove_engine,
}

-- The replies after which the list may have been written.
unfoldable pub is_saved : Reply → Bool
is_saved save_failed = true
is_saved created = true
is_saved updated = true
is_saved removed = true
is_saved _ = false

-- The replies that announce a change.
unfoldable pub is_success : Reply → Bool
is_success created = true
is_success updated = true
is_success removed = true
is_success _ = false

-- The list that a form with this engine_id asks for.
pub data Change (field : IntField) (es es' : List EngineConfig) : Type 0 where
  appends :
      (x : EngineConfig)
      → x.id ≡ next_id 1 es
      → field ≡ blank
      → es' ≡ es ++ x ∷ []
      → Change field es es'
  edits :
      (id : ℕ) (f : EngineConfig → EngineConfig)
      → ((e : EngineConfig) → (f e).id ≡ e.id)
      → field ≡ number id
      → edit_engine id f es ≡ some es'
      → Change field es es'
  drops : (id : ℕ) → field ≡ number id → es' ≡ other_engines id es → Change field es es'

pub data Outcome (slots : ℕ) (a : Answers) (field : IntField) (s : Settings) (p : Reply × Settings)
    : Type 0 where
  refuses : (r : Reply) → is_saved r ≡ false → p ≡ (r, s) → Outcome slots a field s p
  saves :
      (r : Reply) (es : List EngineConfig)
      → is_success r ≡ true
      → Change field s.stored es
      → p ≡ saved r (save_engines slots a es s)
      → Outcome slots a field s p

pub apply_engine_edit-id :
    (t name url : String) (port : ℕ) (key : String) (e : EngineConfig)
    → (apply_engine_edit t name url port key e).id ≡ e.id
unfolding apply_engine_edit clear_other_type
apply_engine_edit-id t name url port key e = ground arith

created_config-id :
    (id : ℕ) (t name url : String) (port : ℕ) (key : String)
    → (created_config id t name url port key).id ≡ id
unfolding created_config
created_config-id id t name url port key = ground arith

module _ (slots : ℕ) (a : Answers) (s : Settings) where
  if-Outcome :
      (field : IntField) (b : Bool) (p p' : Reply × Settings)
      → Outcome slots a field s p
      → Outcome slots a field s p'
      → Outcome slots a field s (if b then p else p')
  if-Outcome field true p p' h h' = h
  if-Outcome field false p p' h h' = h'

  create_engine-Outcome :
      (f : EngineForm) (t url : String) (port : ℕ)
      → Outcome slots a blank s (create_engine slots a f t url port s)
  unfolding create_engine is_saved is_success
  create_engine-Outcome f t url port =
      if-Outcome blank (is_blank f.engine_name) _ _ (refuses _ refl refl) (
        saves created _ refl
          (appends _ (created_config-id (next_id 1 s.stored) t f.engine_name url port f.api_key)
            refl refl)
          refl)

  store_edit-Outcome :
      (f : EngineForm) (id : ℕ) (t url : String) (port : ℕ) (o : Option (List EngineConfig))
      → edit_engine id (apply_engine_edit t f.engine_name url port f.api_key) s.stored ≡ o
      → Outcome slots a (number id) s (store_edit slots a o s)
  unfolding store_edit is_saved is_success
  store_edit-Outcome f id t url port none e = refuses _ refl refl
  store_edit-Outcome f id t url port (some es) e =
      saves updated es refl
        (edits id _ (apply_engine_edit-id t f.engine_name url port f.api_key) refl e) refl

  store_engine-Outcome :
      (f : EngineForm) (field : IntField) (t url : String) (port : ℕ)
      → Outcome slots a field s (store_engine slots a f field t url port s)
  unfolding store_engine is_saved update_engine
  store_engine-Outcome f malformed t url port = refuses _ refl refl
  store_engine-Outcome f blank t url port =
      if-Outcome blank a.reads _ _ (create_engine-Outcome f t url port) (refuses _ refl refl)
  store_engine-Outcome f negative t url port =
      elim a.reads as (λ b. Outcome slots a negative s (if b then not_found else read_failed, s)) [
        | true ↦ refuses _ refl refl
        | false ↦ refuses _ refl refl
      ]
  store_engine-Outcome f (number id) t url port =
      if-Outcome (number id) a.reads _ _ (store_edit-Outcome f id t url port _ refl)
        (refuses _ refl refl)

  -- A form that is turned away is answered by an error.
  AnswersError : Fields → Type 0
  AnswersError (rejected r) = is_saved r ≡ false
  AnswersError (valid t url port) = Unit

  if-AnswersError :
      (b : Bool) (x y : Fields)
      → AnswersError x
      → AnswersError y
      → AnswersError (if b then x else y)
  if-AnswersError true x y h h' = h
  if-AnswersError false x y h h' = h'

  port_field-AnswersError : (t url : String) (p : IntField) → AnswersError (port_field t url p)
  unfolding port_field is_saved AnswersError
  port_field-AnswersError t url blank = refl
  port_field-AnswersError t url malformed = refl
  port_field-AnswersError t url negative = refl
  port_field-AnswersError t url (number p) = if-AnswersError (ltb p 1 || ltb 65535 p) _ _ refl tt

  engine_form_fields-AnswersError : (f : EngineForm) → AnswersError (engine_form_fields f)
  unfolding engine_form_fields is_saved AnswersError
  engine_form_fields-AnswersError f =
      if-AnswersError (str_eq f.engine_type engine_ollama) _ _
        (if-AnswersError (is_blank f.base_url) _ _ refl
          (port_field-AnswersError f.engine_type f.base_url f.port))
        (if-AnswersError (str_eq f.engine_type engine_openai_compat) _ _
          (if-AnswersError (is_blank f.base_url) _ _ refl tt) refl)

  with_fields-Outcome :
      (f : EngineForm) (x : Fields)
      → AnswersError x
      → Outcome slots a f.engine_id s (with_fields slots a f x s)
  unfolding with_fields AnswersError
  with_fields-Outcome f (rejected r) h = refuses r h refl
  with_fields-Outcome f (valid t url port) h = store_engine-Outcome f f.engine_id t url port

  guarded-Outcome :
      (q : Request) (p : Reply × Settings)
      → Outcome slots a q.form.engine_id s p
      → Outcome slots a q.form.engine_id s (guarded q s p)
  unfolding guarded is_saved
  guarded-Outcome q p h =
      if-Outcome _ q.is_admin _ _ (if-Outcome _ q.parses _ _ h (refuses _ refl refl))
        (refuses _ refl refl)

  -- Every request to save an engine either leaves the settings alone and answers an error, or saves a
  -- list that differs from the stored one by the appended engine or by the edited one.
  pub settings-Outcome :
      (q : Request) → Outcome slots a q.form.engine_id s (handle_engine_settings slots a q s)
  unfolding handle_engine_settings
  settings-Outcome q = guarded-Outcome q _ (
      with_fields-Outcome q.form (engine_form_fields q.form)
        (engine_form_fields-AnswersError q.form))

  remove_by_field-Outcome :
      (field : IntField) → Outcome slots a field s (remove_by_field slots a field s)
  unfolding remove_by_field remove_engine is_saved is_success
  remove_by_field-Outcome blank = refuses _ refl refl
  remove_by_field-Outcome malformed = refuses _ refl refl
  remove_by_field-Outcome negative =
      elim a.reads as (λ b. Outcome slots a negative s (if b then not_found else read_failed, s)) [
        | true ↦ refuses _ refl refl
        | false ↦ refuses _ refl refl
      ]
  remove_by_field-Outcome (number id) =
      if-Outcome _ a.reads _ _
        (if-Outcome _ (length (other_engines id s.stored) == length s.stored) _ _
          (refuses _ refl refl) (saves removed _ refl (drops id refl refl) refl))
        (refuses _ refl refl)

  pub remove-Outcome :
      (q : Request) → Outcome slots a q.form.engine_id s (handle_remove_engine slots a q s)
  unfolding handle_remove_engine
  remove-Outcome q = guarded-Outcome q _ (remove_by_field-Outcome q.form.engine_id)
