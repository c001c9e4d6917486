-- ===== src/Settings.antt =====
-- The admin page's engine forms (handlers.go: handleEngineSettings, handleEngineTestDraft,
-- handleRemoveEngine and their helpers; engine.go: saveEngines). The stored list is the JSON value of
-- the "engines" setting. A form holds its values as the handlers read them, after TrimSpace.
pub mod Edits
pub mod Drafts
pub mod Unique
pub mod Frames
use gateway.Prelude.{
  ℕ, ◌+◌, String, str_eq, Bool, true, false, not, Option, none, some, List, [], ◌∷◌, ◌++◌, map,
  ◌==◌, ltb, leb, if◌then◌else◌, length, keep, ◌||◌,
}
use gateway.Engine.{
  EngineConfig, EngineCache, engine_ollama, engine_openai_compat, reload_engine_cache,
}

-- A form value as strconv.Atoi reads it.
pub data IntField : Type 0 where
  blank : IntField
  malformed : IntField
  negative : IntField
  number : ℕ → IntField

pub record EngineForm : Type 0 where
  pub engine_name : String
  pub api_key : String
  pub base_url : String
  pub engine_type : String
  pub engine_id : IntField
  pub port : IntField

-- The flashes, and the redirects of a missing session and of a form that does not parse.
pub data Reply : Type 0 where
  to_login : Reply
  unreadable_form : Reply
  invalid_type : Reply
  url_required : Reply
  port_required : Reply
  port_out_of_range : Reply
  invalid_id : Reply
  id_required : Reply
  read_failed : Reply
  not_found : Reply
  name_required : Reply
  save_failed : Reply
  created : Reply
  updated : Reply
  removed : Reply

pub data Fields : Type 0 where
  rejected : Reply → Fields
  valid : String → String → ℕ → Fields

abbrev pub is_blank : String → Bool
is_blank s = str_eq s ""

unfoldable pub port_field : String → String → IntField → Fields
port_field t url blank = rejected port_required
port_field t url malformed = rejected port_out_of_range
port_field t url negative = rejected port_out_of_range
port_field t url (number p) =
    if ltb p 1 || ltb 65535 p then rejected port_out_of_range else valid t url p

-- engineFormFields
unfoldable pub engine_form_fields : EngineForm → Fields
engine_form_fields f =
    if str_eq f.engine_type engine_ollama
    then if is_blank f.base_url
      then rejected url_required
      else port_field f.engine_type f.base_url f.port
    else if str_eq f.engine_type engine_openai_compat
    then if is_blank f.base_url then rejected url_required else valid f.engine_type f.base_url 11434
    else rejected invalid_type

-- The `switch` at the end of applyEngineEdit.
unfoldable pub clear_other_type : String → ℕ → EngineConfig → EngineConfig
clear_other_type t port e =
    if str_eq t engine_ollama
    then record e { port = port; api_key = "" }
    else if str_eq t engine_openai_compat
    then record e { port = 0 }
    else e

-- applyEngineEdit, with the arguments after the engine first.
unfoldable pub apply_engine_edit :
    String → String → String → ℕ → String → EngineConfig → EngineConfig
unfolding clear_other_type
apply_engine_edit t name url port api_key e = clear_other_type t port (record e {
  type = t;
  base_url = url;
  name = if is_blank name then e.name else name;
  api_key = if is_blank api_key then e.api_key else api_key;
})

-- The loop that edits the first engine of an ID; `none` is `!found`.
unfoldable pub edit_engine :
    ℕ → (EngineConfig → EngineConfig) → List EngineConfig → Option (List EngineConfig)
edit_engine id f [] = none
edit_engine id f (e ∷ es) =
    let rest = edit_engine id f es in
    if e.id == id then some (f e ∷ es) else elim rest [ none ↦ none | some es' ↦ some (e ∷ es') ]

unfoldable pub next_id : ℕ → List EngineConfig → ℕ
next_id n [] = n
next_id n (e ∷ es) = next_id (if leb n e.id then e.id + 1 else n) es

unfoldable pub created_config : ℕ → String → String → String → ℕ → String → EngineConfig
created_config id t name url port api_key =
    if str_eq t engine_ollama
    then record { id = id; name = name; type = t; base_url = url; port = port; api_key = "" }
    else record { id = id; name = name; type = t; base_url = url; port = 0; api_key = api_key }

-- What the database does during one request.
pub record Answers : Type 0 where
  pub reads : Bool
  pub writes : Bool
  pub reads_again : Bool

pub record Settings : Type 0 where
  pub stored : List EngineConfig
  pub cache : EngineCache

-- saveEngines: the write, then reloadEngineCache. `Bool` says that no error came back.
unfoldable pub save_engines : ℕ → Answers → List EngineConfig → Settings → Bool × Settings
save_engines slots a es s =
    if a.writes
    then if a.reads_again
      then (true, record { stored = es; cache = reload_engine_cache slots (some es) })
      else (false, record { stored = es; cache = reload_engine_cache slots none })
    else (false, s)

unfoldable pub saved : Reply → Bool × Settings → Reply × Settings
saved r p = (if p.0 then r else save_failed, p.1)

unfoldable pub create_engine :
    ℕ → Answers → EngineForm → String → String → ℕ → Settings → Reply × Settings
create_engine slots a f t url port s =
    if is_blank f.engine_name
    then (name_required, s)
    else saved created (
        save_engines slots a
          (s.stored ++ created_config (next_id 1 s.stored) t f.engine_name url port f.api_key ∷ [])
          s)

unfoldable pub store_edit : ℕ → Answers → Option (List EngineConfig) → Settings → Reply × Settings
store_edit slots a none s = (not_found, s)
store_edit slots a (some es) s = saved updated (save_engines slots a es s)

unfoldable pub update_engine :
    ℕ → Answers → EngineForm → ℕ → String → String → ℕ → Settings → Reply × Settings
unfolding store_edit
update_engine slots a f id t url port s =
    store_edit slots a
      (edit_engine id (apply_engine_edit t f.engine_name url port f.api_key) s.stored) s

-- What handleEngineSettings does with an accepted form, by its engine_id.
unfoldable pub store_engine :
    ℕ → Answers → EngineForm → IntField → String → String → ℕ → Settings → Reply × Settings
unfolding create_engine update_engine
store_engine slots a f malformed t url port s = (invalid_id, s)
store_engine slots a f blank t url port s =
    if a.reads then create_engine slots a f t url port s else (read_failed, s)
store_engine slots a f negative t url port s = (if a.reads then not_found else read_failed, s)
store_engine slots a f (number id) t url port s =
    if a.reads then update_engine slots a f id t url port s else (read_failed, s)

unfoldable pub with_fields : ℕ → Answers → EngineForm → Fields → Settings → Reply × Settings
with_fields slots a f (rejected r) s = (r, s)
with_fields slots a f (valid t url port) s = store_engine slots a f f.engine_id t url port s

-- A request as the two guards of an admin handler see it.
pub record Request : Type 0 where
  pub is_admin : Bool
  pub parses : Bool
  pub form : EngineForm

unfoldable pub guarded : Request → Settings → Reply × Settings → Reply × Settings
guarded q s answer =
    if q.is_admin then if q.parses then answer else (unreadable_form, s) else (to_login, s)

unfoldable pub handle_engine_settings : ℕ → Answers → Request → Settings → Reply × Settings
handle_engine_settings slots a q s =
    guarded q s (with_fields slots a q.form (engine_form_fields q.form) s)

unfoldable pub other_engines : ℕ → List EngineConfig → List EngineConfig
other_engines id = keep (λ e. not (e.id == id))

-- The part of handleRemoveEngine from the filter on.
unfoldable pub remove_engine : ℕ → Answers → ℕ → Settings → Reply × Settings
remove_engine slots a id s =
    if length (other_engines id s.stored) == length s.stored
    then (not_found, s)
    else saved removed (save_engines slots a (other_engines id s.stored) s)

unfoldable pub remove_by_field : ℕ → Answers → IntField → Settings → Reply × Settings
unfolding remove_engine
remove_by_field slots a blank s = (id_required, s)
remove_by_field slots a malformed s = (invalid_id, s)
remove_by_field slots a negative s = (if a.reads then not_found else read_failed, s)
remove_by_field slots a (number id) s =
    if a.reads then remove_engine slots a id s else (read_failed, s)

unfoldable pub handle_remove_engine : ℕ → Answers → Request → Settings → Reply × Settings
handle_remove_engine slots a q s = guarded q s (remove_by_field slots a q.form.engine_id s)

-- The saved engine of an ID, as the loop of handleEngineTestDraft finds it.
unfoldable pub find_engine : ℕ → List EngineConfig → Option EngineConfig
find_engine id [] = none
find_engine id (e ∷ es) = if e.id == id then some e else find_engine id es

abbrev pub draft : EngineConfig
draft = record { id = 0; name = "draft"; type = ""; base_url = ""; port = 0; api_key = "" }

unfoldable pub draft_base : IntField → List EngineConfig → EngineConfig
draft_base (number id) cached = elim (find_engine id cached) [ none ↦ draft | some e ↦ e ]
draft_base blank cached = draft
draft_base malformed cached = draft
draft_base negative cached = draft

-- The config that handleEngineTestDraft tests.
unfoldable pub draft_config : EngineForm → String → String → ℕ → List EngineConfig → EngineConfig
draft_config f t url port cached =
    apply_engine_edit t "" url port f.api_key (draft_base f.engine_id cached)

-- findOllamaEngine: 0 stands for no choice.
unfoldable pub find_ollama_engine : ℕ → List EngineConfig → Option EngineConfig
find_ollama_engine want [] = none
find_ollama_engine want (e ∷ es) =
    if str_eq e.type engine_ollama
    then if (want == 0) || (e.id == want) then some e else find_ollama_engine want es
    else find_ollama_engine want es
