-- ===== src/OpenAi/Allowed.antt =====
-- What an OpenAI-compatible engine gets of a client's request (api_handlers.go:
-- openAICompatRequest).
use gateway.Prelude.{
  ◌≡◌, refl, sym, ap, ◌∙◌, String, str_eq, eq_iff, Bool, true, false, ◌&&◌, Bool-cases, inl, inr,
  List, if◌then◌else◌,
}
use gateway.Json.{
  Json, null, boolean, array, object, Fields, no_fields, field, get, has, set, as_bool, as_fields,
  objects,
}
use gateway.Json.Maps.{get-set, get-has}
use gateway.OpenAi.Request.{
  among, allowed_keys, copy_allowed, stream_options, open_ai_compat_request,
}

get-copy_allowed :
    (key : String) (body req : Fields)
    → get key (copy_allowed body req)
      ≡ (if among key allowed_keys && has key body then get key body else get key req)
unfolding get has copy_allowed
get-copy_allowed key no_fields req = elim (Bool-cases (among key allowed_keys)) [
  | inl a ↦ simp a refl
  | inr a ↦ simp a refl
]
get-copy_allowed key (field k v rest) req = elim (Bool-cases (str_eq key k)) [
  | inl e ↦ same ((eq_iff key k).0 e) e (get-copy_allowed key rest req)
  | inr e ↦ elim (Bool-cases (among k allowed_keys)) [
    | inl a ↦ simp (a, get-set k key v (copy_allowed rest req), e) (get-copy_allowed key rest req)
    | inr a ↦ simp (a, e) (get-copy_allowed key rest req)
  ]
]
  where
    same :
        key ≡ k
        → str_eq key k ≡ true
        → get key (copy_allowed rest req)
          ≡ (if among key allowed_keys && has key rest then get key rest else get key req)
        → get key (copy_allowed (field k v rest) req) ≡ (
            if among key allowed_keys && has key (field k v rest)
            then get key (field k v rest)
            else get key req)
    same p e ih = elim (Bool-cases (among k allowed_keys)) [
      | inl a ↦
          let b : among key allowed_keys ≡ true = ap (λ (j : String). among j allowed_keys) p ∙ a in
          simp (a, b, e, get-set k key v (copy_allowed rest req)) refl
      | inr a ↦
          let b : among key allowed_keys ≡ false =
            ap (λ (j : String). among j allowed_keys) p ∙ a in
          simp (a, b) (ih ∙ rw b refl)
    ]

not_allowed :
    (key : String) (body req : Fields)
    → among key allowed_keys ≡ false
    → get key (copy_allowed body req) ≡ get key req
not_allowed key body req a = get-copy_allowed key body req ∙ rw a refl

-- The parameters that openAICompatRequest sets itself.
abbrev base : Fields → List Fields → Fields
base body messages = field "model" (get "model" body) (
    field "messages" (array (objects messages))
      (field "stream" (boolean (as_bool (get "stream" body))) no_fields))

model_reserved : among "model" allowed_keys ≡ false
unfolding among
model_reserved = refl

messages_reserved : among "messages" allowed_keys ≡ false
unfolding among
messages_reserved = refl

stream_reserved : among "stream" allowed_keys ≡ false
unfolding among
stream_reserved = refl

stream_options_reserved : among "stream_options" allowed_keys ≡ false
unfolding among
stream_options_reserved = refl

reserved :
    (key k : String) (body : Fields) (messages : List Fields)
    → str_eq key k ≡ true
    → among k allowed_keys ≡ false
    → get key (copy_allowed body (base body messages)) ≡ get k (base body messages)
reserved key k body messages e a =
    let p = (eq_iff key k).0 e in
    ap (λ (j : String). get j (copy_allowed body (base body messages))) p
    ∙ not_allowed k body (base body messages) a

-- What the engine reads under a key.
unfoldable pub expected : String → Fields → List Fields → Json
expected key body messages =
    if str_eq key "stream_options"
    then if as_bool (get "stream" body)
      then object (set "include_usage" (boolean true) (as_fields (get "stream_options" body)))
      else null
    else if str_eq key "model"
    then get "model" body
    else if str_eq key "messages"
    then array (objects messages)
    else if str_eq key "stream"
    then boolean (as_bool (get "stream" body))
    else if among key allowed_keys
    then get key body
    else null

either :
    (a h : Bool) {v w : Json}
    → (h ≡ false → v ≡ null)
    → w ≡ null
    → (if a && h then v else w) ≡ (if a then v else null)
either true true n e = refl
either true false n e = e ∙ sym (n refl)
either false h n e = e

copied :
    (key : String) (body : Fields) (messages : List Fields)
    → str_eq key "stream_options" ≡ false
    → get key (copy_allowed body (base body messages)) ≡ expected key body messages
unfolding expected get
copied key body messages n = elim (Bool-cases (str_eq key "model")) [
  | inl e ↦ simp (n, e) (reserved key "model" body messages e model_reserved)
  | inr m ↦ elim (Bool-cases (str_eq key "messages")) [
    | inl e ↦ simp (n, m, e) (reserved key "messages" body messages e messages_reserved)
    | inr l ↦ elim (Bool-cases (str_eq key "stream")) [
      | inl e ↦ simp (n, m, l, e) (reserved key "stream" body messages e stream_reserved)
      | inr t ↦
          simp (n, m, l, t)
            (get-copy_allowed key body (base body messages)
              ∙ either (among key allowed_keys) (has key body) (get-has key body)
                  (simp (m, l, t) refl))
    ]
  ]
]

no_options :
    (key : String) (body : Fields) (messages : List Fields)
    → str_eq key "stream_options" ≡ true
    → get key (copy_allowed body (base body messages)) ≡ null
unfolding get
no_options key body messages e =
    reserved key "stream_options" body messages e stream_options_reserved

plain :
    (key : String) (body : Fields) (messages : List Fields)
    → as_bool (get "stream" body) ≡ false
    → get key (copy_allowed body (base body messages)) ≡ expected key body messages
plain key body messages f = elim (Bool-cases (str_eq key "stream_options")) [
  | inl e ↦ no_options key body messages e ∙ unfold expected in simp (e, f) refl
  | inr n ↦ copied key body messages n
]

streamed :
    (key : String) (body : Fields) (messages : List Fields)
    → as_bool (get "stream" body) ≡ true
    → get key (
        set "stream_options"
          (object (stream_options body))
          (copy_allowed body (base body messages)))
      ≡ expected key body messages
streamed key body messages t =
    get-set "stream_options" key (object (stream_options body))
      (copy_allowed body (base body messages))
    ∙ elim (Bool-cases (str_eq key "stream_options")) [
      | inl e ↦ simp e (unfold expected stream_options in simp (e, t) refl)
      | inr n ↦ simp n (copied key body messages n)
    ]

get_chosen :
    (key : String) (b : Bool) (x y : Fields) {v : Json}
    → (b ≡ true → get key x ≡ v)
    → (b ≡ false → get key y ≡ v)
    → get key (if b then x else y) ≡ v
get_chosen key true x y t f = t refl
get_chosen key false x y t f = f refl

-- An engine of this type reads what the allow-list lets through of the client's parameters, and
-- nothing else of them: the sanitized messages, a Boolean stream, and with a stream the client's
-- stream_options with include_usage forced on.
pub get-open_ai_compat_request :
    (key : String) (body : Fields) (messages : List Fields)
    → get key (open_ai_compat_request body messages) ≡ expected key body messages
unfolding open_ai_compat_request
get-open_ai_compat_request key body messages =
    get_chosen key (as_bool (get "stream" body)) _ _ (streamed key body messages)
      (plain key body messages)
