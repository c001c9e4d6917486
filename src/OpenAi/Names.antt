-- ===== src/OpenAi/Names.antt =====
-- Which tool a tool result is linked to (openai.go: ollamaMessages).
use gateway.Prelude.{
  ◌≡◌, refl, sym, ap, ◌∙◌, true, not, ◌&&◌, Option, none, some, List, [], ◌∷◌, ◌++◌, append_assoc,
  append-nil, length, get_elem?, if◌then◌else◌, arith, map,
}
use gateway.Text.{Bytes}
use gateway.Json.Maps.{get-set}
use gateway.Json.{
  Json, null, text, array, Items, no_items, item, Fields, get, is, as_fields, as_items, as_string,
  bytes_eq, elements,
}
use gateway.OpenAi.History.{
  Names, no_names, id_of, name_of, is_blank, remember, tool_name_of, with_calls, with_tool_name,
  opening, with_images, flatten_content, convert_calls, convert_message, convert_messages,
  ollama_messages,
}

-- The tool calls that a message makes, in order.
unfoldable pub calls_of : Fields → List Fields
calls_of m = map as_fields (elements (as_items (get "tool_calls" m)))

unfoldable pub calls_of_all : List Fields → List Fields
unfolding calls_of
calls_of_all [] = []
calls_of_all (m ∷ ms) = calls_of m ++ calls_of_all ms

-- The name in the last call of the list that has this ID, if there is one.
unfoldable pub last_named : Bytes → List Fields → Option Bytes
last_named id [] = none
last_named id (c ∷ cs) = elim (last_named id cs) [
  | some name ↦ some name
  | none ↦ if not (is_blank (id_of c)) && bytes_eq (id_of c) id then some (name_of c) else none
]

abbrev pub or_blank : Option Bytes → Bytes
or_blank none = []
or_blank (some s) = s

-- What has been remembered after these calls.
unfoldable remember_all : List Fields → Names → Names
remember_all [] names = names
remember_all (c ∷ cs) names = remember_all cs (remember c names)

known : Bytes → List Fields → Names → Bytes
known id cs names = elim (last_named id cs) [ some name ↦ name | none ↦ names id ]

remember_all-last_named :
    (cs : List Fields) (names : Names) (id : Bytes) → remember_all cs names id ≡ known id cs names
unfolding remember_all last_named known
remember_all-last_named [] names id = refl
remember_all-last_named (c ∷ cs) names id =
    remember_all-last_named cs (remember c names) id ∙ unfold remember in ground arith

remember_all-append :
    (xs ys : List Fields) (names : Names)
    → remember_all (xs ++ ys) names ≡ remember_all ys (remember_all xs names)
unfolding remember_all
remember_all-append [] ys names = refl
remember_all-append (x ∷ xs) ys names = remember_all-append xs ys (remember x names)

pub calls_of_all-append :
    (xs ys : List Fields) → calls_of_all (xs ++ ys) ≡ calls_of_all xs ++ calls_of_all ys
unfolding calls_of_all
calls_of_all-append [] ys = refl
calls_of_all-append (m ∷ xs) ys =
    ap (λ cs. calls_of m ++ cs) (calls_of_all-append xs ys)
    ∙ sym (append_assoc (calls_of m) (calls_of_all xs) (calls_of_all ys))

-- What is known when a message's own calls have been remembered.
remembered :
    (before : List Fields) (m : Fields) (id : Bytes)
    → remember_all (calls_of m) (remember_all (calls_of_all before) no_names) id
      ≡ or_blank (last_named id (calls_of_all (before ++ m ∷ [])))
unfolding calls_of_all known
remembered before m id =
    ap (λ (n : Names). n id) (sym (remember_all-append (calls_of_all before) (calls_of m) no_names))
    ∙ ap (λ cs. remember_all cs no_names id)
        (ap (λ cs. calls_of_all before ++ cs) (sym (append-nil (calls_of m)))
          ∙ sym (calls_of_all-append before (m ∷ [])))
    ∙ remember_all-last_named (calls_of_all (before ++ m ∷ [])) no_names id
    ∙ ground arith

-- tool_name is left out where there is no name.
abbrev pub text_or_null : Bytes → Json
text_or_null [] = null
text_or_null (b ∷ s) = text (b ∷ s)

get-with_tool_name :
    (s : Bytes) (om : Fields)
    → get "tool_name" om ≡ null
    → get "tool_name" (with_tool_name s om) ≡ text_or_null s
unfolding with_tool_name
get-with_tool_name [] om h = h
get-with_tool_name (b ∷ s) om h = get-set "tool_name" "tool_name" (text (b ∷ s)) om

get-with_calls :
    (cs : Items) (om : Fields) → get "tool_name" (with_calls cs om) ≡ get "tool_name" om
unfolding with_calls
get-with_calls no_items om = refl
get-with_calls (item c cs) om = get-set "tool_calls" "tool_name" (array (item c cs)) om

get-with_images :
    (bs : List Bytes) (om : Fields) → get "tool_name" (with_images bs om) ≡ get "tool_name" om
unfolding with_images
get-with_images [] om = refl
get-with_images (b ∷ bs) om = get-set "images" "tool_name" _ om

get-opening : (m : Fields) → get "tool_name" (opening m) ≡ null
unfolding opening get
get-opening m = get-with_images (flatten_content (get "content" m)).1 _

module _ (decode : Bytes → Option Json) where
  convert_calls-remember_all :
      (cs : Items) (names : Names)
      → (convert_calls decode cs names).1 ≡ remember_all (map as_fields (elements cs)) names
  unfolding convert_calls remember_all elements
  convert_calls-remember_all no_items names = refl
  convert_calls-remember_all (item c rest) names =
      convert_calls-remember_all rest (remember (as_fields c) names)

  convert_message-names :
      (m : Fields) (names : Names)
      → (convert_message decode m names).1 ≡ remember_all (calls_of m) names
  unfolding convert_message calls_of
  convert_message-names m names = convert_calls-remember_all (as_items (get "tool_calls" m)) names

  -- The message at a position is converted with the names of all the calls before it.
  convert_messages-at :
      (before after : List Fields) (m : Fields) (names : Names)
      → get_elem? (convert_messages decode (before ++ m ∷ after) names) (length before)
        ≡ some (convert_message decode m (remember_all (calls_of_all before) names)).0
  unfolding convert_messages calls_of_all remember_all
  convert_messages-at [] after m names = refl
  convert_messages-at (b ∷ before) after m names =
      convert_messages-at before after m (convert_message decode b names).1
      ∙ ap (λ n. some (convert_message decode m n).0)
          (ap (remember_all (calls_of_all before)) (convert_message-names b names)
            ∙ sym (remember_all-append (calls_of b) (calls_of_all before) names))

  -- The name that is given to Ollama with a tool result that has none of its own.
  converted :
      (m : Fields) (names : Names)
      → is "tool" (get "role" m) ≡ true
      → as_string (get "name" m) ≡ []
      → get "tool_name" (convert_message decode m names).0
        ≡ text_or_null (remember_all (calls_of m) names (as_string (get "tool_call_id" m)))
  unfolding convert_message tool_name_of is_blank
  converted m names tool blank =
      simp (tool, blank)
        (get-with_tool_name _ _ (get-with_calls _ (opening m) ∙ get-opening m)
          ∙ ap (λ (n : Names). text_or_null (n (as_string (get "tool_call_id" m))))
              (convert_message-names m names))

  -- A tool result that names no tool itself reaches Ollama with the name in the last call, in the
  -- history up to it, that has its tool_call_id, and with no tool_name if no call has it.
  pub tool_name-last_named :
      (before after : List Fields) (m : Fields)
      → is "tool" (get "role" m) ≡ true
      → as_string (get "name" m) ≡ []
      → (om : Fields) × (get_elem? (ollama_messages decode (before ++ m ∷ after)) (length before)
          ≡ some om)
        × (get "tool_name" om
            ≡ text_or_null (
                or_blank (
                  last_named (as_string (get "tool_call_id" m)) (calls_of_all (before ++ m ∷ [])))))
  unfolding ollama_messages
  tool_name-last_named before after m tool blank = (
    (convert_message decode m (remember_all (calls_of_all before) no_names)).0,
    convert_messages-at before after m no_names,
    converted m (remember_all (calls_of_all before) no_names) tool blank
        ∙ ap text_or_null (remembered before m (as_string (get "tool_call_id" m))),
  )
