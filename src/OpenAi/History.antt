-- ===== src/OpenAi/History.antt =====
-- A message history in Ollama's shape (openai.go: ollamaMessages, flattenContent, decodeArguments).
use gateway.Prelude.{
  length, drop, Bool, true, false, not, ◌&&◌, Option, none, some, List, [], ◌∷◌, ◌++◌, map, ◌==◌,
  if◌then◌else◌,
}
use gateway.Text.{Bytes}
use gateway.Json.{
  Json, null, boolean, number, text, array, object, Items, no_items, item, Fields, no_fields, field,
  codes, get, set, bytes_eq, is, as_string, as_items, as_fields, items,
}

-- s == ""
unfoldable pub is_blank : Bytes → Bool
is_blank [] = true
is_blank (b ∷ s) = false

-- strings.HasPrefix(s, prefix)
unfoldable pub has_prefix : Bytes → Bytes → Bool
has_prefix [] s = true
has_prefix (p ∷ ps) [] = false
has_prefix (p ∷ ps) (b ∷ s) = p == b && has_prefix ps s

-- strings.Cut(s, sep), for a separator that is not empty: what follows the first one.
unfoldable pub cut : Bytes → Bytes → Option Bytes
unfolding has_prefix
cut sep [] = none
cut sep (b ∷ s) = if has_prefix sep (b ∷ s) then some (drop (length sep) (b ∷ s)) else cut sep s

unfoldable pub add_text : Bytes → Bytes → Bytes
unfolding is_blank
add_text s t = if not (is_blank t) && not (is_blank s) then t ++ 10 ∷ s else t ++ s

-- The images of an image_url part: none where the URL has no data in it.
unfoldable pub image_of : Bytes → List Bytes
unfolding cut
image_of url = elim (cut (codes ";base64,") url) [
  | none ↦ []
  | some b64 ↦ if has_prefix (codes "data:") url then b64 ∷ [] else []
]

unfoldable pub add_part : Fields → Bytes × List Bytes → Bytes × List Bytes
unfolding add_text image_of
add_part part (t, images) =
    if is "text" (get "type" part)
    then (add_text (as_string (get "text" part)) t, images)
    else if is "image_url" (get "type" part)
    then (t, images ++ image_of (as_string (get "url" (as_fields (get "image_url" part)))))
    else (t, images)

unfoldable pub add_parts : Items → Bytes × List Bytes → Bytes × List Bytes
unfolding add_part
add_parts no_items acc = acc
add_parts (item p rest) acc = add_parts rest (add_part (as_fields p) acc)

unfoldable pub flatten_content : Json → Bytes × List Bytes
unfolding add_parts
flatten_content null = ([], [])
flatten_content (boolean b) = ([], [])
flatten_content (number n) = ([], [])
flatten_content (text s) = (s, [])
flatten_content (array xs) = add_parts xs ([], [])
flatten_content (object f) = ([], [])

-- nameByCallID, with "" for an unknown call.
abbrev pub Names : Type 0
Names = Bytes → Bytes

abbrev pub no_names : Names
no_names id = []

unfoldable pub id_of : Fields → Bytes
id_of call = as_string (get "id" call)

unfoldable pub name_of : Fields → Bytes
name_of call = as_string (get "name" (as_fields (get "function" call)))

unfoldable pub remember : Fields → Names → Names
unfolding id_of name_of is_blank
remember call names id =
    if not (is_blank (id_of call)) && bytes_eq (id_of call) id then name_of call else names id

unfoldable pub tool_name_of : Fields → Names → Bytes
unfolding is_blank
tool_name_of m names =
    if is_blank (as_string (get "name" m))
    then names (as_string (get "tool_call_id" m))
    else as_string (get "name" m)

unfoldable pub with_images : List Bytes → Fields → Fields
with_images [] om = om
with_images (b ∷ bs) om = set "images" (array (items (map text (b ∷ bs)))) om

unfoldable pub with_calls : Items → Fields → Fields
with_calls no_items om = om
with_calls (item c cs) om = set "tool_calls" (array (item c cs)) om

unfoldable pub with_tool_name : Bytes → Fields → Fields
with_tool_name [] om = om
with_tool_name (b ∷ s) om = set "tool_name" (text (b ∷ s)) om

-- om before its calls.
unfoldable pub opening : Fields → Fields
unfolding flatten_content with_images
opening m = with_images (flatten_content (get "content" m)).1 (
    field "role" (get "role" m)
      (field "content" (text (flatten_content (get "content" m)).0) no_fields))

-- `decode` is json.Unmarshal, with `none` for an error.
module _ (decode : Bytes → Option Json) where
  unfoldable pub decode_arguments : Json → Json
  decode_arguments null = null
  decode_arguments (boolean b) = boolean b
  decode_arguments (number n) = number n
  decode_arguments (text s) = elim (decode s) [ none ↦ text s | some v ↦ v ]
  decode_arguments (array xs) = array xs
  decode_arguments (object f) = object f

  unfoldable pub ollama_call : Fields → Json
  unfolding decode_arguments name_of
  ollama_call call = object (
      field "function"
        (object (
          field "name" (text (name_of call)) (
            field "arguments" (decode_arguments (get "arguments" (as_fields (get "function" call))))
              no_fields)))
        no_fields)

  unfoldable pub convert_calls : Items → Names → Items × Names
  unfolding ollama_call remember
  convert_calls no_items names = (no_items, names)
  convert_calls (item c rest) names =
      let (calls, names') = convert_calls rest (remember (as_fields c) names) in
      (item (ollama_call (as_fields c)) calls, names')

  unfoldable pub convert_message : Fields → Names → Fields × Names
  unfolding opening convert_calls with_calls with_tool_name tool_name_of
  convert_message m names =
      let (calls, names') = convert_calls (as_items (get "tool_calls" m)) names in
      let om = with_calls calls (opening m) in
      (if is "tool" (get "role" m) then with_tool_name (tool_name_of m names') om else om, names')

  unfoldable pub convert_messages : List Fields → Names → List Fields
  unfolding convert_message
  convert_messages [] names = []
  convert_messages (m ∷ ms) names =
      let (om, names') = convert_message m names in om ∷ convert_messages ms names'

  unfoldable pub ollama_messages : List Fields → List Fields
  unfolding convert_messages
  ollama_messages ms = convert_messages ms no_names
