-- ===== src/Anthropic/Request.antt =====
-- A Messages request in OpenAI's shape (anthropic.go: anthropicToOpenAI, anthropicMessageToOpenAI and
-- their helpers). json.Marshal is a parameter.
use gateway.Prelude.{
  Bool, true, false, ◌&&◌, Option, none, some, List, [], ◌∷◌, ◌++◌, if◌then◌else◌,
}
use gateway.Text.{Bytes}
use gateway.Json.{
  Json, null, boolean, number, text, array, object, Items, no_items, item, Fields, no_fields, field,
  codes, literal, get, has, set, is, is_null, as_string, as_bool, as_items, as_fields, object_of,
  objects,
}
use gateway.OpenAi.History.{is_blank}
use gateway.OpenAi.Request.{with_option}

-- strings.Join(texts, "\n\n")
unfoldable pub join : List Bytes → Bytes
join [] = []
join (t ∷ []) = t
join (t ∷ u ∷ rest) = t ++ 10 ∷ 10 ∷ join (u ∷ rest)

unfoldable pub if_text : Bytes → List Bytes → List Bytes
if_text [] texts = texts
if_text (b ∷ s) texts = (b ∷ s) ∷ texts

-- The texts of the text blocks that have one.
unfoldable pub block_texts : Items → List Bytes
unfolding if_text
block_texts no_items = []
block_texts (item b rest) =
    let block = as_fields b in
    let texts = block_texts rest in
    if is "text" (get "type" block) then if_text (as_string (get "text" block)) texts else texts

unfoldable pub blocks_text : Json → Bytes
unfolding block_texts join
blocks_text null = []
blocks_text (boolean b) = []
blocks_text (number n) = []
blocks_text (text s) = s
blocks_text (array xs) = join (block_texts xs)
blocks_text (object f) = []

unfoldable pub part_texts : List Fields → List Bytes
unfolding if_text
part_texts [] = []
part_texts (p ∷ rest) = if_text (as_string (get "text" p)) (part_texts rest)

unfoldable pub join_text_parts : List Fields → Bytes
unfolding part_texts join
join_text_parts parts = join (part_texts parts)

unfoldable pub image_data_url : Json → Bytes
unfolding is_blank
image_data_url src =
    let s = as_fields src in
    let payload = as_string (get "data" s) in
    if is "base64" (get "type" s)
    then if is_blank payload
      then []
      else codes "data:" ++ as_string (get "media_type" s) ++ codes ";base64," ++ payload
    else if is "url" (get "type" s)
    then as_string (get "url" s)
    else []

-- What the loop over the blocks of a turn has collected.
pub record Turn : Type 0 where
  pub out : List Fields
  pub parts : List Fields
  pub tool_calls : List Fields
  pub has_image : Bool

pub data BlockKind : Type 0 where
  text_block image_block tool_use_block tool_result_block other_block : BlockKind

-- switch block["type"]
unfoldable pub kind_of : Fields → BlockKind
kind_of block =
    let t = get "type" block in
    if is "text" t
    then text_block
    else if is "image" t
    then image_block
    else if is "tool_use" t
    then tool_use_block
    else if is "tool_result" t
    then tool_result_block
    else other_block

unfoldable pub text_part : Fields → Fields
text_part block =
    field "type" (literal "text") (field "text" (text (as_string (get "text" block))) no_fields)

unfoldable pub image_part : Bytes → Fields
image_part url =
    field "type" (literal "image_url")
      (field "image_url" (object (field "url" (text url) no_fields)) no_fields)

unfoldable pub result_message : Fields → Fields
unfolding blocks_text
result_message block =
    let content = blocks_text (get "content" block) in
    field "role" (literal "tool") (
      field "tool_call_id" (get "tool_use_id" block) (
        field "content"
          (text (if as_bool (get "is_error" block) then codes "Error: " ++ content else content))
          no_fields))

unfoldable pub add_image : Bytes → Turn → Turn
unfolding image_part
add_image [] t = t
add_image (b ∷ url) t = record t { parts = t.parts ++ image_part (b ∷ url) ∷ []; has_image = true }

unfoldable pub is_none : List Fields → Bool
is_none [] = true
is_none (f ∷ fs) = false

unfoldable pub turn_content : Turn → Json
unfolding join_text_parts is_none
turn_content t =
    if t.has_image
    then array (objects t.parts)
    else if is_none t.parts
    then null
    else text (join_text_parts t.parts)

unfoldable pub with_tool_calls : List Fields → Fields → Fields
with_tool_calls [] turn = turn
with_tool_calls (c ∷ cs) turn = set "tool_calls" (array (objects (c ∷ cs))) turn

-- The messages of a turn: its tool results, and then what else is in it.
unfoldable pub close_turn : Bytes → Turn → List Fields
unfolding turn_content with_tool_calls is_none
close_turn role t =
    if is_none t.parts && is_none t.tool_calls
    then t.out
    else t.out
      ++ with_tool_calls t.tool_calls
          (field "role" (text role) (field "content" (turn_content t) no_fields))
        ∷ []

unfoldable pub description_of : Json → Fields → Fields
description_of (text []) fn = fn
description_of (text (b ∷ s)) fn = set "description" (text (b ∷ s)) fn
description_of null fn = fn
description_of (boolean b) fn = fn
description_of (number n) fn = fn
description_of (array xs) fn = fn
description_of (object f) fn = fn

unfoldable pub function_tool : Fields → Fields
unfolding description_of
function_tool tool = field "type" (literal "function") (
    field "function"
      (object (
        description_of (get "description" tool) (
          field "name" (get "name" tool) (field "parameters" (get "input_schema" tool) no_fields))))
      no_fields)

unfoldable pub anthropic_tools : Items → List Fields
unfolding function_tool
anthropic_tools no_items = []
anthropic_tools (item t rest) =
    let tools = anthropic_tools rest in
    if has "input_schema" (as_fields t) then function_tool (as_fields t) ∷ tools else tools

unfoldable pub anthropic_tool_choice : Json → Json
anthropic_tool_choice v =
    let tc = as_fields v in
    if is "auto" (get "type" tc)
    then literal "auto"
    else if is "any" (get "type" tc)
    then literal "required"
    else if is "none" (get "type" tc)
    then literal "none"
    else if is "tool" (get "type" tc)
    then object (
        field "type" (literal "function")
          (field "function" (object (field "name" (get "name" tc) no_fields)) no_fields))
    else null

unfoldable pub with_choice : Json → Fields → Fields
unfolding is_null
with_choice choice out = if is_null choice then out else set "tool_choice" choice out

unfoldable pub with_tools : Json → List Fields → Fields → Fields
unfolding with_choice
with_tools choice [] out = out
with_tools choice (t ∷ ts) out = with_choice choice (set "tools" (array (objects (t ∷ ts))) out)

unfoldable pub with_stops : Items → Fields → Fields
with_stops no_items out = out
with_stops (item s rest) out = set "stop" (array (item s rest)) out

-- The parameters of the OpenAI request.
unfoldable pub parameters_of : Fields → Fields
unfolding with_tools with_stops anthropic_tools anthropic_tool_choice with_option
parameters_of body =
    with_tools (anthropic_tool_choice (get "tool_choice" body))
      (anthropic_tools (as_items (get "tools" body)))
      (with_stops (as_items (get "stop_sequences" body)) (
        with_option "stream" "stream" body (
          with_option "top_p" "top_p" body (
            with_option "temperature" "temperature" body (
              with_option "max_tokens" "max_tokens" body
                (field "model" (get "model" body) no_fields))))))

unfoldable pub system_message : Bytes → List Fields
system_message [] = []
system_message (b ∷ s) =
    field "role" (literal "system") (field "content" (text (b ∷ s)) no_fields) ∷ []

module _ (encode : Json → Option Bytes) where
  -- json.Marshal(input), or "{}" where it is nil or fails.
  unfoldable pub input_text : Json → Bytes
  unfolding is_null
  input_text input =
      if is_null input then codes "{}" else elim (encode input) [ none ↦ codes "{}" | some s ↦ s ]

  unfoldable pub tool_call : Fields → Fields
  unfolding input_text
  tool_call block = field "id" (get "id" block) (
      field "type" (literal "function") (
        field "function"
          (object (
            field "name" (get "name" block)
              (field "arguments" (text (input_text (get "input" block))) no_fields)))
          no_fields))

  unfoldable pub add_kind : BlockKind → Fields → Turn → Turn
  unfolding text_part add_image image_data_url tool_call result_message
  add_kind text_block block t = record t { parts = t.parts ++ text_part block ∷ [] }
  add_kind image_block block t = add_image (image_data_url (get "source" block)) t
  add_kind tool_use_block block t = record t { tool_calls = t.tool_calls ++ tool_call block ∷ [] }
  add_kind tool_result_block block t = record t { out = t.out ++ result_message block ∷ [] }
  add_kind other_block block t = t

  -- The loop over the blocks; what is no object is skipped.
  unfoldable pub add_blocks : Items → Turn → Turn
  unfolding add_kind kind_of
  add_blocks no_items t = t
  add_blocks (item b rest) t = add_blocks rest (add_kind (kind_of (as_fields b)) (as_fields b) t)

  unfoldable pub blocks_to_open_ai : Bytes → Items → List Fields
  unfolding add_blocks close_turn
  blocks_to_open_ai role blocks =
      close_turn role
        (add_blocks blocks (record { out = []; parts = []; tool_calls = []; has_image = false }))

  unfoldable pub content_to_open_ai : Bytes → Json → List Fields
  unfolding blocks_to_open_ai
  content_to_open_ai role (text s) =
      field "role" (text role) (field "content" (text s) no_fields) ∷ []
  content_to_open_ai role null = blocks_to_open_ai role no_items
  content_to_open_ai role (boolean b) = blocks_to_open_ai role no_items
  content_to_open_ai role (number n) = blocks_to_open_ai role no_items
  content_to_open_ai role (array xs) = blocks_to_open_ai role xs
  content_to_open_ai role (object f) = blocks_to_open_ai role no_items

  unfoldable pub anthropic_message_to_open_ai : Fields → List Fields
  unfolding content_to_open_ai
  anthropic_message_to_open_ai msg =
      content_to_open_ai (as_string (get "role" msg)) (get "content" msg)

  -- The loop over the messages; what is no object is skipped.
  unfoldable pub turns_to_open_ai : Items → List Fields
  unfolding anthropic_message_to_open_ai
  turns_to_open_ai no_items = []
  turns_to_open_ai (item m rest) = elim (object_of m) [
    | none ↦ turns_to_open_ai rest
    | some msg ↦ anthropic_message_to_open_ai msg ++ turns_to_open_ai rest
  ]

  unfoldable pub anthropic_to_open_ai : Fields → Fields × List Fields
  unfolding parameters_of system_message turns_to_open_ai blocks_text
  anthropic_to_open_ai body = (
    parameters_of body,
    system_message (blocks_text (get "system" body))
        ++ turns_to_open_ai (as_items (get "messages" body)),
  )
