-- ===== src/Anthropic/Turns.antt =====
-- What becomes of the blocks of a history (anthropic.go: anthropicMessageToOpenAI).
use gateway.Prelude.{false, ◌&&◌, Option, none, some, List, [], ◌∷◌, ◌++◌, if◌then◌else◌}
use gateway.Text.{Bytes}
use gateway.Json.{
  Json, null, boolean, number, text, array, object, Items, no_items, item, Fields, no_fields, field,
  codes, get, as_items, as_fields,
}
use gateway.Anthropic.Request.{
  Turn, BlockKind, text_block, image_block, tool_use_block, tool_result_block, other_block, kind_of,
  add_blocks, is_none, turn_content, with_tool_calls,
}

unfoldable pub keep_use : BlockKind → Fields → List Fields → List Fields
keep_use tool_use_block block rest = block ∷ rest
keep_use text_block block rest = rest
keep_use image_block block rest = rest
keep_use tool_result_block block rest = rest
keep_use other_block block rest = rest

unfoldable pub keep_result : BlockKind → Fields → List Fields → List Fields
keep_result tool_result_block block rest = block ∷ rest
keep_result text_block block rest = rest
keep_result image_block block rest = rest
keep_result tool_use_block block rest = rest
keep_result other_block block rest = rest

-- The tool_use blocks, in order, and the tool_result blocks.
unfoldable pub uses : Items → List Fields
unfolding keep_use
uses no_items = []
uses (item b rest) = keep_use (kind_of (as_fields b)) (as_fields b) (uses rest)

unfoldable pub results : Items → List Fields
unfolding keep_result
results no_items = []
results (item b rest) = keep_result (kind_of (as_fields b)) (as_fields b) (results rest)

abbrev pub blocks_of : Fields → Items
blocks_of msg = as_items (get "content" msg)

unfoldable pub uses_of_all : Items → List Fields
unfolding uses
uses_of_all no_items = []
uses_of_all (item m rest) = uses (blocks_of (as_fields m)) ++ uses_of_all rest

-- The message that a turn ends with, where there is more in it than tool results.
unfoldable pub last_message : Bytes → Turn → List Fields
last_message role t =
    if is_none t.parts && is_none t.tool_calls
    then []
    else with_tool_calls t.tool_calls
        (field "role" (text role) (field "content" (turn_content t) no_fields))
      ∷ []

-- The ID, the name and the arguments of a call.
abbrev pub called : Fields → Json × Json × Json
called c = let f = as_fields (get "function" c) in (get "id" c, get "name" f, get "arguments" f)

abbrev or_empty : Option Bytes → Bytes
or_empty none = codes "{}"
or_empty (some s) = s

module _ (encode : Json → Option Bytes) where
  abbrev collected : Items → Turn
  collected bs =
      add_blocks encode bs (record { out = []; parts = []; tool_calls = []; has_image = false })

  -- A block's input as text: its encoding, and the empty object if it has none.
  abbrev pub arguments_of : Json → Bytes
  arguments_of null = codes "{}"
  arguments_of (boolean b) = or_empty (encode (boolean b))
  arguments_of (number n) = or_empty (encode (number n))
  arguments_of (text s) = or_empty (encode (text s))
  arguments_of (array xs) = or_empty (encode (array xs))
  arguments_of (object f) = or_empty (encode (object f))

  -- The ID, the name and the arguments that a block asks for.
  abbrev pub asked : Fields → Json × Json × Json
  asked block = (get "id" block, get "name" block, text (arguments_of (get "input" block)))
