-- ===== src/Messages.antt =====
-- What the gateway passes on of a message history (api_handlers.go: sanitizeMessages,
-- sanitizeContent).
pub mod Again
pub mod Bounds
use gateway.Prelude.{ℕ, String, Bool, true, false, List, [], ◌∷◌}
use gateway.Text.{Bytes, truncate_input}
use gateway.Json.{
  Json, null, boolean, number, text, array, object, Items, no_items, item, Fields, no_fields, field,
  get, set, is, as_string,
}

-- The body of the loop over the parts, for a part with this "text" and "type".
unfoldable pub cut_part : ℕ → Json → Bool → Fields → Fields
cut_part n (text s) true f = set "text" (text (truncate_input n s)) f
cut_part n (text s) false f = f
cut_part n null t f = f
cut_part n (boolean b) t f = f
cut_part n (number m) t f = f
cut_part n (array xs) t f = f
cut_part n (object g) t f = f

unfoldable pub sanitize_part : ℕ → Fields → Fields
unfolding cut_part get is
sanitize_part n f = cut_part n (get "text" f) (is "text" (get "type" f)) f

unfoldable pub sanitize_parts : ℕ → Items → Items
unfolding sanitize_part
sanitize_parts n no_items = no_items
sanitize_parts n (item null rest) = sanitize_parts n rest
sanitize_parts n (item (boolean b) rest) = sanitize_parts n rest
sanitize_parts n (item (number m) rest) = sanitize_parts n rest
sanitize_parts n (item (text s) rest) = sanitize_parts n rest
sanitize_parts n (item (array xs) rest) = sanitize_parts n rest
sanitize_parts n (item (object f) rest) = item (object (sanitize_part n f)) (sanitize_parts n rest)

-- sanitizeContent, under cfg.MaxMsgLen.
unfoldable pub sanitize_content : ℕ → Json → Json
unfolding sanitize_parts
sanitize_content n null = null
sanitize_content n (boolean b) = null
sanitize_content n (number m) = null
sanitize_content n (text s) = text (truncate_input n s)
sanitize_content n (array xs) = array (sanitize_parts n xs)
sanitize_content n (object f) = null

-- The message that is passed on; a field that is null is absent from the map.
pub record Message : Type 0 where
  pub role : Bytes
  pub content : Json
  pub name : Json
  pub tool_call_id : Json
  pub tool_calls : Json

unfoldable pub content_or_empty : Json → Json → Json
content_or_empty null null = text []
content_or_empty null (boolean b) = null
content_or_empty null (number n) = null
content_or_empty null (text s) = null
content_or_empty null (array xs) = null
content_or_empty null (object f) = null
content_or_empty (boolean b) calls = boolean b
content_or_empty (number n) calls = number n
content_or_empty (text s) calls = text s
content_or_empty (array xs) calls = array xs
content_or_empty (object f) calls = object f

unfoldable pub sanitize_message : ℕ → Fields → Message
unfolding sanitize_content as_string content_or_empty
sanitize_message n f = record {
  role = as_string (get "role" f);
  content = content_or_empty (sanitize_content n (get "content" f)) (get "tool_calls" f);
  name = get "name" f;
  tool_call_id = get "tool_call_id" f;
  tool_calls = get "tool_calls" f;
}

unfoldable pub sanitize_messages : ℕ → Items → List Message
unfolding sanitize_message
sanitize_messages n no_items = []
sanitize_messages n (item null rest) = sanitize_messages n rest
sanitize_messages n (item (boolean b) rest) = sanitize_messages n rest
sanitize_messages n (item (number m) rest) = sanitize_messages n rest
sanitize_messages n (item (text s) rest) = sanitize_messages n rest
sanitize_messages n (item (array xs) rest) = sanitize_messages n rest
sanitize_messages n (item (object f) rest) = sanitize_message n f ∷ sanitize_messages n rest

-- The map that stands for the message, as it is sent on.
unfoldable pub with_field : String → Json → Fields → Fields
with_field key null rest = rest
with_field key (boolean b) rest = field key (boolean b) rest
with_field key (number n) rest = field key (number n) rest
with_field key (text s) rest = field key (text s) rest
with_field key (array xs) rest = field key (array xs) rest
with_field key (object f) rest = field key (object f) rest

unfoldable pub fields_of : Message → Fields
unfolding with_field
fields_of m = field "role" (text m.role) (
    field "content" m.content (
      with_field "name" m.name (
        with_field "tool_call_id" m.tool_call_id (with_field "tool_calls" m.tool_calls no_fields))))

unfoldable pub items_of : List Message → Items
unfolding fields_of
items_of [] = no_items
items_of (m ∷ ms) = item (object (fields_of m)) (items_of ms)
