-- ===== src/Examples/Histories.antt =====
-- A message history at concrete inputs (api_handlers.go: sanitizeMessages).
use gateway.Prelude.{◌≡◌, [], ◌∷◌}
use gateway.Json.{null, number, text, array, object, Items, no_items, item, no_fields, field}
use gateway.Messages.{sanitize_messages, items_of}
use gateway.Messages.Again.{sanitize_messages-items_of}

-- A user's message of two parts, a number, and an assistant's call without content.
abbrev history : Items
history =
    item
      (object (
        field "role" (text (117 ∷ [])) (
          field "content"
            (array (
              item
                (object (
                  field "type" (text (116 ∷ 101 ∷ 120 ∷ 116 ∷ []))
                    (field "text" (text (104 ∷ 101 ∷ 108 ∷ 108 ∷ 111 ∷ [])) no_fields)))
                (item (object (field "type" (number 1) no_fields)) no_items)))
            no_fields)))
      (item (number 7) (
        item (object (field "content" null (field "tool_calls" (array no_items) no_fields)))
          no_items))

sanitize_messages-items_of_example :
    sanitize_messages 3 (items_of (sanitize_messages 3 history)) ≡ sanitize_messages 3 history
sanitize_messages-items_of_example = sanitize_messages-items_of 3 history
