-- ===== src/Messages/Again.antt =====
-- A sanitized history is passed on unchanged by a second gateway (api_handlers.go: sanitizeMessages).
use gateway.Prelude.{
  ℕ, ◌≤◌, ◌≡◌, refl, ap, ap₂, ◌∙◌, String, str_eq, Bool, true, false, Bool-cases, inl, inr, ◌∷◌,
  leb, leb→le, le→leb, length-take, length, arith,
}
use gateway.Text.{Bytes, truncate_input, back_off}
use gateway.Text.Cut.{back_off-le}
use gateway.Json.{
  Json, null, text, array, object, Items, no_items, item, Fields, get, set, is, boolean, number,
}
use gateway.Json.Maps.{set_again, get-set, str_eq_refl}
use gateway.Messages.{
  cut_part, sanitize_part, sanitize_parts, sanitize_content, Message, content_or_empty,
  sanitize_message, sanitize_messages, with_field, fields_of, items_of,
}

pub truncate_within : (n : ℕ) (s : Bytes) → length (truncate_input n s) ≤ n
unfolding truncate_input
truncate_within n s = elim (Bool-cases (leb (length s) n)) [
  | inl e ↦ simp e (leb→le _ _ e)
  | inr e ↦ simp e (omega (arith, length-take (back_off s n) s, back_off-le s n))
]

truncate_short : (n : ℕ) (s : Bytes) → length s ≤ n → truncate_input n s ≡ s
unfolding truncate_input
truncate_short n s h = simp (le→leb _ _ h) refl

truncate_again : (n : ℕ) (s : Bytes) → truncate_input n (truncate_input n s) ≡ truncate_input n s
truncate_again n s = truncate_short n (truncate_input n s) (truncate_within n s)

part_as :
    (n : ℕ) (v : Json) (t : Bool) (f : Fields)
    → get "text" f ≡ v
    → is "text" (get "type" f) ≡ t
    → sanitize_part n f ≡ cut_part n v t f
unfolding sanitize_part
part_as n v t f e h = ap₂ (λ x y. cut_part n x y f) e h

cut_again :
    (n : ℕ) (v : Json) (t : Bool) (f : Fields)
    → get "text" f ≡ v
    → is "text" (get "type" f) ≡ t
    → sanitize_part n (cut_part n v t f) ≡ cut_part n v t f
unfolding cut_part
cut_again n (text s) true f e h =
    part_as n (text (truncate_input n s)) true _
      (get-set "text" "text" (text (truncate_input n s)) f)
      (ap (is "text") (get-set "text" "type" (text (truncate_input n s)) f) ∙ h)
    ∙ ap (λ z. set "text" (text z) (set "text" (text (truncate_input n s)) f)) (truncate_again n s)
    ∙ set_again "text" (text (truncate_input n s)) (text (truncate_input n s)) f
cut_again n (text s) false f e h = part_as n (text s) false f e h
cut_again n null t f e h = part_as n null t f e h
cut_again n (boolean b) t f e h = part_as n (boolean b) t f e h
cut_again n (number m) t f e h = part_as n (number m) t f e h
cut_again n (array xs) t f e h = part_as n (array xs) t f e h
cut_again n (object g) t f e h = part_as n (object g) t f e h

parts_again : (n : ℕ) (xs : Items) → sanitize_parts n (sanitize_parts n xs) ≡ sanitize_parts n xs
unfolding sanitize_parts
parts_again n no_items = refl
parts_again n (item null rest) = parts_again n rest
parts_again n (item (boolean b) rest) = parts_again n rest
parts_again n (item (number m) rest) = parts_again n rest
parts_again n (item (text s) rest) = parts_again n rest
parts_again n (item (array xs) rest) = parts_again n rest
parts_again n (item (object f) rest) =
    ap₂ (λ p r. item (object p) r) (part_again f) (parts_again n rest)
  where
    part_again : (f : Fields) → sanitize_part n (sanitize_part n f) ≡ sanitize_part n f
    part_again f =
        unfold sanitize_part in cut_again n (get "text" f) (is "text" (get "type" f)) f refl refl

missing_again :
    (n : ℕ) (calls : Json)
    → content_or_empty (sanitize_content n (content_or_empty null calls)) calls
      ≡ content_or_empty null calls
unfolding content_or_empty sanitize_content
missing_again n null = ap text (unfold truncate_input in ground arith)
missing_again n (boolean b) = refl
missing_again n (number m) = refl
missing_again n (text s) = refl
missing_again n (array xs) = refl
missing_again n (object f) = refl

-- The content of a sanitized message is the content that it is given again.
content_again :
    (n : ℕ) (c calls : Json)
    → content_or_empty (sanitize_content n (content_or_empty (sanitize_content n c) calls)) calls
      ≡ content_or_empty (sanitize_content n c) calls
unfolding content_or_empty sanitize_content
content_again n null calls = missing_again n calls
content_again n (boolean b) calls = missing_again n calls
content_again n (number m) calls = missing_again n calls
content_again n (object f) calls = missing_again n calls
content_again n (text s) calls = ap text (truncate_again n s)
content_again n (array xs) calls = ap array (parts_again n xs)

-- What the map of a sanitized message holds under the keys that are read.
get-with_field :
    (key : String) (v : Json) (rest : Fields)
    → get key rest ≡ null
    → get key (with_field key v rest) ≡ v
unfolding get with_field
get-with_field key null rest h = h
get-with_field key (boolean b) rest h = simp (str_eq_refl key) refl
get-with_field key (number n) rest h = simp (str_eq_refl key) refl
get-with_field key (text s) rest h = simp (str_eq_refl key) refl
get-with_field key (array xs) rest h = simp (str_eq_refl key) refl
get-with_field key (object f) rest h = simp (str_eq_refl key) refl

get-with_field_ne :
    (key other_key : String) (v : Json) (rest : Fields)
    → str_eq key other_key ≡ false
    → get key (with_field other_key v rest) ≡ get key rest
unfolding get with_field
get-with_field_ne key k null rest h = refl
get-with_field_ne key k (boolean b) rest h = simp h refl
get-with_field_ne key k (number n) rest h = simp h refl
get-with_field_ne key k (text s) rest h = simp h refl
get-with_field_ne key k (array xs) rest h = simp h refl
get-with_field_ne key k (object f) rest h = simp h refl

get_name : (m : Message) → get "name" (fields_of m) ≡ m.name
unfolding fields_of get
get_name m = get-with_field "name" m.name _ (
    get-with_field_ne "name" "tool_call_id" m.tool_call_id _ refl
    ∙ get-with_field_ne "name" "tool_calls" m.tool_calls _ refl)

get_tool_call_id : (m : Message) → get "tool_call_id" (fields_of m) ≡ m.tool_call_id
unfolding fields_of get
get_tool_call_id m =
    get-with_field_ne "tool_call_id" "name" m.name _ refl
    ∙ get-with_field "tool_call_id" m.tool_call_id _
        (get-with_field_ne "tool_call_id" "tool_calls" m.tool_calls _ refl)

get_tool_calls : (m : Message) → get "tool_calls" (fields_of m) ≡ m.tool_calls
unfolding fields_of get
get_tool_calls m =
    get-with_field_ne "tool_calls" "name" m.name _ refl
    ∙ get-with_field_ne "tool_calls" "tool_call_id" m.tool_call_id _ refl
    ∙ get-with_field "tool_calls" m.tool_calls _ refl

message_again :
    (n : ℕ) (f : Fields)
    → sanitize_message n (fields_of (sanitize_message n f)) ≡ sanitize_message n f
unfolding sanitize_message fields_of
message_again n f =
    let m = sanitize_message n f in
    ap₂
      (λ c calls. record {
        role = m.role;
        content = content_or_empty (sanitize_content n m.content) c;
        name = get "name" (fields_of m);
        tool_call_id = calls;
        tool_calls = c;
      })
      (get_tool_calls m) (get_tool_call_id m)
    ∙ ap₂ (λ c name. record m { content = c; name = name })
        (content_again n (get "content" f) (get "tool_calls" f)) (get_name m)

-- Sanitizing is done once and for all: a history that was sanitized and is sent on is passed on by a
-- second gateway of the same bound as it is, with every text, part, tool call and null content.
pub sanitize_messages-items_of :
    (n : ℕ) (ms : Items)
    → sanitize_messages n (items_of (sanitize_messages n ms)) ≡ sanitize_messages n ms
unfolding sanitize_messages items_of
sanitize_messages-items_of n no_items = refl
sanitize_messages-items_of n (item null rest) = sanitize_messages-items_of n rest
sanitize_messages-items_of n (item (boolean b) rest) = sanitize_messages-items_of n rest
sanitize_messages-items_of n (item (number m) rest) = sanitize_messages-items_of n rest
sanitize_messages-items_of n (item (text s) rest) = sanitize_messages-items_of n rest
sanitize_messages-items_of n (item (array xs) rest) = sanitize_messages-items_of n rest
sanitize_messages-items_of n (item (object f) rest) =
    ap₂ (λ m l. m ∷ l) (message_again n f) (sanitize_messages-items_of n rest)
