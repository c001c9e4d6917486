-- ===== src/Json.antt =====
-- JSON as encoding/json decodes it into interface{}, with the type assertions and map accesses that
-- the handlers and the translations make. A number is the code of its float64; text is its bytes.
pub mod Maps
use Prim.Native.Char.{code}
use gateway.Prelude.{
  ℕ, String, str_eq, Bool, true, false, ◌&&◌, Option, none, some, List, [], ◌∷◌, ◌==◌,
  if◌then◌else◌,
}
use gateway.Text.{Bytes}

mutual
  pub data Json : Type 0 where
    null : Json
    boolean : Bool → Json
    number : ℕ → Json
    text : Bytes → Json
    array : Items → Json
    object : Fields → Json

  pub data Items : Type 0 where
    no_items : Items
    item : Json → Items → Items

  pub data Fields : Type 0 where
    no_fields : Fields
    field : String → Json → Fields → Fields

-- The bytes of an ASCII literal.
abbrev pub codes : String → Bytes
codes String.[] = []
codes (String.◌∷◌ c s) = code c ∷ codes s

abbrev pub literal : String → Json
literal s = text (codes s)

-- m[key], with nil for a missing key.
unfoldable pub get : String → Fields → Json
get key no_fields = null
get key (field k v rest) = if str_eq key k then v else get key rest

-- _, ok := m[key]
unfoldable pub has : String → Fields → Bool
has key no_fields = false
has key (field k v rest) = if str_eq key k then true else has key rest

-- m[key] = value
unfoldable pub set : String → Json → Fields → Fields
set key value no_fields = field key value no_fields
set key value (field k v rest) =
    if str_eq key k then field k value rest else field k v (set key value rest)

unfoldable pub bytes_eq : Bytes → Bytes → Bool
bytes_eq [] [] = true
bytes_eq [] (b ∷ t) = false
bytes_eq (a ∷ s) [] = false
bytes_eq (a ∷ s) (b ∷ t) = a == b && bytes_eq s t

-- v == s, for a literal s
unfoldable pub is : String → Json → Bool
unfolding bytes_eq
is s null = false
is s (boolean b) = false
is s (number n) = false
is s (text t) = bytes_eq t (codes s)
is s (array xs) = false
is s (object f) = false

-- v == nil
unfoldable pub is_null : Json → Bool
is_null null = true
is_null (boolean b) = false
is_null (number n) = false
is_null (text t) = false
is_null (array xs) = false
is_null (object f) = false

-- s, _ := v.(string)
unfoldable pub as_string : Json → Bytes
as_string null = []
as_string (boolean b) = []
as_string (number n) = []
as_string (text s) = s
as_string (array xs) = []
as_string (object f) = []

-- b, _ := v.(bool)
unfoldable pub as_bool : Json → Bool
as_bool null = false
as_bool (boolean b) = b
as_bool (number n) = false
as_bool (text s) = false
as_bool (array xs) = false
as_bool (object f) = false

-- xs, _ := v.([]interface{})
unfoldable pub as_items : Json → Items
as_items null = no_items
as_items (boolean b) = no_items
as_items (number n) = no_items
as_items (text s) = no_items
as_items (array xs) = xs
as_items (object f) = no_items

-- m, _ := v.(map[string]interface{}); every access of a nil map answers nil.
unfoldable pub as_fields : Json → Fields
as_fields null = no_fields
as_fields (boolean b) = no_fields
as_fields (number n) = no_fields
as_fields (text s) = no_fields
as_fields (array xs) = no_fields
as_fields (object f) = f

-- m, ok := v.(map[string]interface{})
unfoldable pub object_of : Json → Option Fields
object_of null = none
object_of (boolean b) = none
object_of (number n) = none
object_of (text s) = none
object_of (array xs) = none
object_of (object f) = some f

unfoldable pub is_empty : Items → Bool
is_empty no_items = true
is_empty (item v rest) = false

unfoldable pub elements : Items → List Json
elements no_items = []
elements (item v rest) = v ∷ elements rest

unfoldable pub items : List Json → Items
items [] = no_items
items (v ∷ vs) = item v (items vs)

unfoldable pub objects : List Fields → Items
objects [] = no_items
objects (f ∷ fs) = item (object f) (objects fs)
