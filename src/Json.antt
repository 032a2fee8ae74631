-- ===== src/Json.antt =====
-- What `encoding/json` does with a value that has been parsed: decoding into strings, numbers,
-- slices and structs, a map for the keys of an object. Field names are compared without regard to
-- the case of ASCII letters.
use go_run.Prelude.{
  ℕ, ◌^◌, ℤ, pos, negsuc, String, Bool, Option, none, some, List, [], ◌∷◌, ltb, str_eq,
  if◌then◌else◌,
}
use go_run.Strings.{to_lower}

-- `integer` is a number written as an integer, `decimal_number` one written with a point or an
-- exponent. `arr` and `obj` have their members in the order of the text.
mutual
  pub data Json : Type 0 where
    null : Json
    boolean : Bool → Json
    integer : ℤ → Json
    decimal_number : String → Json
    str : String → Json
    arr : Items → Json
    obj : Fields → Json

  pub data Items : Type 0 where
    no_items : Items
    item : Json → Items → Items

  pub data Fields : Type 0 where
    no_fields : Fields
    field : String → Json → Fields → Fields

-- Decoding: `none` is an error, and `null` leaves the zero value.
unfoldable pub as_string : Json → Option String
as_string (str s) = some s
as_string null = some ""
as_string _ = none

unfoldable pub as_items : Json → Option Items
as_items (arr xs) = some xs
as_items null = some no_items
as_items _ = none

-- A struct or a map
unfoldable pub as_fields : Json → Option Fields
as_fields (obj fs) = some fs
as_fields null = some no_fields
as_fields _ = none

fits_int : ℤ → Bool
fits_int (pos n) = ltb n (2 ^ 63)
fits_int (negsuc n) = ltb n (2 ^ 63)

unfoldable pub as_uint32 : Json → Option ℕ
as_uint32 (integer (pos n)) = if ltb n (2 ^ 32) then some n else none
as_uint32 null = some 0
as_uint32 _ = none

-- A raw message that is missing cannot be decoded.
abbrev pub of_raw {ℓ} : {A : Type ℓ} → (Json → Option A) → Option Json → Option A
of_raw f none = none
of_raw f (some j) = f j

or_later : Option Json → Json → Option Json
or_later none j = some j
or_later (some later) j = some later

-- The value of a key in a map: a later one replaces an earlier one.
unfoldable pub lookup : String → Fields → Option Json
unfolding or_later
lookup key no_fields = none
lookup key (field k v fs) =
    let later = lookup key fs in if str_eq k key then or_later later v else later

-- The values that a struct's field is given, in order
unfoldable pub values : String → Fields → List Json
unfolding to_lower
values key no_fields = []
values key (field k v fs) =
    let later = values key fs in if str_eq (to_lower k) key then v ∷ later else later

last_string : String → List Json → Option String
last_string s [] = some s
last_string s (str t ∷ vs) = last_string t vs
last_string s (null ∷ vs) = last_string s vs
last_string s (_ ∷ vs) = none

last_int : ℤ → List Json → Option ℤ
unfolding fits_int
last_int n [] = some n
last_int n (integer m ∷ vs) = let rest = last_int m vs in if fits_int m then rest else none
last_int n (null ∷ vs) = last_int n vs
last_int n (_ ∷ vs) = none

-- A pointer is nil again after `null`.
last_pointer : Option ℤ → List Json → Option (Option ℤ)
unfolding fits_int
last_pointer n [] = some n
last_pointer n (integer m ∷ vs) =
    let rest = last_pointer (some m) vs in if fits_int m then rest else none
last_pointer n (null ∷ vs) = last_pointer none vs
last_pointer n (_ ∷ vs) = none

last_items : Items → List Json → Option Items
last_items xs [] = some xs
last_items xs (arr ys ∷ vs) = last_items ys vs
last_items xs (null ∷ vs) = last_items no_items vs
last_items xs (_ ∷ vs) = none

append_fields : Fields → Fields → Fields
append_fields no_fields gs = gs
append_fields (field k v fs) gs = field k v (append_fields fs gs)

all_fields : Fields → List Json → Option Fields
unfolding append_fields
all_fields fs [] = some fs
all_fields fs (obj gs ∷ vs) = all_fields (append_fields fs gs) vs
all_fields fs (null ∷ vs) = all_fields fs vs
all_fields fs (_ ∷ vs) = none

last_of : List Json → Option Json
last_of [] = none
last_of (v ∷ []) = some v
last_of (v ∷ w ∷ vs) = last_of (w ∷ vs)

-- The fields of a struct, by their lower-case names
unfoldable pub string_field : String → Fields → Option String
unfolding last_string values
string_field key fs = last_string "" (values key fs)

unfoldable pub int_field : String → Fields → Option ℤ
unfolding last_int values
int_field key fs = last_int (pos 0) (values key fs)

unfoldable pub int_pointer_field : String → Fields → Option (Option ℤ)
unfolding last_pointer values
int_pointer_field key fs = last_pointer none (values key fs)

unfoldable pub items_field : String → Fields → Option Items
unfolding last_items values
items_field key fs = last_items no_items (values key fs)

-- A struct in a struct: one that is given again is filled further.
unfoldable pub struct_field : String → Fields → Option Fields
unfolding all_fields values
struct_field key fs = all_fields no_fields (values key fs)

-- A `json.RawMessage`, `none` where it is missing
unfoldable pub raw_field : String → Fields → Option Json
unfolding last_of values
raw_field key fs = last_of (values key fs)
