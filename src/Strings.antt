-- ===== src/Strings.antt =====
-- The functions of Go's `strings`, `strconv` and `fmt` that the program uses, over texts walked
-- character by character. Case and white space are those of ASCII.
pub mod Laws
pub mod Numbers
pub mod Hex
pub mod Split
pub mod Plain
pub mod Keys
use Prim.Native.Char.{Char, code}
use Prim.Native.String
use go_run.Prelude.{
  ℕ, zero, suc, ◌+◌, ◌*◌, ◌-◌, ◌/◌, ◌%◌, String, Bool, true, false, not, ◌&&◌, ◌||◌, Option, none,
  some, List, [], ◌∷◌, ltb, leb, ◌==◌, str_eq, if◌then◌else◌, ℤ, pos, negsuc,
}

infixr 66 ◌<>◌
abbrev pub ◌<>◌ : String → String → String
s <> t = String.◌++◌ s t

unfoldable pub same_char : Char → Char → Bool
same_char c d = code c == code d

unfoldable pub has_prefix : String → String → Bool
unfolding same_char
has_prefix s String.[] = true
has_prefix String.[] (String.◌∷◌ d t) = false
has_prefix (String.◌∷◌ c s) (String.◌∷◌ d t) = same_char c d && has_prefix s t

unfoldable pub has_suffix : String → String → Bool
has_suffix String.[] t = str_eq "" t
has_suffix (String.◌∷◌ c s) t = str_eq (String.◌∷◌ c s) t || has_suffix s t

unfoldable pub contains_text : String → String → Bool
unfolding has_prefix
contains_text String.[] t = str_eq "" t
contains_text (String.◌∷◌ c s) t = has_prefix (String.◌∷◌ c s) t || contains_text s t

-- `TrimPrefix` with a prefix of one character
unfoldable pub trim_prefix_char : Char → String → String
unfolding same_char
trim_prefix_char d String.[] = ""
trim_prefix_char d (String.◌∷◌ c s) = if same_char c d then s else String.◌∷◌ c s

pub is_space : Char → Bool
is_space c = code c == 32 || (leb 9 (code c) && leb (code c) 13)

pub trim_left : String → String
unfolding is_space
trim_left String.[] = ""
trim_left (String.◌∷◌ c s) = let rest = trim_left s in if is_space c then rest else String.◌∷◌ c s

pub trim_right : String → String
unfolding is_space
trim_right String.[] = ""
trim_right (String.◌∷◌ c s) =
    let rest = trim_right s in if is_space c && str_eq rest "" then "" else String.◌∷◌ c rest

unfoldable pub trim_space : String → String
unfolding trim_left trim_right
trim_space s = trim_right (trim_left s)

unfoldable pub join : String → List String → String
join sep [] = ""
join sep (s ∷ []) = s
join sep (s ∷ t ∷ rest) = s <> sep <> join sep (t ∷ rest)

-- `Split` at a separator of one character, `cur` being the field so far
pub split_from : Char → String → String → List String
unfolding same_char
split_from sep cur String.[] = cur ∷ []
split_from sep cur (String.◌∷◌ c s) =
    let close = cur ∷ split_from sep "" s in
    let go_on = split_from sep (cur <> String.◌∷◌ c "") s in
    if same_char c sep then close else go_on

unfoldable pub split : Char → String → List String
unfolding split_from
split sep s = split_from sep "" s

add_field : String → List String → List String
add_field cur fields = if str_eq cur "" then fields else cur ∷ fields

fields_from : String → String → List String
unfolding is_space add_field
fields_from cur String.[] = add_field cur []
fields_from cur (String.◌∷◌ c s) =
    let close = add_field cur (fields_from "" s) in
    let go_on = fields_from (cur <> String.◌∷◌ c "") s in if is_space c then close else go_on

-- `Fields`: split at white space, without empty fields
unfoldable pub fields : String → List String
unfolding fields_from
fields s = fields_from "" s

-- `ReplaceAll` of one character by another
unfoldable pub replace_char : Char → Char → String → String
unfolding same_char
replace_char old new String.[] = ""
replace_char old new (String.◌∷◌ c s) =
    String.◌∷◌ (if same_char c old then new else c) (replace_char old new s)

swap_case : String → String → Char → Char
unfolding same_char
swap_case (String.◌∷◌ a from) (String.◌∷◌ b to) c = if same_char c a then b else swap_case from to c
swap_case _ _ c = c

unfoldable pub to_lower : String → String
unfolding swap_case
to_lower String.[] = ""
to_lower (String.◌∷◌ c s) =
    String.◌∷◌ (swap_case "ABCDEFGHIJKLMNOPQRSTUVWXYZ" "abcdefghijklmnopqrstuvwxyz" c) (to_lower s)

unfoldable pub to_upper : String → String
unfolding swap_case
to_upper String.[] = ""
to_upper (String.◌∷◌ c s) =
    String.◌∷◌ (swap_case "abcdefghijklmnopqrstuvwxyz" "ABCDEFGHIJKLMNOPQRSTUVWXYZ" c) (to_upper s)

abbrev pub digit_chars : String
digit_chars = "0123456789abcdef"

pub digit_text : ℕ → String → String
digit_text n String.[] = ""
digit_text zero (String.◌∷◌ c s) = String.◌∷◌ c ""
digit_text (suc n) (String.◌∷◌ c s) = digit_text n s

-- Digits of `n` in a base, the last ones in `tail`. The fuel is above the number of digits.
pub digits : ℕ → ℕ → ℕ → String → String
unfolding digit_text
digits zero base n tail = tail
digits (suc f) base n tail =
    let text = digit_text (n % base) digit_chars <> tail in
    let more = digits f base (n / base) text in if ltb n base then text else more

-- `%d` and `%x`
unfoldable pub decimal : ℕ → String
unfolding digits
decimal n = digits (suc n) 10 n ""

unfoldable pub hex : ℕ → String
unfolding digits
hex n = digits (suc n) 16 n ""

unfoldable pub show_int : ℤ → String
unfolding decimal
show_int (pos n) = decimal n
show_int (negsuc n) = "-" <> decimal (suc n)

cut_next : Char → Option (String × String) → Option (String × String)
cut_next c none = none
cut_next c (some (before, after)) = some (String.◌∷◌ c before, after)

-- `Cut` at the first separator of one character; `none` where there is none
unfoldable pub cut : Char → String → Option (String × String)
unfolding same_char cut_next
cut sep String.[] = none
cut sep (String.◌∷◌ c s) =
    let rest = cut_next c (cut sep s) in if same_char c sep then some ("", s) else rest
