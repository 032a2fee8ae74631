-- ===== src/Cli/FlagSet.antt =====
-- Go's `flag` as internal/cli/cli.go uses it: every flag is a text, and what stands after the flags
-- is not read.
use go_run.Prelude.{
  String, Bool, not, Option, none, some, List, [], ◌∷◌, str_eq, ◌||◌, if◌then◌else◌, any,
}
use go_run.Strings.{has_prefix, trim_prefix_char, cut}

-- The flags that are defined, with their values
abbrev pub Flags : Type 0
Flags = List (String × String)

unfoldable pub flag_value : String → Flags → String
flag_value name [] = ""
flag_value name ((key, value) ∷ flags) =
    let rest = flag_value name flags in if str_eq key name then value else rest

set_flag : String → String → Flags → Flags
set_flag name value [] = []
set_flag name value ((key, old) ∷ flags) =
    let rest = set_flag name value flags in
    if str_eq key name then (key, value) ∷ flags else (key, old) ∷ rest

is_defined : String → Flags → Bool
is_defined name flags = any (λ f. str_eq f.0 name) flags

-- What an argument is
pub data Arg : Type 0 where
  ends_flags bad_syntax : Arg
  -- A flag whose value is the argument after it, and one with its value
  name_only : String → Arg
  name_value : String → String → Arg

with_value : String → Option (String × String) → Arg
with_value text none = name_only text
with_value text (some (name, value)) = name_value name value

-- The text after the dashes
named : String → Arg
unfolding has_prefix with_value cut
named text =
    if str_eq text "" || has_prefix text "-" || has_prefix text "="
    then bad_syntax
    else with_value text (cut "=" text)

read_arg : String → Arg
unfolding has_prefix named trim_prefix_char
read_arg s =
    if not (has_prefix s "-") || str_eq s "-" || str_eq s "--"
    then ends_flags
    else named (trim_prefix_char "-" (trim_prefix_char "-" s))

set_defined : String → String → Flags → (Flags → Option Flags) → Option Flags
unfolding is_defined set_flag
set_defined name value flags rest =
    if is_defined name flags then rest (set_flag name value flags) else none

-- An argument before the argument `next`, with the way on from `next` and the way on past it
parse_arg : Arg → Flags → String → (Flags → Option Flags) → (Flags → Option Flags) → Option Flags
unfolding set_defined
parse_arg ends_flags flags next from_next past_next = some flags
parse_arg bad_syntax flags next from_next past_next = none
parse_arg (name_value name value) flags next from_next past_next =
    set_defined name value flags from_next
parse_arg (name_only name) flags next from_next past_next = set_defined name next flags past_next

parse_last : Arg → Flags → Option Flags
unfolding set_defined
parse_last ends_flags flags = some flags
parse_last bad_syntax flags = none
parse_last (name_value name value) flags = set_defined name value flags some
parse_last (name_only name) flags = none

-- `Parse`; `none` is an error, also that of a flag that asks for help
unfoldable pub parse_flags : List String → Flags → Option Flags
unfolding read_arg parse_arg parse_last
parse_flags [] flags = some flags
parse_flags (s ∷ []) flags = parse_last (read_arg s) flags
parse_flags (s ∷ next ∷ args) flags =
    parse_arg (read_arg s) flags next (parse_flags (next ∷ args)) (parse_flags args)
