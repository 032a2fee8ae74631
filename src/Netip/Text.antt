-- ===== src/Netip/Text.antt =====
-- Addresses and prefixes as text: `String`, `ParseAddr` and `ParsePrefix` of `net/netip`, written
-- from its documentation. The parser of IPv6 addresses is a parameter.
pub mod RoundTrip
pub mod Plain
pub mod Range
use Prim.Native.Char.{Char, code}
use Prim.Native.String
use mathlib.Core.Option
use go_run.Prelude.{
  ℕ, zero, suc, ◌+◌, ◌*◌, ◌-◌, ◌/◌, ◌%◌, ◌^◌, String, Bool, true, false, ◌&&◌, ◌||◌, not, Option,
  none, some, List, [], ◌∷◌, ltb, leb, ◌==◌, if◌then◌else◌, map, length,
}
use go_run.Strings.{◌<>◌, same_char, join, decimal, hex, split}
use go_run.Strings.Numbers.{digits_value}
use go_run.Netip.{Addr, unset, v4, v6, Prefix, prefix, bit_len}

-- One byte of an IPv4 address, `i` bytes from the right
abbrev pub octet : ℕ → ℕ → ℕ
octet n i = n / 2 ^ (8 * i) % 256

unfoldable pub text4 : ℕ → String
unfolding decimal
text4 n =
    decimal (octet n 3)
    <> String.◌∷◌ "." (
        decimal (octet n 2)
        <> String.◌∷◌ "." (decimal (octet n 1) <> String.◌∷◌ "." (decimal (octet n 0))))

-- The 16-bit groups of an IPv6 address, the first `k` of them left
groups : ℕ → ℕ → List ℕ
groups zero n = []
groups (suc k) n = n / 2 ^ (16 * k) % 2 ^ 16 ∷ groups k n

leading_zeros : List ℕ → ℕ
leading_zeros [] = 0
leading_zeros (g ∷ gs) = let more = suc (leading_zeros gs) in if g == 0 then more else 0

-- The first longest run of at least two zero groups: where it starts, and its length
zero_run : ℕ → List ℕ → ℕ × ℕ → ℕ × ℕ
unfolding leading_zeros
zero_run i [] (start, len) = (start, len)
zero_run i (g ∷ gs) (start, len) =
    let run = leading_zeros (g ∷ gs) in
    zero_run (suc i) gs (if leb 2 run && ltb len run then (i, run) else (start, len))

take_groups : ℕ → List ℕ → List ℕ
take_groups zero gs = []
take_groups (suc k) [] = []
take_groups (suc k) (g ∷ gs) = g ∷ take_groups k gs

drop_groups : ℕ → List ℕ → List ℕ
drop_groups zero gs = gs
drop_groups (suc k) [] = []
drop_groups (suc k) (g ∷ gs) = drop_groups k gs

-- An IPv6 address; one that holds an IPv4 address is printed with it.
unfoldable pub text6 : ℕ → String
unfolding groups zero_run take_groups drop_groups join hex text4
text6 n =
    let gs = groups 8 n in
    let (start, len) = zero_run 0 gs (0, 0) in
    if n / 2 ^ 32 == 0xffff
    then "::ffff:" <> text4 (n % 2 ^ 32)
    else if len == 0
    then join ":" (map hex gs)
    else join ":" (map hex (take_groups start gs))
      <> "::"
      <> join ":" (map hex (drop_groups (start + len) gs))

-- `Addr.String`
unfoldable pub addr_text : Addr → String
unfolding text4 text6
addr_text unset = "invalid IP"
addr_text (v4 n) = text4 n
addr_text (v6 n) = text6 n

-- `Prefix.String`
unfoldable pub prefix_text : Prefix → String
unfolding addr_text decimal
prefix_text (prefix a zero) = "invalid Prefix"
prefix_text (prefix a (suc b)) = addr_text a <> String.◌∷◌ "/" (decimal b)

-- A zero with digits after it
padded : String → Bool
unfolding same_char
padded (String.◌∷◌ c (String.◌∷◌ d s)) = same_char c "0"
padded _ = false

in_range : ℕ → Option ℕ → Option ℕ
in_range top none = none
in_range top (some n) = if leb n top then some n else none

parse_octet : String → Option ℕ
unfolding padded in_range digits_value
parse_octet s = if padded s then none else in_range 255 (digits_value s)

from_octets : Option ℕ → Option ℕ → Option ℕ → Option ℕ → Option Addr
from_octets (some a) (some b) (some c) (some d) =
    some (v4 (a * 2 ^ 24 + b * 2 ^ 16 + c * 2 ^ 8 + d))
from_octets _ _ _ _ = none

parse_fields4 : List String → Option Addr
unfolding parse_octet from_octets
parse_fields4 (a ∷ b ∷ c ∷ d ∷ []) =
    from_octets (parse_octet a) (parse_octet b) (parse_octet c) (parse_octet d)
parse_fields4 fields = none

pub data AddrKind : Type 0 where
  dotted coloned neither : AddrKind

-- The first of `.`, `:` and `%` decides.
addr_kind : String → AddrKind
unfolding same_char
addr_kind String.[] = neither
addr_kind (String.◌∷◌ c s) =
    let rest = addr_kind s in
    if same_char c "."
    then dotted
    else if same_char c ":"
    then coloned
    else if same_char c "%"
    then neither
    else rest

parse_kind : (String → Option ℕ) → AddrKind → String → Option Addr
unfolding parse_fields4 split
parse_kind parse6 dotted s = parse_fields4 (split "." s)
parse_kind parse6 coloned s = Option.map v6 (parse6 s)
parse_kind parse6 neither s = none

-- `ParseAddr`
unfoldable pub parse_addr : (String → Option ℕ) → String → Option Addr
unfolding parse_kind addr_kind
parse_addr parse6 s = parse_kind parse6 (addr_kind s) s

-- What stands before and after the last separator
last_at : Char → Char → String → Option (String × String) → Option (String × String)
unfolding same_char
last_at sep c s (some (a, b)) = some (String.◌∷◌ c a, b)
last_at sep c s none = if same_char c sep then some ("", s) else none

split_last : Char → String → Option (String × String)
unfolding last_at
split_last sep String.[] = none
split_last sep (String.◌∷◌ c s) = last_at sep c s (split_last sep s)

-- The length after the slash: no sign, no zero in front, at most the length of the address
parse_bits : String → Option ℕ
unfolding padded digits_value
parse_bits s = if padded s then none else digits_value s

with_bits : Option Addr → Option ℕ → Option Prefix
with_bits (some a) (some b) = if leb b (bit_len a) then some (prefix a (suc b)) else none
with_bits _ _ = none

parse_parts : (String → Option ℕ) → Option (String × String) → Option Prefix
unfolding parse_addr parse_bits with_bits bit_len
parse_parts parse6 none = none
parse_parts parse6 (some (ip, len)) = with_bits (parse_addr parse6 ip) (parse_bits len)

-- `ParsePrefix`; `parse6` gives no address with a zone.
unfoldable pub parse_prefix : (String → Option ℕ) → String → Option Prefix
unfolding parse_parts split_last
parse_prefix parse6 s = parse_parts parse6 (split_last "/" s)
