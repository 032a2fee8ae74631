-- ===== src/Netip/Text/Range.antt =====
-- What is read as an IPv4 prefix is in range.
use mathlib.Core.Path.{subst}
use mathlib.Core.Option
use go_run.Prelude.{
  ℕ, zero, suc, ◌^◌, ◌≤◌, ◌<◌, ◌≡◌, refl, String, Option, none, some, List, [], ◌∷◌, leb, arith,
  Bool-cases, inl, inr,
}
use go_run.Netip.{Addr, unset, v4, v6, Prefix, prefix, bit_len}
use go_run.Netip.Text.{
  parse_prefix, parse_parts, parse_addr, parse_kind, AddrKind, dotted, coloned, neither,
  parse_fields4, from_octets, parse_octet, in_range, with_bits, split_last, addr_kind, parse_bits,
  padded,
}
use go_run.Strings.{split}
use go_run.Strings.Numbers.{digits_value}

-- An IPv4 address is a number of 32 bits; IPv6 is not restricted.
abbrev AddrInRange : Addr → Type 0
AddrInRange (v4 n) = n < 2 ^ 32
AddrInRange (v6 n) = Unit
AddrInRange unset = ⊥

abbrev pub PrefixInRange : Prefix → Type 0
PrefixInRange (prefix (v4 n) (suc b)) = (b ≤ 32) × (n < 2 ^ 32)
PrefixInRange (prefix (v4 n) zero) = ⊥
PrefixInRange (prefix (v6 n) k) = Unit
PrefixInRange (prefix unset k) = ⊥

abbrev Holds {ℓ} : {A : Type ℓ} → (A → Type 0) → Option A → Type 0
Holds P none = Unit
Holds P (some a) = P a

in_range-le : (top : ℕ) (o : Option ℕ) → Holds (λ n. n ≤ top) (in_range top o)
unfolding in_range
in_range-le top none = tt
in_range-le top (some n) = elim (Bool-cases (leb n top)) [
  | inl e ↦ rw e (ground arith)
  | inr e ↦ rw e tt
]

parse_octet-le : (s : String) → Holds (λ n. n ≤ 255) (parse_octet s)
unfolding parse_octet
parse_octet-le s = elim (Bool-cases (padded s)) [
  | inl e ↦ rw e tt
  | inr e ↦ rw e (in_range-le 255 (digits_value s))
]

from_octets-InRange :
    (a b c d : Option ℕ)
    → Holds (λ n. n ≤ 255) a
    → Holds (λ n. n ≤ 255) b
    → Holds (λ n. n ≤ 255) c
    → Holds (λ n. n ≤ 255) d
    → Holds AddrInRange (from_octets a b c d)
unfolding from_octets
from_octets-InRange none b c d ha hb hc hd = tt
from_octets-InRange (some a) none c d ha hb hc hd = tt
from_octets-InRange (some a) (some b) none d ha hb hc hd = tt
from_octets-InRange (some a) (some b) (some c) none ha hb hc hd = tt
from_octets-InRange (some a) (some b) (some c) (some d) ha hb hc hd = omega arith

parse_fields4-InRange : (fields : List String) → Holds AddrInRange (parse_fields4 fields)
unfolding parse_fields4
parse_fields4-InRange [] = tt
parse_fields4-InRange (a ∷ []) = tt
parse_fields4-InRange (a ∷ b ∷ []) = tt
parse_fields4-InRange (a ∷ b ∷ c ∷ []) = tt
parse_fields4-InRange (a ∷ b ∷ c ∷ d ∷ []) =
    from_octets-InRange _ _ _ _ (parse_octet-le a) (parse_octet-le b) (parse_octet-le c)
      (parse_octet-le d)
parse_fields4-InRange (a ∷ b ∷ c ∷ d ∷ e ∷ fields) = tt

map_v6-InRange : (o : Option ℕ) → Holds AddrInRange (Option.map v6 o)
map_v6-InRange none = tt
map_v6-InRange (some n) = tt

parse_kind-InRange :
    (parse6 : String → Option ℕ) (kind : AddrKind) (s : String)
    → Holds AddrInRange (parse_kind parse6 kind s)
unfolding parse_kind
parse_kind-InRange parse6 dotted s = parse_fields4-InRange (split "." s)
parse_kind-InRange parse6 coloned s = map_v6-InRange (parse6 s)
parse_kind-InRange parse6 neither s = tt

with_bits-InRange :
    (a : Option Addr) (b : Option ℕ) → Holds AddrInRange a → Holds PrefixInRange (with_bits a b)
unfolding with_bits bit_len
with_bits-InRange none b h = tt
with_bits-InRange (some a) none h = tt
with_bits-InRange (some unset) (some b) h = absurd h
with_bits-InRange (some (v6 n)) (some b) h = elim (Bool-cases (leb b 128)) [
  | inl e ↦ rw e tt
  | inr e ↦ rw e tt
]
with_bits-InRange (some (v4 n)) (some b) h = elim (Bool-cases (leb b 32)) [
  | inl e ↦ rw e (ground arith, h)
  | inr e ↦ rw e tt
]

parse_parts-InRange :
    (parse6 : String → Option ℕ) (parts : Option (String × String))
    → Holds PrefixInRange (parse_parts parse6 parts)
unfolding parse_parts parse_addr
parse_parts-InRange parse6 none = tt
parse_parts-InRange parse6 (some (ip, len)) =
    with_bits-InRange (parse_kind parse6 (addr_kind ip) ip) (parse_bits len)
      (parse_kind-InRange parse6 (addr_kind ip) ip)

-- The length of an IPv4 prefix that is read is at most 32, and its address has 32 bits.
pub parse_prefix-InRange :
    (parse6 : String → Option ℕ) (s : String) (p : Prefix)
    → parse_prefix parse6 s ≡ some p
    → PrefixInRange p
unfolding parse_prefix
parse_prefix-InRange parse6 s p e =
    subst (Holds PrefixInRange) e (parse_parts-InRange parse6 (split_last "/" s))

pub parse_prefix-nil : (parse6 : String → Option ℕ) → parse_prefix parse6 "" ≡ none
unfolding parse_prefix
parse_prefix-nil parse6 = refl
