-- ===== src/Collapse.antt =====
-- internal/prefixes/collapse.go: the smallest list of IPv4 prefixes with the same addresses.
pub mod Coverage
pub mod Total
pub mod Calm
pub mod Canonical
pub mod Holds
pub mod Minimal
pub mod Shape
mod Tests
pub mod Covered
pub mod Stack
pub mod Spaced
pub mod Merge
pub mod Contains
use go_run.Prelude.{
  ℕ, zero, suc, ◌+◌, ◌-◌, ◌*◌, ◌/◌, ◌%◌, ◌^◌, Bool, true, false, not, ◌||◌, Option, none, some,
  List, [], ◌∷◌, ◌++◌, ltb, ◌==◌, if◌then◌else◌, any, rev_onto, sort_by,
}
use mathlib.Core.Option
use go_run.Netip.{
  Addr, v4, Prefix, addr, bits, bits_plus_one, is4, addr_eq, addr_less, prefix_eq, prefix_from,
  masked,
}

-- `As4`: the bytes of an IPv4 address. It panics on any other, which `none` stands for.
as4 : Addr → Option (ℕ × ℕ × ℕ × ℕ)
as4 (v4 n) = some (n / 2 ^ 24 % 256, n / 2 ^ 16 % 256, n / 2 ^ 8 % 256, n % 256)
as4 _ = none

addr_from4 : ℕ → ℕ → ℕ → ℕ → Addr
addr_from4 a b c d = v4 (a * 2 ^ 24 + b * 2 ^ 16 + c * 2 ^ 8 + d)

-- The bytes fill separate bits, so `|` adds them.
pub ipv4_to_uint32 : Addr → Option ℕ
unfolding as4
ipv4_to_uint32 a =
    Option.map (λ (b0, b1, b2, b3). b0 * 2 ^ 24 + b1 * 2 ^ 16 + b2 * 2 ^ 8 + b3) (as4 a)

pub uint32_to_ipv4 : ℕ → Addr
unfolding addr_from4
uint32_to_ipv4 n = addr_from4 (n / 2 ^ 24 % 256) (n / 2 ^ 16 % 256) (n / 2 ^ 8 % 256) (n % 256)

pub ipv4_prefix_contains : Prefix → Prefix → Bool
ipv4_prefix_contains outer inner =
    if ltb (bits_plus_one inner) (bits_plus_one outer)
    then false
    else prefix_eq (masked (prefix_from (addr inner) (bits_plus_one outer))) outer

-- What follows the swap. A parent has one bit less, so its length plus one is the length of `a`. The
-- outer `none` is a panic, the inner one the answer that the two are no siblings.
pub merge_ordered : Prefix → Prefix → Option (Option Prefix)
merge_ordered a b =
    let parent = masked (prefix_from (addr a) (bits a)) in
    let left = masked (prefix_from (addr parent) (bits_plus_one a)) in
    let half = 2 ^ (32 - bits a) % 2 ^ 32 in
    if not (prefix_eq (masked (prefix_from (addr b) (bits a))) parent)
    then some none
    else if not (prefix_eq a left)
    then some none
    else Option.map
        (λ start.
          let right =
            masked (prefix_from (uint32_to_ipv4 ((start + half) % 2 ^ 32)) (bits_plus_one a)) in
          if not (prefix_eq b right) then none else some parent)
        (ipv4_to_uint32 (addr parent))

pub merge_ipv4_siblings : Prefix → Prefix → Option (Option Prefix)
unfolding merge_ordered
merge_ipv4_siblings a b =
    if not (bits_plus_one a == bits_plus_one b) || bits_plus_one a == 1
    then some none
    else if addr_less (addr b) (addr a)
    then merge_ordered b a
    else merge_ordered a b

-- The loop over `prefs`: an address that is not IPv4 panics, which `none` stands for.
normalize : List Prefix → Option (List Prefix)
normalize [] = some []
normalize (p ∷ ps) =
    if is4 (addr p) then Option.map (λ rest. masked p ∷ rest) (normalize ps) else none

-- The order of the sort: by address, then the broader prefix first.
pub prefix_less : Prefix → Prefix → Bool
prefix_less p q =
    if not (addr_eq (addr p) (addr q))
    then addr_less (addr p) (addr q)
    else ltb (bits_plus_one p) (bits_plus_one q)

pub is_last : Option Prefix → Prefix → Bool
is_last none p = false
is_last (some q) p = prefix_eq q p

-- The loop that fills `deduped`, whose last element is `last`.
pub dedupe : Option Prefix → List Prefix → List Prefix
unfolding is_last
dedupe last [] = []
dedupe last (p ∷ ps) =
    let new = p ∷ dedupe (some p) ps in
    let same = dedupe last ps in if is_last last p then same else new

pub remove_covered : List Prefix → List Prefix → List Prefix
remove_covered out [] = out
remove_covered out (p ∷ ps) =
    remove_covered (if any (λ k. ipv4_prefix_contains k p) out then out else out ++ p ∷ []) ps

-- The inner loop. The stack has its top at the head, here the pushed prefix.
pub push : Prefix → List Prefix → Option (List Prefix)
push p [] = some (p ∷ [])
push p (a ∷ stack) = elim (merge_ipv4_siblings a p) [
  | none ↦ none
  | some merged ↦ elim merged [ none ↦ some (p ∷ a ∷ stack) | some parent ↦ push parent stack ]
]

pub merge_from : List Prefix → List Prefix → Option (List Prefix)
unfolding push
merge_from stack [] = some (rev_onto stack [])
merge_from stack (p ∷ ps) = elim (push p stack) [ none ↦ none | some longer ↦ merge_from longer ps ]

pub merge_sibling_stack : List Prefix → Option (List Prefix)
unfolding merge_from
merge_sibling_stack prefs = merge_from [] prefs

unfoldable pub collapse_ipv4 : List Prefix → Option (List Prefix)
unfolding ipv4_to_uint32 uint32_to_ipv4 normalize prefix_less dedupe remove_covered
    merge_sibling_stack ipv4_prefix_contains merge_ipv4_siblings
collapse_ipv4 prefs = elim (normalize prefs) [
  | none ↦ none
  | some normalized ↦
      merge_sibling_stack (remove_covered [] (dedupe none (sort_by prefix_less normalized)))
]
