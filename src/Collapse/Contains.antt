-- ===== src/Collapse/Contains.antt =====
-- `ipv4PrefixContains` on nets: the addresses of one are addresses of the other.
use go_run.Prelude.{
  ℕ, zero, suc, ◌+◌, ◌-◌, ◌^◌, ◌≤◌, ◌≡◌, ◌↔◌, inl, inr, true, false, arith, ltb, ◌==◌, block,
  if◌then◌else◌, lt-block, block-le, pow_pos, ==_iff, pow_mono,
}
use native.Mathlib.Decide.{dec_le}
use go_run.Netip.{addr_eq, addr_less, unset, v4, v6, Prefix, prefix, addr, bits_plus_one, prefix_eq}
use go_run.Netip.Nets.{
  IsNet, first, size, size_pos, Inside, near, masked-prefix_from, size-le→le, interval→same_block,
}
use go_run.Collapse.{ipv4_prefix_contains, prefix_less}

contains_lem :
    (n b c d : ℕ)
    → b ≤ 32
    → ipv4_prefix_contains (prefix (v4 n) (suc b)) (prefix (v4 c) (suc d))
      ≡ (if ltb (suc d) (suc b) then false else block (2 ^ (32 - b)) c == n)
unfolding ipv4_prefix_contains addr bits_plus_one
contains_lem n b c d h = rw (masked-prefix_from c b h) (unfold prefix_eq in ground arith)

module _ (n b c d : ℕ) (hp : IsNet (prefix (v4 n) (suc b)))
    (hq : IsNet (prefix (v4 c) (suc d))) where
  abbrev P : Prefix
  P = prefix (v4 n) (suc b)

  abbrev Q : Prefix
  Q = prefix (v4 c) (suc d)

  -- What the code tests.
  test_iff : (ipv4_prefix_contains P Q ≡ true) ↔ ((b ≤ d) × (block (2 ^ (32 - b)) c ≡ n))
  test_iff = rw (contains_lem n b c d hp.0) (ground (arith, ==_iff (block (2 ^ (32 - b)) c) n))

  contains→Inside : ipv4_prefix_contains P Q ≡ true → Inside Q P
  contains→Inside e =
      let (h, start) = test_iff.0 e in
      let below = block-le (2 ^ (32 - b)) (pow_pos (32 - b)) c in
      let above = lt-block (2 ^ (32 - b)) (pow_pos (32 - b)) c in
      elim (near P Q hp hq (pow_mono (32 - d) (32 - b) (omega arith))) [
        | inl apart ↦ absurd (omega arith)
        | inr (inl apart) ↦ absurd (omega (arith, pow_pos (32 - d)))
        | inr (inr inside) ↦ inside
      ]

  Inside→contains : Inside Q P → ipv4_prefix_contains P Q ≡ true
  Inside→contains (h, k) = test_iff.1 (
    size-le→le b d hp.0 hq.0 (omega arith),
    interval→same_block (2 ^ (32 - b)) (pow_pos (32 - b)) n hp.2 c h
        (omega (arith, pow_pos (32 - d))),
  )

pub ipv4_prefix_contains_iff :
    (p q : Prefix) → IsNet p → IsNet q → (ipv4_prefix_contains p q ≡ true) ↔ Inside q p
ipv4_prefix_contains_iff (prefix (v4 n) (suc b)) (prefix (v4 c) (suc d)) hp hq =
    (contains→Inside n b c d hp hq, Inside→contains n b c d hp hq)
ipv4_prefix_contains_iff (prefix (v4 n) zero) q h k = absurd h
ipv4_prefix_contains_iff (prefix unset _) q h k = absurd h
ipv4_prefix_contains_iff (prefix (v6 n) _) q h k = absurd h
ipv4_prefix_contains_iff (prefix (v4 n) (suc b)) (prefix (v4 c) zero) h k = absurd k
ipv4_prefix_contains_iff (prefix (v4 n) (suc b)) (prefix unset _) h k = absurd k
ipv4_prefix_contains_iff (prefix (v4 n) (suc b)) (prefix (v6 c) _) h k = absurd k

-- The order of the sort, as the intervals show it.
abbrev pub Before : Prefix → Prefix → Type 0
Before p q = (first p ≤ first q) × (first q ≤ first p → size q ≤ size p)

pub prefix_less-asymm : (p q : Prefix) → prefix_less p q ≡ true → prefix_less q p ≡ false
unfolding prefix_less addr bits_plus_one addr_eq addr_less
prefix_less-asymm (prefix unset k) (prefix unset l) h = ground arith
prefix_less-asymm (prefix _ k) (prefix _ l) h = ground arith

less_blocks :
    (n b c d : ℕ)
    → prefix_less (prefix (v4 c) (suc d)) (prefix (v4 n) (suc b)) ≡ false
    → (n ≤ c) × (c ≤ n → b ≤ d)
unfolding prefix_less addr bits_plus_one addr_eq addr_less
less_blocks n b c d e = (ground arith, λ le. ground arith)

-- Where the sort does not put `q` before `p`, `p` comes first.
pub Before-of_not_less : (p q : Prefix) → IsNet p → IsNet q → prefix_less q p ≡ false → Before p q
Before-of_not_less (prefix (v4 n) (suc b)) (prefix (v4 c) (suc d)) hp hq e =
    let (h, k) = less_blocks n b c d e in
    (h, λ le. pow_mono (32 - d) (32 - b) (let f = k le in omega arith))
Before-of_not_less (prefix (v4 n) zero) q h k _ = absurd h
Before-of_not_less (prefix unset _) q h k _ = absurd h
Before-of_not_less (prefix (v6 n) _) q h k _ = absurd h
Before-of_not_less (prefix (v4 n) (suc b)) (prefix (v4 c) zero) h k _ = absurd k
Before-of_not_less (prefix (v4 n) (suc b)) (prefix unset _) h k _ = absurd k
Before-of_not_less (prefix (v4 n) (suc b)) (prefix (v6 c) _) h k _ = absurd k

-- In the order of the sort a prefix that does not contain a later one ends before it.
pub apart_of_not_contains :
    (p q : Prefix)
    → IsNet p
    → IsNet q
    → Before p q
    → ipv4_prefix_contains p q ≡ false
    → first p + size p ≤ first q
apart_of_not_contains p q hp hq (le, ties) e = elim (dec_le (size q) (size p)) [
  | yes smaller ↦ elim (near p q hp hq smaller) [
    | inl apart ↦ apart
    | inr (inl apart) ↦ absurd (omega (arith, size_pos q))
    | inr (inr inside) ↦ cc (e, (ipv4_prefix_contains_iff p q hp hq).1 inside)
  ]
  | no larger ↦ elim (near q p hq hp (omega arith)) [
    | inl apart ↦ absurd (omega (arith, size_pos q))
    | inr (inl apart) ↦ apart
    | inr (inr inside) ↦ absurd (omega (arith, ties))
  ]
]
