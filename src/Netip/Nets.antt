-- ===== src/Netip/Nets.antt =====
-- Masked IPv4 prefixes as intervals of addresses. The lists of the program that CollapseIPv4
-- works on hold such prefixes; each lemma here turns a question about bits into one about the
-- ends of intervals.
use go_run.Prelude.{
  ℕ, zero, suc, ◌+◌, ◌-◌, ◌*◌, ◌/◌, ◌^◌, ◌≤◌, ◌<◌, ◌≡◌, sym, ap, ◌∙◌, ◌↔◌, ◌⊎◌, inl, inr, true,
  arith, ◌==◌, block, pow_pos, pow_split, pow_lt, block-le, lt-block, grid_gap, block_unique,
  ==_iff,
}
use native.Mathlib.Decide.{dec_le, dec_lt}
use native.Mathlib.Nat.{div-eq_of_lt-le, mul-div_cancel, mul_assoc}
use go_run.Netip.{unset, v4, v6, Prefix, prefix, prefix_from, masked, contains}

-- A masked IPv4 prefix with a length in range.
abbrev pub IsNet : Prefix → Type 0
IsNet (prefix (v4 n) (suc b)) = (b ≤ 32) × (n < 2 ^ 32) × (block (2 ^ (32 - b)) n ≡ n)
IsNet (prefix (v4 n) zero) = ⊥
IsNet (prefix unset k) = ⊥
IsNet (prefix (v6 n) k) = ⊥

-- The first address of a prefix, and the number of its addresses.
abbrev pub first : Prefix → ℕ
first (prefix (v4 n) k) = n
first (prefix unset k) = 0
first (prefix (v6 n) k) = n

abbrev pub size : Prefix → ℕ
size (prefix a zero) = 1
size (prefix a (suc b)) = 2 ^ (32 - b)

pub size_pos : (p : Prefix) → 0 < size p
size_pos (prefix a zero) = omega arith
size_pos (prefix a (suc b)) = pow_pos (32 - b)

module _ (w : ℕ) (pos : 0 < w) (n : ℕ) (start : block w n ≡ n) where
  same_block→interval : (x : ℕ) → x / w ≡ n / w → (n ≤ x) × (x < n + w)
  same_block→interval x e =
      let f : block w x ≡ n = ap (λ (t : ℕ). t * w) e ∙ start in
      (omega (arith, block-le w pos x), omega (arith, lt-block w pos x))

  pub interval→same_block : (x : ℕ) → n ≤ x → x < n + w → block w x ≡ n
  interval→same_block x h k = block_unique w pos (n / w) x (omega arith) (omega arith) ∙ start

  interval→same_quot : (x : ℕ) → n ≤ x → x < n + w → x / w ≡ n / w
  interval→same_quot x h k = div-eq_of_lt-le {k = n / w} w {m = x} (omega arith) (omega arith)

-- The addresses that a net contains are those of its interval.
pub contains_iff :
    (p : Prefix) (x : ℕ)
    → IsNet p
    → (contains p (v4 x) ≡ true) ↔ ((first p ≤ x) × (x < first p + size p))
unfolding contains
contains_iff (prefix (v4 n) (suc b)) x (hb, hn, hm) = (
  (λ e. same_block→interval (2 ^ (32 - b)) (pow_pos _) n hm x ((==_iff _ _).0 e)),
  (λ h. (==_iff _ _).1 (interval→same_quot (2 ^ (32 - b)) (pow_pos _) n hm x h.0 h.1)),
)
contains_iff (prefix (v4 n) zero) x h = absurd h
contains_iff (prefix unset k) x h = absurd h
contains_iff (prefix (v6 n) k) x h = absurd h

-- Masking changes no membership.
pub contains-masked :
    (n b x : ℕ)
    → contains (masked (prefix (v4 n) (suc b))) (v4 x) ≡ contains (prefix (v4 n) (suc b)) (v4 x)
unfolding contains masked
contains-masked n b x =
    ap (λ (t : ℕ). x / 2 ^ (32 - b) == t) (mul-div_cancel (n / 2 ^ (32 - b)) (pow_pos (32 - b)))

pub masked-IsNet : (n b : ℕ) → b ≤ 32 → n < 2 ^ 32 → IsNet (masked (prefix (v4 n) (suc b)))
unfolding masked
masked-IsNet n b hb hn =
    let w = 2 ^ (32 - b) in
    (
      hb,
      omega (arith, block-le w (pow_pos (32 - b)) n),
      ap (λ (t : ℕ). t * w) (mul-div_cancel (n / w) (pow_pos (32 - b))),
    )

-- Sizes are ordered the other way round than lengths.
pub size-le→le : (b d : ℕ) → b ≤ 32 → d ≤ 32 → 2 ^ (32 - d) ≤ 2 ^ (32 - b) → b ≤ d
size-le→le b d hb hd h = elim (dec_le b d) [
  | yes p ↦ p
  | no p ↦ absurd (omega (arith, pow_lt (32 - b) (32 - d) (omega arith)))
]

-- A net starts on the grid of every smaller net.
pub on_grid :
    (n b d : ℕ) → b ≤ d → d ≤ 32 → block (2 ^ (32 - b)) n ≡ n → (m : ℕ) × (n ≡ m * 2 ^ (32 - d))
on_grid n b d h hd start =
    let e : 32 - b - (32 - d) ≡ d - b = omega arith in
    (
      n / 2 ^ (32 - b) * 2 ^ (d - b),
      rw (mul_assoc, ← e, ← pow_split (32 - d) (32 - b) (omega arith)) (sym start),
    )

-- `Inside q p`: the addresses of `q` are addresses of `p`.
abbrev pub Inside : Prefix → Prefix → Type 0
Inside q p = (first p ≤ first q) × (first q + size q ≤ first p + size p)

near_blocks :
    (n b c d : ℕ)
    → b ≤ d
    → d ≤ 32
    → block (2 ^ (32 - b)) n ≡ n
    → block (2 ^ (32 - d)) c ≡ c
    → (n + 2 ^ (32 - b) ≤ c)
      ⊎ (c + 2 ^ (32 - d) ≤ n)
      ⊎ ((n ≤ c) × (c + 2 ^ (32 - d) ≤ n + 2 ^ (32 - b)))
near_blocks n b c d h hd sn sc =
    let w = 2 ^ (32 - d) in
    let W = 2 ^ (32 - b) in
    let (m, em) = on_grid n b d h hd sn in
    let (k, ek) = on_grid c d d (omega arith) hd sc in
    let eW : W ≡ 2 ^ (d - b) * w =
      (let e : 32 - b - (32 - d) ≡ d - b = omega arith in
        pow_split (32 - d) (32 - b) (omega arith) ∙ ap (λ t. 2 ^ t * w) e) in
    let end : n + W ≡ (m + 2 ^ (d - b)) * w = omega (arith, em, eW) in
    elim (dec_lt c n) [
      | yes below ↦
          inr
            (inl (omega (arith, em, ek, grid_gap w (pow_pos (32 - d)) k m (omega (arith, em, ek)))))
      | no above ↦ elim (dec_lt c (n + W)) [
        | yes within ↦ inr (
            inr (
              omega arith,
              omega (
                arith,
                end,
                ek,
                grid_gap w (pow_pos (32 - d)) k (m + 2 ^ (d - b)) (omega (arith, end, ek)),
              ),
            ))
        | no beyond ↦ inl (omega arith)
      ]
    ]

-- Two nets lie apart, or the smaller lies inside the larger.
pub near :
    (p q : Prefix)
    → IsNet p
    → IsNet q
    → size q ≤ size p
    → (first p + size p ≤ first q) ⊎ (first q + size q ≤ first p) ⊎ Inside q p
near (prefix (v4 n) (suc b)) (prefix (v4 c) (suc d)) (hb, _, sn) (hd, _, sc) h =
    near_blocks n b c d (size-le→le b d hb hd h) hd sn sc
near (prefix (v4 n) zero) q h k _ = absurd h
near (prefix unset _) q h k _ = absurd h
near (prefix (v6 n) _) q h k _ = absurd h
near (prefix (v4 n) (suc b)) (prefix (v4 c) zero) h k _ = absurd k
near (prefix (v4 n) (suc b)) (prefix unset _) h k _ = absurd k
near (prefix (v4 n) (suc b)) (prefix (v6 c) _) h k _ = absurd k

-- Re-prefixing an IPv4 address to a length in range.
pub masked-prefix_from :
    (n b : ℕ)
    → b ≤ 32
    → masked (prefix_from (v4 n) (suc b)) ≡ prefix (v4 (block (2 ^ (32 - b)) n)) (suc b)
unfolding masked prefix_from
masked-prefix_from n b h = ground arith
