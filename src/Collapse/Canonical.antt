-- ===== src/Collapse/Canonical.antt =====
-- A merged list is determined by the addresses that it covers: every net inside its addresses
-- lies inside one of its nets. So the result of `CollapseIPv4` depends on nothing but coverage,
-- and no list of prefixes with the same coverage is shorter.
use go_run.Prelude.{
  ℕ, zero, suc, ◌+◌, ◌-◌, ◌*◌, ◌/◌, ◌≤◌, ◌<◌, ◌^◌, ◌≡◌, refl, sym, ap, ◌∙◌, inl, inr, true, false,
  List, [], ◌∷◌, Bool-cases, arith, All, pow_pos, pow_double, pow_split, block_unique, grid_gap,
}
use go_run.Netip.{unset, v4, v6, Prefix, prefix, contains}
use go_run.Netip.Nets.{IsNet, first, size, size_pos, Inside, contains_iff, on_grid}
use go_run.Collapse.Merge.{IsJoin, same_start}
use go_run.Collapse.Spaced.{Spaced-weaken}
use go_run.Collapse.Stack.{IsMerged}
use go_run.Collapse.Coverage.{covers}
use go_run.Collapse.Holds.{Holds, Holds-join, Holds-after, covers-after}

abbrev left_of : ℕ → ℕ → Prefix
left_of n b = prefix (v4 n) (suc (suc b))

abbrev right_of : ℕ → ℕ → Prefix
right_of n b = prefix (v4 (n + 2 ^ (32 - suc b))) (suc (suc b))

module _ (n b : ℕ) (h : IsNet (prefix (v4 n) (suc b))) (lt : suc b ≤ 32) where
  twice : 2 ^ (32 - b) ≡ 2 ^ (32 - suc b) + 2 ^ (32 - suc b)
  twice =
      let e : 32 - b ≡ suc (32 - suc b) = omega arith in ap (λ k. 2 ^ k) e ∙ pow_double (32 - suc b)

  on_half_grid : (m : ℕ) × (n ≡ m * 2 ^ (32 - suc b))
  on_half_grid = on_grid n b (suc b) (omega arith) lt h.2

  left-IsNet : IsNet (left_of n b)
  left-IsNet =
      let (m, e) = on_half_grid in
      (
        lt,
        h.1,
        block_unique (2 ^ (32 - suc b)) (pow_pos (32 - suc b)) m n (omega (arith, e))
              (omega (arith, e, pow_pos (32 - suc b)))
            ∙ sym e,
      )

  below_top : n + 2 ^ (32 - b) ≤ 2 ^ 32
  below_top =
      let w = 2 ^ (32 - b) in
      let e = pow_split (32 - b) 32 (omega arith) in
      omega (
        arith,
        h.2,
        e,
        pow_pos (32 - b),
        grid_gap w (pow_pos (32 - b)) (n / w) (2 ^ (32 - (32 - b))) (omega (arith, h.1, h.2, e)),
      )

  right-IsNet : IsNet (right_of n b)
  right-IsNet =
      let (m, e) = on_half_grid in
      let f : n + 2 ^ (32 - suc b) ≡ (m + 1) * 2 ^ (32 - suc b) = omega (arith, e) in
      (
        lt,
        omega (arith, below_top, twice, pow_pos (32 - suc b)),
        block_unique (2 ^ (32 - suc b)) (pow_pos (32 - suc b)) (m + 1) _ (omega (arith, f))
              (omega (arith, f, pow_pos (32 - suc b)))
            ∙ sym f,
      )

  halves-IsJoin : IsJoin (left_of n b) (right_of n b) (prefix (v4 n) (suc b))
  halves-IsJoin = record {
    net = h;
    first_eq = refl;
    size_eq = twice;
    halves = refl;
    adjacent = refl;
  }

-- Every address of `p` is covered by `r`.
abbrev IsCovered : Prefix → List Prefix → Type 0
IsCovered p r = (x : ℕ) → first p ≤ x → x < first p + size p → covers r x ≡ true

Holds-of_point :
    (x : ℕ) (r : List Prefix) (p : Prefix)
    → All IsNet r
    → first p ≡ x
    → size p ≡ 1
    → covers r x ≡ true
    → Holds r p
Holds-of_point x [] p nets e s h = cc
Holds-of_point x (k ∷ r) p (hk, nets) e s h = elim (Bool-cases (contains k (v4 x))) [
  | inl c ↦ let b = (contains_iff k x hk).0 c in inl (omega arith, omega arith)
  | inr c ↦ inr (Holds-of_point x r p nets e s (ground arith))
]

module _ (r : List Prefix) (s : IsMerged r) where
  -- By halving, down to single addresses.
  Holds-of_IsCovered :
      (m b n : ℕ)
      → IsNet (prefix (v4 n) (suc b))
      → m + b ≡ 32
      → IsCovered (prefix (v4 n) (suc b)) r
      → Holds r (prefix (v4 n) (suc b))
  Holds-of_IsCovered zero b n h e c =
      let one : 2 ^ (32 - b) ≡ 1 = (let z : 32 - b ≡ 0 = omega arith in ap (λ k. 2 ^ k) z) in
      Holds-of_point n r (prefix (v4 n) (suc b)) s.nets refl one
        (c n (omega arith) (omega (arith, one)))
  Holds-of_IsCovered (suc m) b n h e c =
      let lt : suc b ≤ 32 = omega arith in
      let two = twice n b h lt in
      Holds-join (left_of n b) (right_of n b) (prefix (v4 n) (suc b)) (left-IsNet n b h lt)
        (right-IsNet n b h lt) (halves-IsJoin n b h lt) 0 r s.nets s.spaced s.unmerged
        (Holds-of_IsCovered m (suc b) n (left-IsNet n b h lt) (omega arith)
          (λ x p q. c x p (omega (arith, two))))
        (Holds-of_IsCovered m (suc b) (n + 2 ^ (32 - suc b)) (right-IsNet n b h lt) (omega arith)
          (λ x p q. c x (omega arith) (omega (arith, two))))

  pub covered_inside : (p : Prefix) → IsNet p → IsCovered p r → Holds r p
  covered_inside (prefix (v4 n) (suc b)) h c =
      Holds-of_IsCovered (32 - b) b n h (omega (arith, h.0)) c
  covered_inside (prefix (v4 n) zero) h c = absurd h
  covered_inside (prefix unset k) h c = absurd h
  covered_inside (prefix (v6 n) k) h c = absurd h

-- Two nets that lie inside one another are one.
net_eq : (p q : Prefix) → IsNet p → IsNet q → Inside p q → Inside q p → p ≡ q
net_eq p (prefix (v4 n) (suc b)) hp hq i j = same_start n b p hq.0 hp (omega arith) (omega arith)
net_eq p (prefix (v4 n) zero) hp hq i j = absurd hq
net_eq p (prefix unset k) hp hq i j = absurd hq
net_eq p (prefix (v6 n) k) hp hq i j = absurd hq

tail-IsMerged : (k : Prefix) (r : List Prefix) → IsMerged (k ∷ r) → IsMerged r
tail-IsMerged k r s = record {
  nets = s.nets.1;
  spaced = Spaced-weaken 0 (first k + size k) r (omega arith) s.spaced.1;
  unmerged = s.unmerged.1;
}

head-IsCovered :
    (k : Prefix) (r s : List Prefix)
    → IsMerged (k ∷ r)
    → ((x : ℕ) → covers (k ∷ r) x ≡ covers s x)
    → IsCovered k s
head-IsCovered k r s m same x h l =
    let c = (contains_iff k x m.nets.0).1 (h, l) in ground (arith, same x)

-- An address of the head is in no later net.
tail_apart :
    (k : Prefix) (r : List Prefix) (x : ℕ)
    → IsMerged (k ∷ r)
    → contains k (v4 x) ≡ true
    → covers r x ≡ false
tail_apart k r x m e = elim (Bool-cases (covers r x)) [
  | inl c ↦
      let b = (contains_iff k x m.nets.0).0 e in
      absurd (omega (arith, covers-after (first k + size k) x r m.nets.1 m.spaced.1 c))
  | inr c ↦ c
]

heads_eq :
    (k l : Prefix) (r s : List Prefix)
    → IsMerged (k ∷ r)
    → IsMerged (l ∷ s)
    → Holds (k ∷ r) l
    → Holds (l ∷ s) k
    → k ≡ l
heads_eq k l r s m n (inl i) (inl j) = net_eq k l m.nets.0 n.nets.0 j i
heads_eq k l r s m n (inl i) (inr later) =
    absurd (omega (arith, Holds-after (first l + size l) s k n.spaced.1 later, size_pos l))
heads_eq k l r s m n (inr later) (inl j) =
    absurd (omega (arith, Holds-after (first k + size k) r l m.spaced.1 later, size_pos k))
heads_eq k l r s m n (inr later) (inr later') = absurd (
    omega (
      arith,
      Holds-after (first k + size k) r l m.spaced.1 later,
      Holds-after (first l + size l) s k n.spaced.1 later',
      size_pos k,
      size_pos l,
    ))

tails_same :
    (k l : Prefix) (r s : List Prefix)
    → IsMerged (k ∷ r)
    → IsMerged (l ∷ s)
    → k ≡ l
    → ((x : ℕ) → covers (k ∷ r) x ≡ covers (l ∷ s) x)
    → (x : ℕ) → covers r x ≡ covers s x
tails_same k l r s m n e same x =
    let f : contains k (v4 x) ≡ contains l (v4 x) = ap (λ p. contains p (v4 x)) e in
    elim (Bool-cases (contains k (v4 x))) [
      | inl c ↦ tail_apart k r x m c ∙ sym (tail_apart l s x n (sym f ∙ c))
      | inr c ↦ ground (arith, same x)
    ]

pub merged_unique :
    (r s : List Prefix) → IsMerged r → IsMerged s → ((x : ℕ) → covers r x ≡ covers s x) → r ≡ s
merged_unique [] [] m n same = refl
merged_unique [] (l ∷ s) m n same =
    let c =
      head-IsCovered l s [] n (λ x. sym (same x)) (first l) (omega arith)
        (omega (arith, size_pos l)) in
    cc
merged_unique (k ∷ r) [] m n same =
    let c = head-IsCovered k r [] m same (first k) (omega arith) (omega (arith, size_pos k)) in cc
merged_unique (k ∷ r) (l ∷ s) m n same =
    let heads : k ≡ l =
      heads_eq k l r s m n
        (covered_inside (k ∷ r) m l n.nets.0 (head-IsCovered l s (k ∷ r) n (λ x. sym (same x))))
        (covered_inside (l ∷ s) n k m.nets.0 (head-IsCovered k r (l ∷ s) m same)) in
    let tails : r ≡ s =
      merged_unique r s (tail-IsMerged k r m) (tail-IsMerged l s n)
        (tails_same k l r s m n heads same) in
    cc
