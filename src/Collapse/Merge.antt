-- ===== src/Collapse/Merge.antt =====
-- `mergeIPv4Siblings` on nets: what it returns is the net made of the two halves.
use go_run.Prelude.{
  ℕ, zero, suc, ◌+◌, ◌-◌, ◌*◌, ◌/◌, ◌%◌, ◌^◌, ◌≤◌, ◌<◌, ◌≡◌, refl, sym, ap, ◌∙◌, ◌≢◌, ◌↔◌, Bool,
  true, not, none, some, arith, ◌==◌, ◌||◌, block, if◌then◌else◌, lt-block, block-le, pow_pos,
  ==_iff, pow_double, block_unique, grid_gap,
}
use mathlib.Core.Path.{subst}
use native.Mathlib.Decide.{dec_lt, ℕ_discrete}
use go_run.Netip.{addr_less, unset, v4, v6, Prefix, prefix, addr, bits, bits_plus_one, prefix_eq}
use go_run.Netip.Nets.{
  IsNet, first, size, near, masked-prefix_from, size-le→le, on_grid, interval→same_block,
}
use mathlib.Core.Option.{some_inj}
use go_run.Collapse.Total.{flat, flat_iff, sibling}
use go_run.Collapse.{ipv4_to_uint32, uint32_to_ipv4, merge_ordered, merge_ipv4_siblings}

-- The bytes of an address are its number.
pub ipv4_to_uint32_lem : (n : ℕ) → n < 2 ^ 32 → ipv4_to_uint32 (v4 n) ≡ some n
unfolding ipv4_to_uint32
ipv4_to_uint32_lem n h = ap some (omega arith)

pub uint32_to_ipv4_lem : (n : ℕ) → n < 2 ^ 32 → uint32_to_ipv4 n ≡ v4 n
unfolding uint32_to_ipv4
uint32_to_ipv4_lem n h = ap v4 (omega arith)

-- Where the right half would start.
abbrev pub right_start : ℕ → ℕ → ℕ
right_start b n = (block (2 ^ (32 - b)) n + 2 ^ (32 - suc b) % 2 ^ 32) % 2 ^ 32

pub merge_ordered_lem :
    (n c b : ℕ)
    → suc b ≤ 32
    → n < 2 ^ 32
    → merge_ordered (prefix (v4 n) (suc (suc b))) (prefix (v4 c) (suc (suc b)))
      ≡ some (
          if not (block (2 ^ (32 - b)) c == block (2 ^ (32 - b)) n)
          then none
          else if not (n == block (2 ^ (32 - suc b)) (block (2 ^ (32 - b)) n))
          then none
          else if not (c == block (2 ^ (32 - suc b)) (right_start b n))
          then none
          else some (prefix (v4 (block (2 ^ (32 - b)) n)) (suc b)))
unfolding merge_ordered addr bits bits_plus_one
merge_ordered_lem n c b hb hn =
    let start : block (2 ^ (32 - b)) n < 2 ^ 32 =
      omega (arith, block-le (2 ^ (32 - b)) (pow_pos (32 - b)) n) in
    simp
      (
        masked-prefix_from n b (omega arith),
        masked-prefix_from c b (omega arith),
        masked-prefix_from (block (2 ^ (32 - b)) n) (suc b) hb,
        ipv4_to_uint32_lem (block (2 ^ (32 - b)) n) start,
        uint32_to_ipv4_lem (right_start b n) (omega arith),
        masked-prefix_from (right_start b n) (suc b) hb,
      )
      (unfold prefix_eq in ground arith)

passes :
    {A : Type 0} (x y z : Bool) {v r : A}
    → (if not x then none else if not y then none else if not z then none else some v) ≡ some r
    → (x ≡ true) × (y ≡ true) × (z ≡ true) × (r ≡ v)
passes x y z h = ground arith

==_refl : (n : ℕ) → (n == n) ≡ true
==_refl n = ground arith

module _ (n c b : ℕ) (hp : IsNet (prefix (v4 n) (suc (suc b))))
    (hq : IsNet (prefix (v4 c) (suc (suc b)))) (apart : n + 2 ^ (32 - suc b) ≤ c) where
  abbrev half : ℕ
  half = 2 ^ (32 - suc b)

  whole_eq : 2 ^ (32 - b) ≡ half + half
  whole_eq =
      let e : 32 - b ≡ suc (32 - suc b) = omega (arith, hp.0) in
      ap (λ k. 2 ^ k) e ∙ pow_double (32 - suc b)

  -- The parent starts on the grid of its halves.
  parent_start : block half (block (2 ^ (32 - b)) n) ≡ block (2 ^ (32 - b)) n
  parent_start =
      let q = n / 2 ^ (32 - b) in
      let e : block (2 ^ (32 - b)) n ≡ (q + q) * half = (ap (λ t. q * t) whole_eq ∙ omega arith) in
      rw e (
        block_unique half (pow_pos (32 - suc b)) (q + q) _ (omega arith)
          (omega (arith, pow_pos (32 - suc b))))

  -- A later net of the size of a half, inside the parent, is the right half.
  right_half : block (2 ^ (32 - b)) c ≡ n → c ≡ n + half
  right_half e =
      let (m, em) = on_grid n (suc b) (suc b) (omega arith) hp.0 hp.2 in
      let (k, ek) = on_grid c (suc b) (suc b) (omega arith) hq.0 hq.2 in
      let above = lt-block (2 ^ (32 - b)) (pow_pos (32 - b)) c in
      let end : n + half ≡ (m + 1) * half = omega (arith, em) in
      elim (dec_lt (n + half) c) [
        | yes past ↦ absurd (
            omega (
              arith,
              whole_eq,
              end,
              ek,
              e,
              above,
              grid_gap half (pow_pos (32 - suc b)) (m + 1) k (omega (arith, end, ek)),
            ))
        | no near ↦ omega arith
      ]

  abbrev AreHalves : Type 0
  AreHalves = (block (2 ^ (32 - b)) n ≡ n) × (c ≡ n + half)

  merge_ordered→AreHalves :
      {r : Prefix}
      → merge_ordered (prefix (v4 n) (suc (suc b))) (prefix (v4 c) (suc (suc b))) ≡ some (some r)
      → (block (2 ^ (32 - b)) n ≡ n) × (c ≡ n + half) × (r ≡ prefix (v4 n) (suc b))
  merge_ordered→AreHalves {r} e =
      let t = merge_ordered_lem n c b hp.0 hp.1 in
      let (same, left, _, parent) =
        passes (block (2 ^ (32 - b)) c == block (2 ^ (32 - b)) n)
          (n == block half (block (2 ^ (32 - b)) n)) (c == block half (right_start b n))
          (some_inj.0 (sym t ∙ e)) in
      let start : block (2 ^ (32 - b)) n ≡ n =
        omega (arith, (==_iff n (block half (block (2 ^ (32 - b)) n))).0 left, parent_start) in
      (
        start,
        right_half ((==_iff (block (2 ^ (32 - b)) c) (block (2 ^ (32 - b)) n)).0 same ∙ start),
        parent ∙ ap (λ t. prefix (v4 t) (suc b)) start,
      )

  AreHalves→merge_ordered :
      AreHalves
      → merge_ordered (prefix (v4 n) (suc (suc b))) (prefix (v4 c) (suc (suc b)))
        ≡ some (some (prefix (v4 n) (suc b)))
  AreHalves→merge_ordered (start, next) =
      let pos = pow_pos (32 - suc b) in
      let same : block (2 ^ (32 - b)) c ≡ n =
        interval→same_block (2 ^ (32 - b)) (pow_pos (32 - b)) n start c (omega arith)
          (omega (arith, whole_eq)) in
      let from : (n + 2 ^ (32 - suc b) % 2 ^ 32) % 2 ^ 32 ≡ c = omega (arith, next, hq.1) in
      merge_ordered_lem n c b hp.0 hp.1
      ∙ rw (start, same, from, hp.2, hq.2) (simp (==_refl n, ==_refl c))

-- `r` is made of the halves `p` and `q`.
pub record IsJoin (p q r : Prefix) : Type 0 where
  pub net : IsNet r
  pub first_eq : first r ≡ first p
  pub size_eq : size r ≡ size p + size p
  pub halves : size q ≡ size p
  pub adjacent : first q ≡ first p + size p

pub same_start :
    (n b : ℕ) (r : Prefix)
    → b ≤ 32
    → IsNet r
    → first r ≡ n
    → size r ≡ 2 ^ (32 - b)
    → r ≡ prefix (v4 n) (suc b)
same_start n b (prefix (v4 m) (suc d)) hb hr e s =
    let f : d ≡ b =
      omega (arith, size-le→le d b hr.0 hb (omega arith), size-le→le b d hb hr.0 (omega arith)) in
    cc
same_start n b (prefix (v4 m) zero) hb hr e s = absurd hr
same_start n b (prefix unset _) hb hr e s = absurd hr
same_start n b (prefix (v6 m) _) hb hr e s = absurd hr

pub siblings_lem :
    (n c b d : ℕ)
    → n ≤ c
    → merge_ipv4_siblings (prefix (v4 n) (suc b)) (prefix (v4 c) (suc d)) ≡ (
        if not (b == d) || b == 0
        then some none
        else merge_ordered (prefix (v4 n) (suc b)) (prefix (v4 c) (suc d)))
unfolding merge_ipv4_siblings addr bits_plus_one addr_less
siblings_lem n c b d h = ground arith

same_size : (b d : ℕ) → b ≤ 32 → d ≤ 32 → 2 ^ (32 - d) ≡ 2 ^ (32 - b) → b ≡ d
same_size b d hb hd e =
    omega (arith, size-le→le d b hd hb (omega arith), size-le→le b d hb hd (omega arith))

differing_lengths :
    (n c b d : ℕ) (r : Prefix)
    → n ≤ c
    → b ≢ d
    → sibling (prefix (v4 n) (suc b)) (prefix (v4 c) (suc d)) ≢ some r
unfolding sibling flat
differing_lengths n c b d r h ne e = ground (arith, siblings_lem n c b d h)

abbrev pub Merges : Prefix → Prefix → Prefix → Type 0
Merges p q r = (sibling p q ≡ some r) ↔ IsJoin p q r

same_length :
    (n c b : ℕ) (r : Prefix)
    → IsNet (prefix (v4 n) (suc (suc b)))
    → IsNet (prefix (v4 c) (suc (suc b)))
    → n + 2 ^ (32 - suc b) ≤ c
    → Merges (prefix (v4 n) (suc (suc b))) (prefix (v4 c) (suc (suc b))) r
unfolding sibling flat
same_length n c b r hp hq apart = (to, from)
  where
    down :
        merge_ipv4_siblings (prefix (v4 n) (suc (suc b))) (prefix (v4 c) (suc (suc b)))
        ≡ merge_ordered (prefix (v4 n) (suc (suc b))) (prefix (v4 c) (suc (suc b)))
    down = siblings_lem n c (suc b) (suc b) (omega arith) ∙ ground arith

    to :
        sibling (prefix (v4 n) (suc (suc b))) (prefix (v4 c) (suc (suc b))) ≡ some r
        → IsJoin (prefix (v4 n) (suc (suc b))) (prefix (v4 c) (suc (suc b))) r
    to e =
        let (start, next, eq) =
          merge_ordered→AreHalves n c b hp hq apart (sym down ∙ (flat_iff _ r).0 e) in
        subst (λ t. IsJoin (prefix (v4 n) (suc (suc b))) (prefix (v4 c) (suc (suc b))) t) (sym eq)
          (record {
            net = (omega (arith, hp.0), hp.1, start);
            first_eq = refl;
            size_eq = whole_eq n c b hp hq apart;
            halves = refl;
            adjacent = next;
          })

    from :
        IsJoin (prefix (v4 n) (suc (suc b))) (prefix (v4 c) (suc (suc b))) r
        → sibling (prefix (v4 n) (suc (suc b))) (prefix (v4 c) (suc (suc b))) ≡ some r
    from j =
        let eq =
          same_start n b r (omega (arith, hp.0)) j.net j.first_eq
            (j.size_eq ∙ sym (whole_eq n c b hp hq apart)) in
        let net : IsNet (prefix (v4 n) (suc b)) = subst IsNet eq j.net in
        (flat_iff _ r).1 (
          down
          ∙ AreHalves→merge_ordered n c b hp hq apart (net.2, j.adjacent)
          ∙ ap (λ t. some (some t)) (sym eq))

pub merges : (p q r : Prefix) → IsNet p → IsNet q → first p + size p ≤ first q → Merges p q r
merges (prefix (v4 n) (suc zero)) (prefix (v4 c) (suc d)) r hp hq apart =
    absurd (omega (arith, hq.1))
merges (prefix (v4 n) (suc (suc b))) (prefix (v4 c) (suc d)) r hp hq apart =
    elim (ℕ_discrete (suc b) d) [
      | yes e ↦
          subst
            (λ t.
              IsNet (prefix (v4 c) (suc t))
              → Merges (prefix (v4 n) (suc (suc b))) (prefix (v4 c) (suc t)) r)
            e (λ h. same_length n c b r hp h apart) hq
      | no ne ↦ (
        (λ e. absurd (differing_lengths n c (suc b) d r (omega arith) ne e)),
        (λ j. absurd (ne (same_size (suc b) d hp.0 hq.0 j.halves))),
      )
    ]
merges (prefix (v4 n) zero) q r h k _ = absurd h
merges (prefix unset _) q r h k _ = absurd h
merges (prefix (v6 n) _) q r h k _ = absurd h
merges (prefix (v4 n) (suc zero)) (prefix (v4 c) zero) r h k _ = absurd k
merges (prefix (v4 n) (suc zero)) (prefix unset _) r h k _ = absurd k
merges (prefix (v4 n) (suc zero)) (prefix (v6 c) _) r h k _ = absurd k
merges (prefix (v4 n) (suc (suc b))) (prefix (v4 c) zero) r h k _ = absurd k
merges (prefix (v4 n) (suc (suc b))) (prefix unset _) r h k _ = absurd k
merges (prefix (v4 n) (suc (suc b))) (prefix (v6 c) _) r h k _ = absurd k
