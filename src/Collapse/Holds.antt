-- ===== src/Collapse/Holds.antt =====
-- The nets that lie inside one net of a merged list.
use go_run.Prelude.{
  ℕ, zero, suc, ◌+◌, ◌-◌, ◌≤◌, ◌<◌, ◌≡◌, ◌⊎◌, inl, inr, true, List, [], ◌∷◌, Bool-cases, arith, All,
  pow_double, pow_mono,
}
use native.Mathlib.Decide.{dec_lt, dec_le}
use go_run.Netip.{unset, v4, v6, Prefix, prefix, contains}
use go_run.Netip.Nets.{IsNet, first, size, size_pos, Inside, near, contains_iff}
use go_run.Collapse.Merge.{IsJoin, merges}
use go_run.Collapse.Spaced.{Spaced, Unmerged, NoSibling}
use go_run.Collapse.Coverage.{covers}

-- Some net of the list has all addresses of `p`.
abbrev pub Holds : List Prefix → Prefix → Type 0
Holds [] p = ⊥
Holds (k ∷ r) p = Inside p k ⊎ Holds r p

pub Holds-after : (n : ℕ) (r : List Prefix) (p : Prefix) → Spaced n r → Holds r p → n ≤ first p
Holds-after n [] p s h = absurd h
Holds-after n (k ∷ r) p (le, s) (inl inside) = omega arith
Holds-after n (k ∷ r) p (le, s) (inr h) =
    omega (arith, Holds-after (first k + size k) r p s h, size_pos k)

pub covers-after :
    (n x : ℕ) (r : List Prefix) → All IsNet r → Spaced n r → covers r x ≡ true → n ≤ x
covers-after n x [] nets s h = cc
covers-after n x (k ∷ r) (hk, nets) (le, s) h = elim (Bool-cases (contains k (v4 x))) [
  | inl e ↦ let b = (contains_iff k x hk).0 e in omega arith
  | inr e ↦ omega (arith, covers-after (first k + size k) x r nets s (ground arith), size_pos k)
]

pub Holds-covers :
    (x : ℕ) (r : List Prefix) (p : Prefix)
    → All IsNet r
    → first p ≤ x
    → x < first p + size p
    → Holds r p
    → covers r x ≡ true
Holds-covers x [] p nets h k e = absurd e
Holds-covers x (l ∷ r) p (hl, nets) h k (inl inside) =
    let c = (contains_iff l x hl).1 (omega arith, omega arith) in rw c
Holds-covers x (l ∷ r) p (hl, nets) h k (inr rest) =
    let c = Holds-covers x r p nets h k rest in ground arith

-- A net smaller than twice a net is at most as large as it.
size_step : (p q : Prefix) → IsNet p → IsNet q → size q < size p + size p → size q ≤ size p
size_step (prefix (v4 n) (suc b)) (prefix (v4 c) (suc d)) (hb, _, _) (hd, _, _) h =
    elim (dec_le b d) [
      | yes le ↦ pow_mono (32 - d) (32 - b) (omega arith)
      | no gt ↦
          absurd
            (omega (arith, pow_double (32 - b), pow_mono (suc (32 - b)) (32 - d) (omega arith)))
    ]
size_step (prefix (v4 n) zero) q h k _ = absurd h
size_step (prefix unset _) q h k _ = absurd h
size_step (prefix (v6 n) _) q h k _ = absurd h
size_step (prefix (v4 n) (suc b)) (prefix (v4 c) zero) h k _ = absurd k
size_step (prefix (v4 n) (suc b)) (prefix unset _) h k _ = absurd k
size_step (prefix (v4 n) (suc b)) (prefix (v6 c) _) h k _ = absurd k

-- A net that has the left half of `p` and is not that half alone has all of `p`.
left_or_whole :
    (l q p k : Prefix)
    → IsNet l
    → IsNet k
    → IsJoin l q p
    → Inside l k
    → Inside p k ⊎ ((first k ≡ first l) × (size k ≡ size l))
left_or_whole l q p k hl hk j inside = elim (dec_lt (size k) (size l + size l)) [
  | yes small ↦ inr (
    omega (arith, size_step l k hl hk small, size_pos l),
    omega (arith, size_step l k hl hk small),
  )
  | no large ↦ elim (near k p hk j.net (omega (arith, j.size_eq))) [
    | inl apart ↦ absurd (omega (arith, j.first_eq, size_pos l))
    | inr (inl apart) ↦ absurd (omega (arith, j.first_eq, j.size_eq, size_pos l))
    | inr (inr whole) ↦ inl whole
  ]
]

right_or_whole :
    (l q p k : Prefix)
    → IsNet q
    → IsNet k
    → IsJoin l q p
    → Inside q k
    → Inside p k ⊎ ((first k ≡ first q) × (size k ≡ size q))
right_or_whole l q p k hq hk j inside = elim (dec_lt (size k) (size q + size q)) [
  | yes small ↦ inr (
    omega (arith, size_step q k hq hk small, size_pos q),
    omega (arith, size_step q k hq hk small),
  )
  | no large ↦ elim (near k p hk j.net (omega (arith, j.size_eq, j.halves))) [
    | inl apart ↦ absurd (omega (arith, j.first_eq, j.size_eq, j.adjacent, j.halves, size_pos q))
    | inr (inl apart) ↦
        absurd (omega (arith, j.first_eq, j.size_eq, j.adjacent, j.halves, size_pos q))
    | inr (inr whole) ↦ inl whole
  ]
]

-- A net that starts where the list starts lies inside the first net of the list.
Holds-head :
    (n : ℕ) (k : Prefix) (r : List Prefix) (p : Prefix)
    → Spaced n (k ∷ r)
    → first p ≡ n
    → Holds (k ∷ r) p
    → Inside p k
Holds-head n k r p s e (inl inside) = inside
Holds-head n k r p (le, s) e (inr h) =
    absurd (omega (arith, Holds-after (first k + size k) r p s h, size_pos k))

-- In a merged list two halves of a net lie inside one net of the list.
module _ (l q p : Prefix) (hl : IsNet l) (hq : IsNet q) (j : IsJoin l q p) where
  next_to_left :
      (k : Prefix) (r : List Prefix)
      → IsNet k
      → All IsNet r
      → Spaced (first k + size k) r
      → NoSibling k r
      → first k ≡ first l
      → size k ≡ size l
      → Holds r q
      → Inside p k
  next_to_left k [] hk nets s un ef es h = absurd h
  next_to_left k (m ∷ r) hk (hm, nets) s un ef es h =
      let inside = Holds-head (first k + size k) m r q s (omega (arith, j.adjacent)) h in
      elim (right_or_whole l q p m hq hm j inside) [
        | inl whole ↦ absurd (omega (arith, j.first_eq, s.0, size_pos k))
        | inr same ↦
            let joins : IsJoin k m p = record {
              net = j.net;
              first_eq = omega (arith, j.first_eq);
              size_eq = omega (arith, j.size_eq);
              halves = omega (arith, j.halves);
              adjacent = omega (arith, j.adjacent);
            } in
            cc (un, (merges k m p hk hm s.0).1 joins)
      ]

  pub Holds-join :
      (n : ℕ) (r : List Prefix)
      → All IsNet r
      → Spaced n r
      → Unmerged r
      → Holds r l
      → Holds r q
      → Holds r p
  Holds-join n [] nets s un hl' hq' = hl'
  Holds-join n (k ∷ r) (hk, nets) (le, s) (un, uns) (inl inside) (inl inside') =
      inl (omega (arith, j.first_eq), omega (arith, j.first_eq, j.size_eq, j.adjacent, j.halves))
  Holds-join n (k ∷ r) (hk, nets) (le, s) (un, uns) (inl inside) (inr later) =
      elim (left_or_whole l q p k hl hk j inside) [
        | inl whole ↦ inl whole
        | inr same ↦ inl (next_to_left k r hk nets s un same.0 same.1 later)
      ]
  Holds-join n (k ∷ r) (hk, nets) (le, s) (un, uns) (inr later) (inl inside) = absurd (
      omega (arith, Holds-after (first k + size k) r l s later, j.adjacent, size_pos l, size_pos q))
  Holds-join n (k ∷ r) (hk, nets) (le, s) (un, uns) (inr later) (inr later') =
      inr (Holds-join (first k + size k) r nets s uns later later')
