-- ===== src/Collapse/Coverage.antt =====
-- `CollapseIPv4` as a whole: what it returns for valid IPv4 prefixes, and when it panics.
use go_run.Prelude.{
  ℕ, zero, suc, ◌≤◌, ◌<◌, ◌^◌, ◌≡◌, ◌↔◌, refl, ap, ◌∙◌, true, false, true≢false, not, sym, ◌⊎◌, inl,
  inr, Bool-cases, List, [], ◌∷◌, map, Bool, arith, any, All, none, some, length, sort_by,
  any-sort_by, length-sort_by, sort_by-IsAscending, All-sort_by,
}
use go_run.Netip.{unset, v4, v6, Prefix, prefix, contains, addr, is4, masked}
use go_run.Netip.Nets.{IsNet, contains-masked, masked-IsNet}
use go_run.Collapse.{collapse_ipv4, normalize, prefix_less, dedupe, remove_covered}
use go_run.Collapse.Total.{merged_stack}
use go_run.Collapse.Calm.{merge_sibling_stack-eq}
use go_run.Collapse.Contains.{prefix_less-asymm}
use go_run.Collapse.Covered.{
  any-dedupe, length-dedupe, All-dedupe, dedupe-PairSorted, PairSorted, PairSorted-of_IsAscending,
  any-remove_covered, remove_covered-IsKept, length-remove_covered, IsKept, LastBefore-nil,
}
use go_run.Collapse.Stack.{
  IsMerged, merge_sibling_stack-IsMerged, any-merge_sibling_stack, length-merge_sibling_stack,
}

-- A valid IPv4 prefix, masked or not.
abbrev pub IsIpv4 : Prefix → Type 0
IsIpv4 (prefix (v4 n) (suc b)) = (b ≤ 32) × (n < 2 ^ 32)
IsIpv4 (prefix (v4 n) zero) = ⊥
IsIpv4 (prefix unset k) = ⊥
IsIpv4 (prefix (v6 n) k) = ⊥

-- Some prefix of the list contains the IPv4 address `x`.
abbrev pub covers : List Prefix → ℕ → Bool
covers ps x = any (λ p. contains p (v4 x)) ps

-- The stages after the loop that masks.
abbrev kept : List Prefix → List Prefix
kept ns = remove_covered [] (dedupe none (sort_by prefix_less ns))

module _ (ns : List Prefix) (nets : All IsNet ns) where
  abbrev sorted : List Prefix
  sorted = dedupe none (sort_by prefix_less ns)

  sorted-nets : All IsNet sorted
  sorted-nets = All-dedupe IsNet none _ (All-sort_by prefix_less IsNet ns nets)

  sorted-PairSorted : PairSorted sorted
  sorted-PairSorted = dedupe-PairSorted none _ (
      PairSorted-of_IsAscending _ (All-sort_by prefix_less IsNet ns nets)
        (sort_by-IsAscending prefix_less prefix_less-asymm ns))

  kept-IsKept : IsKept (kept ns)
  kept-IsKept =
      remove_covered-IsKept [] sorted (record { nets = tt; spaced = tt }) sorted-nets
        sorted-PairSorted (LastBefore-nil sorted)

  stages-IsMerged : IsMerged (merged_stack (kept ns))
  stages-IsMerged = merge_sibling_stack-IsMerged (kept ns) kept-IsKept.nets kept-IsKept.spaced

  stages-covers : (x : ℕ) → covers (merged_stack (kept ns)) x ≡ covers ns x
  stages-covers x =
      any-merge_sibling_stack (kept ns) kept-IsKept.nets kept-IsKept.spaced x
      ∙ any-remove_covered x [] sorted tt sorted-nets
      ∙ any-dedupe (λ p. contains p (v4 x)) (sort_by prefix_less ns)
      ∙ any-sort_by prefix_less (λ p. contains p (v4 x)) ns

  stages-length : length (merged_stack (kept ns)) ≤ length ns
  stages-length = omega (
    arith,
    length-merge_sibling_stack (kept ns),
    length-remove_covered [] sorted,
    length-dedupe none (sort_by prefix_less ns),
    length-sort_by prefix_less ns,
  )

normalize_lem : (ps : List Prefix) → All IsIpv4 ps → normalize ps ≡ some (map masked ps)
unfolding normalize addr is4
normalize_lem [] h = refl
normalize_lem (prefix (v4 n) (suc b) ∷ ps) (h, hs) = rw (normalize_lem ps hs)
normalize_lem (prefix (v4 n) zero ∷ ps) (h, hs) = absurd h
normalize_lem (prefix unset k ∷ ps) (h, hs) = absurd h
normalize_lem (prefix (v6 n) k ∷ ps) (h, hs) = absurd h

map-masked-nets : (ps : List Prefix) → All IsIpv4 ps → All IsNet (map masked ps)
map-masked-nets [] h = tt
map-masked-nets (prefix (v4 n) (suc b) ∷ ps) (h, hs) =
    (masked-IsNet n b h.0 h.1, map-masked-nets ps hs)
map-masked-nets (prefix (v4 n) zero ∷ ps) (h, hs) = absurd h
map-masked-nets (prefix unset k ∷ ps) (h, hs) = absurd h
map-masked-nets (prefix (v6 n) k ∷ ps) (h, hs) = absurd h

map-masked-covers :
    (x : ℕ) (ps : List Prefix) → All IsIpv4 ps → covers (map masked ps) x ≡ covers ps x
map-masked-covers x [] h = refl
map-masked-covers x (prefix (v4 n) (suc b) ∷ ps) (h, hs) =
    ground (arith, contains-masked n b x, map-masked-covers x ps hs)
map-masked-covers x (prefix (v4 n) zero ∷ ps) (h, hs) = absurd h
map-masked-covers x (prefix unset k ∷ ps) (h, hs) = absurd h
map-masked-covers x (prefix (v6 n) k ∷ ps) (h, hs) = absurd h

length-map-masked : (ps : List Prefix) → length (map masked ps) ≡ length ps
length-map-masked [] = refl
length-map-masked (p ∷ ps) = ap suc (length-map-masked ps)

-- What the result is, as a term.
abbrev pub collapsed : List Prefix → List Prefix
collapsed ps = merged_stack (kept (map masked ps))

pub collapse_ipv4-eq : (ps : List Prefix) → All IsIpv4 ps → collapse_ipv4 ps ≡ some (collapsed ps)
unfolding collapse_ipv4
collapse_ipv4-eq ps h =
    let nets = map-masked-nets ps h in
    let stages = kept-IsKept (map masked ps) nets in
    rw (collapse_ipv4, normalize_lem ps h)
      (merge_sibling_stack-eq (kept (map masked ps)) stages.nets stages.spaced)

-- For valid IPv4 prefixes `CollapseIPv4` returns a list, and that list covers exactly the IPv4
-- addresses that the given prefixes cover.
pub collapse_ipv4-covers :
    (ps : List Prefix)
    → All IsIpv4 ps
    → (r : List Prefix) × (collapse_ipv4 ps ≡ some r) × ((x : ℕ) → covers r x ≡ covers ps x)
collapse_ipv4-covers ps h = (
  collapsed ps,
  collapse_ipv4-eq ps h,
  λ x. stages-covers (map masked ps) (map-masked-nets ps h) x ∙ map-masked-covers x ps h,
)

-- What it returns for valid IPv4 prefixes is a list of masked IPv4 prefixes in ascending order,
-- clear of one another, in which no two neighbours are halves of a larger prefix.
pub collapse_ipv4-IsMerged :
    (ps r : List Prefix) → All IsIpv4 ps → collapse_ipv4 ps ≡ some r → IsMerged r
collapse_ipv4-IsMerged ps r h e =
    let same : collapsed ps ≡ r = cc (collapse_ipv4-eq ps h, e) in
    rw same at (stages-IsMerged (map masked ps) (map-masked-nets ps h))

IsIpv4-of_IsNet : (p : Prefix) → IsNet p → IsIpv4 p
IsIpv4-of_IsNet (prefix (v4 n) (suc b)) (h, k, l) = (h, k)
IsIpv4-of_IsNet (prefix (v4 n) zero) h = h
IsIpv4-of_IsNet (prefix unset k) h = h
IsIpv4-of_IsNet (prefix (v6 n) k) h = h

All-IsIpv4 : (ps : List Prefix) → All IsNet ps → All IsIpv4 ps
All-IsIpv4 [] h = tt
All-IsIpv4 (p ∷ ps) (h, hs) = (IsIpv4-of_IsNet p h, All-IsIpv4 ps hs)

-- What it returns is a list of valid IPv4 prefixes again.
pub collapse_ipv4-IsIpv4 :
    (ps r : List Prefix) → All IsIpv4 ps → collapse_ipv4 ps ≡ some r → All IsIpv4 r
collapse_ipv4-IsIpv4 ps r h e = All-IsIpv4 r (collapse_ipv4-IsMerged ps r h e).nets

-- It never returns more prefixes than it is given.
pub length-collapse_ipv4 :
    (ps r : List Prefix) → All IsIpv4 ps → collapse_ipv4 ps ≡ some r → length r ≤ length ps
length-collapse_ipv4 ps r h e =
    let same : collapsed ps ≡ r = cc (collapse_ipv4-eq ps h, e) in
    rw (← same)
      (omega (arith, stages-length (map masked ps) (map-masked-nets ps h), length-map-masked ps))

valid_or_not :
    (ps : List Prefix)
    → All (λ p. is4 (addr p) ≡ true → IsIpv4 p) ps
    → (any (λ p. not (is4 (addr p))) ps ≡ true) × (normalize ps ≡ none)
      ⊎ (any (λ p. not (is4 (addr p))) ps ≡ false) × All IsIpv4 ps
unfolding normalize
valid_or_not [] h = inr (refl, tt)
valid_or_not (p ∷ ps) (v, h) = elim (Bool-cases (is4 (addr p))) [
  | inr e ↦ inl (rw e refl, rw e refl)
  | inl e ↦ elim (valid_or_not ps h) [
    | inl (some_bad, stops) ↦ inl (rw (e, some_bad) refl, rw (e, stops) refl)
    | inr (fine, valid) ↦ inr (rw (e, fine) refl, (v e, valid))
  ]
]

-- If the IPv4 prefixes among the given ones are valid, `CollapseIPv4` panics exactly when the
-- address of some given prefix is not IPv4: the calls of `As4` after the first loop do not.
pub collapse_ipv4-panics :
    (ps : List Prefix)
    → All (λ p. is4 (addr p) ≡ true → IsIpv4 p) ps
    → (collapse_ipv4 ps ≡ none) ↔ (any (λ p. not (is4 (addr p))) ps ≡ true)
unfolding collapse_ipv4
collapse_ipv4-panics ps h = elim (valid_or_not ps h) [
  | inl (bad, stops) ↦ (λ e. bad, λ e. rw (collapse_ipv4, stops) refl)
  | inr (fine, valid) ↦
      let returns = collapse_ipv4-eq ps valid in
      (λ e. cc (e, returns), λ e. absurd (true≢false (sym e ∙ fine)))
]
