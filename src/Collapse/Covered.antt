-- ===== src/Collapse/Covered.antt =====
-- `removeCoveredIPv4` and the deduplication before it, on sorted lists of nets.
use go_run.Prelude.{
  ℕ, ◌+◌, ◌≤◌, ◌≡◌, refl, true, false, List, [], ◌∷◌, ◌++◌, Bool, Bool-cases, inl, inr, arith, any,
  any-append, ◌||◌, All, All-append, Option, none, some, length, length-append, IsAscending, HeadOk,
}
use go_run.Netip.{unset, v4, v6, Addr, Prefix, prefix, contains, prefix_eq, addr_eq}
use go_run.Netip.Nets.{IsNet, first, Inside, contains_iff}
use go_run.Collapse.{ipv4_prefix_contains, prefix_less, dedupe, is_last, remove_covered}
use go_run.Collapse.Contains.{
  Before, Before-of_not_less, apart_of_not_contains, ipv4_prefix_contains_iff,
}
use go_run.Collapse.Spaced.{Spaced, Spaced-concat, end}

abbrev has : ℕ → Prefix → Bool
has x p = contains p (v4 x)

addr_eq→eq : (a b : Addr) → addr_eq a b ≡ true → a ≡ b
unfolding addr_eq
addr_eq→eq unset b h = ground arith
addr_eq→eq (v4 m) b h = ground arith
addr_eq→eq (v6 m) b h = ground arith

pub prefix_eq→eq : (p q : Prefix) → prefix_eq p q ≡ true → p ≡ q
unfolding prefix_eq
prefix_eq→eq (prefix a k) (prefix b l) h = ground (arith, addr_eq→eq a b)

passes_last : (Prefix → Bool) → Option Prefix → Bool
passes_last f none = false
passes_last f (some q) = f q

any-dedupe_last :
    (f : Prefix → Bool) (last : Option Prefix) (ps : List Prefix)
    → (passes_last f last || any f (dedupe last ps)) ≡ (passes_last f last || any f ps)
unfolding dedupe passes_last
any-dedupe_last f last [] = refl
any-dedupe_last f none (p ∷ ps) = any-dedupe_last f (some p) ps
any-dedupe_last f (some q) (p ∷ ps) =
    ground (arith, prefix_eq→eq q p, any-dedupe_last f (some q) ps, any-dedupe_last f (some p) ps)

pub any-dedupe : (f : Prefix → Bool) (ps : List Prefix) → any f (dedupe none ps) ≡ any f ps
unfolding passes_last
any-dedupe f ps = any-dedupe_last f none ps

pub length-dedupe : (last : Option Prefix) (ps : List Prefix) → length (dedupe last ps) ≤ length ps
unfolding dedupe
length-dedupe last [] = omega arith
length-dedupe last (p ∷ ps) = ground (arith, length-dedupe last ps, length-dedupe (some p) ps)

-- Every earlier net comes before every later one.
abbrev pub PairSorted : List Prefix → Type 0
PairSorted [] = Unit
PairSorted (p ∷ ps) = All (Before p) ps × PairSorted ps

pub All-dedupe :
    (P : Prefix → Type 0) (last : Option Prefix) (ps : List Prefix)
    → All P ps
    → All P (dedupe last ps)
unfolding dedupe
All-dedupe P last [] h = tt
All-dedupe P last (p ∷ ps) (h, hs) = elim (Bool-cases (is_last last p)) [
  | inl e ↦ rw (e, dedupe) (All-dedupe P last ps hs)
  | inr e ↦ rw (e, dedupe) (h, All-dedupe P (some p) ps hs)
]

pub dedupe-PairSorted :
    (last : Option Prefix) (ps : List Prefix) → PairSorted ps → PairSorted (dedupe last ps)
unfolding dedupe
dedupe-PairSorted last [] h = tt
dedupe-PairSorted last (p ∷ ps) (h, hs) = elim (Bool-cases (is_last last p)) [
  | inl e ↦ rw (e, dedupe) (dedupe-PairSorted last ps hs)
  | inr e ↦ rw (e, dedupe) (All-dedupe (Before p) (some p) ps h, dedupe-PairSorted (some p) ps hs)
]

Before-trans : (p q r : Prefix) → Before p q → Before q r → Before p r
Before-trans p q r h k = (omega arith, λ le. omega (arith, h.1, k.1))

Before-All-trans :
    (p q : Prefix) (ps : List Prefix) → Before p q → All (Before q) ps → All (Before p) ps
Before-All-trans p q [] h k = tt
Before-All-trans p q (r ∷ ps) h (k, ks) = (Before-trans p q r h k, Before-All-trans p q ps h ks)

-- Neighbours in the order of the sort are enough.
Before-All :
    (p : Prefix) (ps : List Prefix)
    → IsNet p
    → All IsNet ps
    → HeadOk prefix_less p ps
    → IsAscending prefix_less ps
    → All (Before p) ps
Before-All p [] hp nets h s = tt
Before-All p (q ∷ ps) hp (hq, nets) h (k, s) =
    let le = Before-of_not_less p q hp hq h in
    (le, Before-All-trans p q ps le (Before-All q ps hq nets k s))

pub PairSorted-of_IsAscending :
    (ps : List Prefix) → All IsNet ps → IsAscending prefix_less ps → PairSorted ps
PairSorted-of_IsAscending [] nets s = tt
PairSorted-of_IsAscending (p ∷ ps) (hp, nets) (k, s) =
    (Before-All p ps hp nets k s, PairSorted-of_IsAscending ps nets s)

-- The last net kept comes before `p`.
abbrev pub LastBefore : List Prefix → Prefix → Type 0
LastBefore [] p = Unit
LastBefore (k ∷ []) p = Before k p
LastBefore (k ∷ l ∷ out) p = LastBefore (l ∷ out) p

pub LastBefore-nil : (ps : List Prefix) → All (LastBefore []) ps
LastBefore-nil [] = tt
LastBefore-nil (p ∷ ps) = (tt, LastBefore-nil ps)

LastBefore-concat : (out : List Prefix) (p q : Prefix) → Before p q → LastBefore (out ++ p ∷ []) q
LastBefore-concat [] p q h = h
LastBefore-concat (k ∷ []) p q h = h
LastBefore-concat (k ∷ l ∷ out) p q h = LastBefore-concat (l ∷ out) p q h

LastBefore-All-concat :
    (out : List Prefix) (p : Prefix) (ps : List Prefix)
    → All (Before p) ps
    → All (LastBefore (out ++ p ∷ [])) ps
LastBefore-All-concat out p [] h = tt
LastBefore-All-concat out p (q ∷ ps) (h, hs) =
    (LastBefore-concat out p q h, LastBefore-All-concat out p ps hs)

-- If no kept net contains `p`, all of them end before it.
end-le-first :
    (n : ℕ) (out : List Prefix) (p : Prefix)
    → All IsNet out
    → IsNet p
    → n ≤ first p
    → LastBefore out p
    → any (λ k. ipv4_prefix_contains k p) out ≡ false
    → end n out ≤ first p
end-le-first n [] p ho hp le h e = le
end-le-first n (k ∷ []) p ho hp le h e = apart_of_not_contains k p ho.0 hp h (ground arith)
end-le-first n (k ∷ l ∷ out) p (hk, ho) hp le h e =
    end-le-first 0 (l ∷ out) p ho hp (omega arith) h (ground arith)

has-Inside :
    (x : ℕ) (p k : Prefix) → IsNet p → IsNet k → Inside p k → has x p ≡ true → has x k ≡ true
has-Inside x p k hp hk inside h =
    (contains_iff k x hk).1 (let b = (contains_iff p x hp).0 h in (omega arith, omega arith))

-- Nets that are covered by a kept net add no address.
any-covered :
    (x : ℕ) (out : List Prefix) (p : Prefix)
    → All IsNet out
    → IsNet p
    → any (λ k. ipv4_prefix_contains k p) out ≡ true
    → has x p ≡ true
    → any (has x) out ≡ true
any-covered x [] p ho hp e h = e
any-covered x (k ∷ out) p (hk, ho) hp e h = elim (Bool-cases (ipv4_prefix_contains k p)) [
  | inl c ↦ rw (has-Inside x p k hp hk ((ipv4_prefix_contains_iff k p hk hp).0 c) h)
  | inr c ↦ let ih = any-covered x out p ho hp (ground arith) h in ground arith
]

module _ (x : ℕ) where
  pub any-remove_covered :
      (out ps : List Prefix)
      → All IsNet out
      → All IsNet ps
      → any (has x) (remove_covered out ps) ≡ (any (has x) out || any (has x) ps)
  unfolding remove_covered
  any-remove_covered out [] ho hs = ground arith
  any-remove_covered out (p ∷ ps) ho (hp, hs) =
      elim (Bool-cases (any (λ k. ipv4_prefix_contains k p) out)) [
        | inl e ↦
            rw (e, remove_covered)
              (ground (arith, any-remove_covered out ps ho hs, any-covered x out p ho hp e))
        | inr e ↦
            let ho' = All-append IsNet out (p ∷ []) ho (hp, tt) in
            rw (e, remove_covered)
              (ground (
                arith,
                any-remove_covered (out ++ p ∷ []) ps ho' hs,
                any-append (has x) out (p ∷ []),
              ))
      ]

pub record IsKept (out : List Prefix) : Type 0 where
  pub nets : All IsNet out
  pub spaced : Spaced 0 out

pub remove_covered-IsKept :
    (out ps : List Prefix)
    → IsKept out
    → All IsNet ps
    → PairSorted ps
    → All (LastBefore out) ps
    → IsKept (remove_covered out ps)
unfolding remove_covered
remove_covered-IsKept out [] ho hs sorted last = ho
remove_covered-IsKept out (p ∷ ps) ho (hp, hs) (before, sorted) (last, lasts) =
    elim (Bool-cases (any (λ k. ipv4_prefix_contains k p) out)) [
      | inl e ↦ rw (e, remove_covered) (remove_covered-IsKept out ps ho hs sorted lasts)
      | inr e ↦
          let le = end-le-first 0 out p ho.nets hp (omega arith) last e in
          rw (e, remove_covered)
            (remove_covered-IsKept (out ++ p ∷ []) ps
              (record {
                nets = All-append IsNet out (p ∷ []) ho.nets (hp, tt);
                spaced = Spaced-concat 0 out p ho.spaced le;
              })
              hs sorted (LastBefore-All-concat out p ps before))
    ]

pub length-remove_covered :
    (out ps : List Prefix) → length (remove_covered out ps) ≤ length out + length ps
unfolding remove_covered
length-remove_covered out [] = omega arith
length-remove_covered out (p ∷ ps) = elim (Bool-cases (any (λ k. ipv4_prefix_contains k p) out)) [
  | inl e ↦ rw (e, remove_covered) (omega (arith, length-remove_covered out ps))
  | inr e ↦
      rw (e, remove_covered)
        (omega (arith, length-remove_covered (out ++ p ∷ []) ps, length-append out (p ∷ [])))
]
