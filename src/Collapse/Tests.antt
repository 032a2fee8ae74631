-- ===== src/Collapse/Tests.antt =====
-- Runs of `CollapseIPv4` and its theorems at concrete lists.
use go_run.Prelude.{
  true≢false, sym, ℕ, ◌+◌, ◌*◌, ◌^◌, ◌≤◌, ◌≡◌, ◌↔◌, refl, true, not, List, [], ◌∷◌, none, some,
  arith, any, length, sort_by,
}
use go_run.Netip.{
  Prefix, prefix, v4, v6, addr, addr_eq, is4, masked, prefix_eq, prefix_from, bits_plus_one,
  addr_less, bits,
}
use go_run.Collapse.{collapse_ipv4}
use go_run.Collapse.Shape.{IsCanonical, collapse_ipv4-IsCanonical}
use go_run.Collapse.Coverage.{
  covers, collapse_ipv4-covers, length-collapse_ipv4, collapse_ipv4-panics,
}
use go_run.Collapse.Minimal.{
  collapse_ipv4_canonical, collapse_ipv4_minimal, collapse_ipv4_idempotent,
}

-- 10.0.c.d/len
abbrev net : ℕ → ℕ → ℕ → Prefix
net c d len = prefix (v4 (10 * 2 ^ 24 + c * 2 ^ 8 + d)) (len + 1)

abbrev sample : List Prefix
sample = net 1 0 24 ∷ net 0 7 24 ∷ net 0 128 25 ∷ net 1 0 24 ∷ []

abbrev sample_again : List Prefix
sample_again = net 0 128 25 ∷ net 0 7 24 ∷ net 1 0 24 ∷ []

abbrev whole : List Prefix
whole = net 0 0 23 ∷ []

collapse-sample : collapse_ipv4 sample ≡ some whole
unfolding collapse_ipv4 addr addr_eq addr_less bits bits_plus_one is4 masked prefix_eq prefix_from
    sort_by
collapse-sample = refl

-- 0.0.0.0/1 and 128.0.0.0/1 make 0.0.0.0/0, and nothing more.
collapse_halves :
    collapse_ipv4 (prefix (v4 (2 ^ 31)) 2 ∷ prefix (v4 0) 2 ∷ []) ≡ some (prefix (v4 0) 1 ∷ [])
unfolding collapse_ipv4 addr addr_eq addr_less bits bits_plus_one is4 masked prefix_eq prefix_from
    sort_by
collapse_halves = refl

collapse_ipv4-covers_example :
    (r : List Prefix) × (collapse_ipv4 sample ≡ some r) × ((x : ℕ) → covers r x ≡ covers sample x)
collapse_ipv4-covers_example = collapse_ipv4-covers sample (omega arith)

collapse_ipv4-IsCanonical_example : IsCanonical whole
collapse_ipv4-IsCanonical_example =
    collapse_ipv4-IsCanonical sample whole (omega arith) collapse-sample

length-collapse_ipv4_example : length whole ≤ length sample
length-collapse_ipv4_example = length-collapse_ipv4 sample whole (omega arith) collapse-sample

same_coverage : (x : ℕ) → covers sample x ≡ covers sample_again x
same_coverage x = ground arith

collapse_ipv4_canonical_example : collapse_ipv4 sample ≡ collapse_ipv4 sample_again
collapse_ipv4_canonical_example =
    collapse_ipv4_canonical sample sample_again (omega arith) (omega arith) same_coverage

collapse_ipv4_minimal_example : length whole ≤ length sample_again
collapse_ipv4_minimal_example =
    collapse_ipv4_minimal sample sample_again whole (omega arith) (omega arith) same_coverage
      collapse-sample

whole_again : collapse_ipv4 whole ≡ some whole
whole_again = collapse_ipv4_idempotent sample whole (omega arith) collapse-sample

collapse_ipv4-panics_example :
    (collapse_ipv4 (prefix (v6 1) 129 ∷ []) ≡ none)
    ↔ (any (λ p. not (is4 (addr p))) (prefix (v6 1) 129 ∷ []) ≡ true)
unfolding is4 addr
collapse_ipv4-panics_example =
    collapse_ipv4-panics (prefix (v6 1) 129 ∷ []) ((λ e. absurd (true≢false (sym e))), tt)
