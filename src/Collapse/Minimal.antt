-- ===== src/Collapse/Minimal.antt =====
-- What `CollapseIPv4` returns depends only on coverage, is shortest, and is a fixed point.
use go_run.Prelude.{ℕ, suc, zero, ◌≤◌, ◌≡◌, sym, ap, ◌∙◌, List, [], ◌∷◌, All, some, length}
use go_run.Netip.{Prefix, prefix, unset, v4, v6}
use go_run.Netip.Nets.{IsNet}
use go_run.Collapse.{collapse_ipv4}
use go_run.Collapse.Coverage.{
  covers, IsIpv4, collapse_ipv4-covers, collapse_ipv4-IsMerged, length-collapse_ipv4,
}
use go_run.Collapse.Canonical.{merged_unique}

-- Two lists of valid IPv4 prefixes that cover the same IPv4 addresses collapse to the same list,
-- whatever their order, overlaps and repetitions.
pub collapse_ipv4_canonical :
    (ps qs : List Prefix)
    → All IsIpv4 ps
    → All IsIpv4 qs
    → ((x : ℕ) → covers ps x ≡ covers qs x)
    → collapse_ipv4 ps ≡ collapse_ipv4 qs
collapse_ipv4_canonical ps qs hp hq same =
    let (r, er, cr) = collapse_ipv4-covers ps hp in
    let (s, es, cs) = collapse_ipv4-covers qs hq in
    let e =
      merged_unique r s (collapse_ipv4-IsMerged ps r hp er) (collapse_ipv4-IsMerged qs s hq es)
        (λ x. cr x ∙ same x ∙ sym (cs x)) in
    cc

-- No list of valid IPv4 prefixes that covers the same IPv4 addresses is shorter than the result.
pub collapse_ipv4_minimal :
    (ps qs r : List Prefix)
    → All IsIpv4 ps
    → All IsIpv4 qs
    → ((x : ℕ) → covers ps x ≡ covers qs x)
    → collapse_ipv4 ps ≡ some r
    → length r ≤ length qs
collapse_ipv4_minimal ps qs r hp hq same e =
    length-collapse_ipv4 qs r hq (sym (collapse_ipv4_canonical ps qs hp hq same) ∙ e)

nets-IsIpv4 : (ps : List Prefix) → All IsNet ps → All IsIpv4 ps
nets-IsIpv4 [] h = tt
nets-IsIpv4 (prefix (v4 n) (suc b) ∷ ps) (h, hs) = ((h.0, h.1), nets-IsIpv4 ps hs)
nets-IsIpv4 (prefix (v4 n) zero ∷ ps) (h, hs) = absurd h
nets-IsIpv4 (prefix unset k ∷ ps) (h, hs) = absurd h
nets-IsIpv4 (prefix (v6 n) k ∷ ps) (h, hs) = absurd h

-- Collapsing a result once more returns it unchanged.
pub collapse_ipv4_idempotent :
    (ps r : List Prefix) → All IsIpv4 ps → collapse_ipv4 ps ≡ some r → collapse_ipv4 r ≡ some r
collapse_ipv4_idempotent ps r h e =
    let m = collapse_ipv4-IsMerged ps r h e in
    let (s, es, cs) = collapse_ipv4-covers ps h in
    let same : s ≡ r = cc in
    collapse_ipv4_canonical r ps (nets-IsIpv4 r m.nets) h
      (λ x. ap (λ t. covers t x) (sym same) ∙ cs x)
    ∙ e
