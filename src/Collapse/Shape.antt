-- ===== src/Collapse/Shape.antt =====
-- The shape of the result of `CollapseIPv4`, said without the code's own tests.
use go_run.Prelude.{ℕ, ◌+◌, ◌≡◌, List, [], ◌∷◌, some, All}
use go_run.Netip.{Prefix}
use go_run.Netip.Nets.{IsNet, first, size}
use go_run.Collapse.{collapse_ipv4}
use go_run.Collapse.Merge.{IsJoin, merges}
use go_run.Collapse.Spaced.{Spaced, Unmerged}
use go_run.Collapse.Coverage.{IsIpv4, collapse_ipv4-IsMerged}

-- No two neighbours are the halves of one net.
abbrev pub NoHalves : List Prefix → Type 0
NoHalves [] = Unit
NoHalves (p ∷ []) = Unit
NoHalves (p ∷ q ∷ ps) = ((r : Prefix) → ¬ IsJoin p q r) × NoHalves (q ∷ ps)

pub record IsCanonical (ps : List Prefix) : Type 0 where
  pub nets : All IsNet ps
  pub ascending : Spaced 0 ps
  pub no_halves : NoHalves ps

no_halves : (n : ℕ) (ps : List Prefix) → All IsNet ps → Spaced n ps → Unmerged ps → NoHalves ps
no_halves n [] nets s un = tt
no_halves n (p ∷ []) nets s un = tt
no_halves n (p ∷ q ∷ ps) (hp, (hq, nets)) (le, s) (none_eq, un) = (
  (λ r j. let e = (merges p q r hp hq s.0).1 j in cc),
  no_halves (first p + size p) (q ∷ ps) (hq, nets) s un,
)

-- What `CollapseIPv4` returns for valid IPv4 prefixes is a list of masked IPv4 prefixes in
-- ascending order, each ending before the next one starts, in which no two neighbours are the
-- halves of one prefix.
pub collapse_ipv4-IsCanonical :
    (ps r : List Prefix) → All IsIpv4 ps → collapse_ipv4 ps ≡ some r → IsCanonical r
collapse_ipv4-IsCanonical ps r h e =
    let m = collapse_ipv4-IsMerged ps r h e in
    record {
      nets = m.nets;
      ascending = m.spaced;
      no_halves = no_halves 0 r m.nets m.spaced m.unmerged;
    }
