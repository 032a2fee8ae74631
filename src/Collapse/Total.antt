-- ===== src/Collapse/Total.antt =====
-- What the loops of collapse.go come to where nothing panics: the same steps on plain lists.
use go_run.Prelude.{◌≡◌, ◌↔◌, Option, none, some, List, [], ◌∷◌, rev_onto}
use go_run.Netip.{Prefix}
use go_run.Collapse.{merge_ipv4_siblings}

unfoldable pub flat : Option (Option Prefix) → Option Prefix
flat none = none
flat (some o) = o

pub flat_iff : (o : Option (Option Prefix)) (r : Prefix) → (flat o ≡ some r) ↔ (o ≡ some (some r))
unfolding flat
flat_iff none r = (λ e. cc, λ e. cc)
flat_iff (some o) r = (λ e. cc, λ e. cc)

-- The prefix that two siblings make
unfoldable pub sibling : Prefix → Prefix → Option Prefix
unfolding flat
sibling p q = flat (merge_ipv4_siblings p q)

unfoldable pub pushed : Prefix → List Prefix → List Prefix
unfolding sibling
pushed p [] = p ∷ []
pushed p (a ∷ stack) = elim (sibling a p) [
  | none ↦ p ∷ a ∷ stack
  | some parent ↦ pushed parent stack
]

unfoldable pub merged_from : List Prefix → List Prefix → List Prefix
unfolding pushed
merged_from stack [] = rev_onto stack []
merged_from stack (p ∷ ps) = merged_from (pushed p stack) ps

unfoldable pub merged_stack : List Prefix → List Prefix
unfolding merged_from
merged_stack ps = merged_from [] ps
