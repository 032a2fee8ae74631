-- ===== src/Collapse/Calm.antt =====
-- Nothing panics in `mergeSiblingStack` for nets in order.
use mathlib.Core.Path.{subst}
use go_run.Prelude.{
  ℕ, suc, zero, ◌+◌, ◌≤◌, ◌≡◌, refl, ◌∙◌, Option, none, some, List, [], ◌∷◌, All, Option-cases, inl,
  inr, arith, sym,
}
use native.Mathlib.Decide.{ℕ_discrete}
use go_run.Netip.{unset, v4, v6, Prefix, prefix}
use go_run.Netip.Nets.{IsNet, first, size}
use go_run.Collapse.{merge_ipv4_siblings, push, merge_from, merge_sibling_stack}
use go_run.Collapse.Total.{flat, sibling, pushed, merged_from, merged_stack}
use go_run.Collapse.Merge.{merge_ordered_lem, siblings_lem, merges}
use go_run.Collapse.Spaced.{Spaced, Stacked}
use go_run.Collapse.Stack.{IsStack, Stacked-weaken, Stacked-eq, push-IsStack}

of_some : (o : Option (Option Prefix)) (x : Option Prefix) → o ≡ some x → o ≡ some (flat o)
unfolding flat
of_some o x e = rw e refl

abbrev Calm : Prefix → Prefix → Type 0
Calm p q = merge_ipv4_siblings p q ≡ some (sibling p q)

same_length :
    (n c b : ℕ)
    → IsNet (prefix (v4 n) (suc (suc b)))
    → n ≤ c
    → Calm (prefix (v4 n) (suc (suc b))) (prefix (v4 c) (suc (suc b)))
unfolding sibling
same_length n c b hp h =
    of_some _ _
      (siblings_lem n c (suc b) (suc b) h ∙ ground arith ∙ merge_ordered_lem n c b hp.0 hp.1)

-- Nets that lie apart, in their order, are compared without a panic.
siblings-Calm : (p q : Prefix) → IsNet p → IsNet q → first p + size p ≤ first q → Calm p q
unfolding sibling
siblings-Calm (prefix (v4 n) (suc zero)) (prefix (v4 c) (suc d)) hp hq apart =
    absurd (omega (arith, hq.1))
siblings-Calm (prefix (v4 n) (suc (suc b))) (prefix (v4 c) (suc d)) hp hq apart =
    elim (ℕ_discrete (suc b) d) [
      | yes e ↦
          subst (λ t. Calm (prefix (v4 n) (suc (suc b))) (prefix (v4 c) (suc t))) e
            (same_length n c b hp (omega arith))
      | no ne ↦ of_some _ none (siblings_lem n c (suc b) d (omega arith) ∙ ground arith)
    ]
siblings-Calm (prefix (v4 n) zero) q hp hq apart = absurd hp
siblings-Calm (prefix unset _) q hp hq apart = absurd hp
siblings-Calm (prefix (v6 n) _) q hp hq apart = absurd hp
siblings-Calm (prefix (v4 n) (suc b)) (prefix (v4 c) zero) hp hq apart = absurd hq
siblings-Calm (prefix (v4 n) (suc b)) (prefix unset _) hp hq apart = absurd hq
siblings-Calm (prefix (v4 n) (suc b)) (prefix (v6 c) _) hp hq apart = absurd hq

push-eq :
    (p : Prefix) (stack : List Prefix)
    → IsNet p
    → All IsNet stack
    → Stacked (first p) stack
    → push p stack ≡ some (pushed p stack)
unfolding push pushed
push-eq p [] hp nets sp = refl
push-eq p (a ∷ stack) hp nets sp =
    let calm = siblings-Calm a p nets.0 hp sp.0 in
    elim (Option-cases (sibling a p)) [
      | inl e ↦ rw (calm, e, push, pushed) refl
      | inr (r, e) ↦
          let j = (merges a p r nets.0 hp sp.0).0 e in
          rw (calm, e, push, pushed)
            (push-eq r stack j.net nets.1 (Stacked-eq stack (sym j.first_eq) sp.1))
    ]

merge_from-eq :
    (n : ℕ) (stack ps : List Prefix)
    → IsStack n stack
    → All IsNet ps
    → Spaced n ps
    → merge_from stack ps ≡ some (merged_from stack ps)
unfolding merge_from merged_from
merge_from-eq n stack [] s hs sp = refl
merge_from-eq n stack (p ∷ ps) s (hp, hs) (le, sp) =
    let lower = Stacked-weaken stack le s.spaced in
    rw (merge_from, push-eq p stack hp s.nets lower)
      (merge_from-eq (first p + size p) (pushed p stack) ps
        (push-IsStack p stack hp s.nets lower s.unmerged) hs sp)

-- For nets in order, clear of one another, the loops yield a list.
pub merge_sibling_stack-eq :
    (ps : List Prefix)
    → All IsNet ps
    → Spaced 0 ps
    → merge_sibling_stack ps ≡ some (merged_stack ps)
unfolding merge_sibling_stack merged_stack
merge_sibling_stack-eq ps nets sp =
    merge_from-eq 0 [] ps (record { nets = tt; spaced = tt; unmerged = tt }) nets sp
