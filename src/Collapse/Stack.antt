-- ===== src/Collapse/Stack.antt =====
-- `mergeSiblingStack`: what one push keeps, and what the whole loop yields.
use go_run.Prelude.{
  ℕ, ◌+◌, ◌≤◌, ◌≡◌, refl, sym, List, [], ◌∷◌, Option-cases, inl, inr, arith, any, ◌||◌, All,
  any-rev_onto, length-rev_onto, length, suc,
}
use mathlib.Core.Path.{subst}
use go_run.Netip.{v4, Prefix, contains}
use go_run.Netip.Nets.{IsNet, first, size, contains_iff}
use go_run.Collapse.Total.{sibling, pushed, merged_from, merged_stack}
use go_run.Collapse.Merge.{IsJoin, merges}
use go_run.Collapse.Spaced.{
  Spaced, Stacked, Unmerged, UnmergedStack, rev_onto-Spaced, rev_onto-Unmerged, rev_onto-All,
  TopUnmerged,
}

-- A stack of nets, each clear of the next, none mergeable with its neighbour, all below `n`.
pub record IsStack (n : ℕ) (stack : List Prefix) : Type 0 where
  pub nets : All IsNet stack
  pub spaced : Stacked n stack
  pub unmerged : UnmergedStack stack

pub Stacked-weaken : {m n : ℕ} (ps : List Prefix) → m ≤ n → Stacked m ps → Stacked n ps
Stacked-weaken [] h s = tt
Stacked-weaken (p ∷ ps) h (k, s) = (omega arith, s)

pub Stacked-eq : {m n : ℕ} (ps : List Prefix) → m ≡ n → Stacked m ps → Stacked n ps
Stacked-eq ps e s = Stacked-weaken ps (omega arith) s

TopUnmerged-nil : (stack : List Prefix) → TopUnmerged stack []
TopUnmerged-nil [] = tt
TopUnmerged-nil (p ∷ stack) = tt

join_covers :
    (p q r : Prefix) (x : ℕ)
    → IsNet p
    → IsNet q
    → IsJoin p q r
    → contains r (v4 x) ≡ (contains q (v4 x) || contains p (v4 x))
join_covers p q r x hp hq j =
    ground (arith, contains_iff p x hp, contains_iff q x hq, contains_iff r x j.net)

pub push-IsStack :
    (p : Prefix) (stack : List Prefix)
    → IsNet p
    → All IsNet stack
    → Stacked (first p) stack
    → UnmergedStack stack
    → IsStack (first p + size p) (pushed p stack)
unfolding pushed
push-IsStack p [] hp nets sp un = record {
  nets = (hp, tt);
  spaced = (omega arith, tt);
  unmerged = (tt, tt);
}
push-IsStack p (a ∷ stack) hp nets sp un = elim (Option-cases (sibling a p)) [
  | inl e ↦
      rw (e, pushed) (record { nets = (hp, nets); spaced = (omega arith, sp); unmerged = (e, un) })
  | inr (r, e) ↦
      let j = (merges a p r nets.0 hp sp.0).0 e in
      let below : Stacked (first r) stack = Stacked-eq stack (sym j.first_eq) sp.1 in
      let ih = push-IsStack r stack j.net nets.1 below un.1 in
      let same : first r + size r ≡ first p + size p =
        omega (arith, j.first_eq, j.size_eq, j.adjacent, j.halves) in
      rw (e, pushed) (subst (λ n. IsStack n (pushed r stack)) same ih)
]

any-push :
    (x : ℕ) (p : Prefix) (stack : List Prefix)
    → IsNet p
    → All IsNet stack
    → Stacked (first p) stack
    → any (λ q. contains q (v4 x)) (pushed p stack)
      ≡ (contains p (v4 x) || any (λ q. contains q (v4 x)) stack)
unfolding pushed
any-push x p [] hp nets sp = refl
any-push x p (a ∷ stack) hp nets sp = elim (Option-cases (sibling a p)) [
  | inl e ↦ rw (e, pushed)
  | inr (r, e) ↦
      let j = (merges a p r nets.0 hp sp.0).0 e in
      let below : Stacked (first r) stack = Stacked-eq stack (sym j.first_eq) sp.1 in
      let ih = any-push x r stack j.net nets.1 below in
      rw (e, pushed) (ground (arith, ih, join_covers a p r x nets.0 hp j))
]

length-push : (p : Prefix) (stack : List Prefix) → length (pushed p stack) ≤ suc (length stack)
unfolding pushed
length-push p [] = omega arith
length-push p (a ∷ stack) = elim (Option-cases (sibling a p)) [
  | inl e ↦ rw (e, pushed) (omega arith)
  | inr (r, e) ↦ rw (e, pushed) (omega (arith, length-push r stack))
]

-- The result of the loop: nets in order, clear of one another, no two neighbours mergeable.
pub record IsMerged (ps : List Prefix) : Type 0 where
  pub nets : All IsNet ps
  pub spaced : Spaced 0 ps
  pub unmerged : Unmerged ps

merge_from-IsMerged :
    (n : ℕ) (stack ps : List Prefix)
    → IsStack n stack
    → All IsNet ps
    → Spaced n ps
    → IsMerged (merged_from stack ps)
unfolding merged_from
merge_from-IsMerged n stack [] s hs sp = record {
  nets = rev_onto-All IsNet stack [] s.nets tt;
  spaced = rev_onto-Spaced n stack [] s.spaced tt;
  unmerged = rev_onto-Unmerged stack [] s.unmerged tt (TopUnmerged-nil stack);
}
merge_from-IsMerged n stack (p ∷ ps) s (hp, hs) (le, sp) =
    merge_from-IsMerged (first p + size p) (pushed p stack) ps
      (push-IsStack p stack hp s.nets (Stacked-weaken stack le s.spaced) s.unmerged) hs sp

any-merge_from :
    (x n : ℕ) (stack ps : List Prefix)
    → IsStack n stack
    → All IsNet ps
    → Spaced n ps
    → any (λ q. contains q (v4 x)) (merged_from stack ps)
      ≡ (any (λ q. contains q (v4 x)) stack || any (λ q. contains q (v4 x)) ps)
unfolding merged_from
any-merge_from x n stack [] s hs sp = any-rev_onto (λ q. contains q (v4 x)) stack []
any-merge_from x n stack (p ∷ ps) s (hp, hs) (le, sp) =
    let lower = Stacked-weaken stack le s.spaced in
    let ih =
      any-merge_from x (first p + size p) (pushed p stack) ps
        (push-IsStack p stack hp s.nets lower s.unmerged) hs sp in
    ground (arith, ih, any-push x p stack hp s.nets lower)

length-merge_from :
    (stack ps : List Prefix) → length (merged_from stack ps) ≤ length stack + length ps
unfolding merged_from
length-merge_from stack [] = omega (arith, length-rev_onto stack [])
length-merge_from stack (p ∷ ps) =
    omega (arith, length-merge_from (pushed p stack) ps, length-push p stack)

module _ (ps : List Prefix) (nets : All IsNet ps) (sp : Spaced 0 ps) where
  nothing : IsStack 0 []
  nothing = record { nets = tt; spaced = tt; unmerged = tt }

  pub merge_sibling_stack-IsMerged : IsMerged (merged_stack ps)
  unfolding merged_stack
  merge_sibling_stack-IsMerged = merge_from-IsMerged 0 [] ps nothing nets sp

  pub any-merge_sibling_stack :
      (x : ℕ) → any (λ q. contains q (v4 x)) (merged_stack ps) ≡ any (λ q. contains q (v4 x)) ps
  unfolding merged_stack
  any-merge_sibling_stack x = any-merge_from x 0 [] ps nothing nets sp

pub length-merge_sibling_stack : (ps : List Prefix) → length (merged_stack ps) ≤ length ps
unfolding merged_stack
length-merge_sibling_stack ps = omega (arith, length-merge_from [] ps)
