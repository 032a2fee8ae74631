-- ===== src/Collapse/Spaced.antt =====
-- Lists of nets that lie one after the other, read from the front and from the back.
use go_run.Prelude.{ℕ, ◌+◌, ◌≤◌, ◌≡◌, List, [], ◌∷◌, ◌++◌, arith, All, rev_onto, none}
use go_run.Netip.{Prefix}
use go_run.Netip.Nets.{first, size}
use go_run.Collapse.Total.{sibling}

-- Each net starts where the one before it ends, or later; the first at `n` or later.
abbrev pub Spaced : ℕ → List Prefix → Type 0
Spaced n [] = Unit
Spaced n (p ∷ ps) = (n ≤ first p) × Spaced (first p + size p) ps

-- Where the last net ends.
abbrev pub end : ℕ → List Prefix → ℕ
end n [] = n
end n (p ∷ ps) = end (first p + size p) ps

-- The same for a stack, whose top is its last net: all ends at `n` or earlier.
abbrev pub Stacked : ℕ → List Prefix → Type 0
Stacked n [] = Unit
Stacked n (p ∷ ps) = (first p + size p ≤ n) × Stacked (first p) ps

-- No net makes a larger one with the net after it.
abbrev pub NoSibling : Prefix → List Prefix → Type 0
NoSibling p [] = Unit
NoSibling p (q ∷ ps) = sibling p q ≡ none

abbrev pub Unmerged : List Prefix → Type 0
Unmerged [] = Unit
Unmerged (p ∷ ps) = NoSibling p ps × Unmerged ps

abbrev pub NoSiblingBelow : Prefix → List Prefix → Type 0
NoSiblingBelow p [] = Unit
NoSiblingBelow p (q ∷ ps) = sibling q p ≡ none

abbrev pub UnmergedStack : List Prefix → Type 0
UnmergedStack [] = Unit
UnmergedStack (p ∷ ps) = NoSiblingBelow p ps × UnmergedStack ps

pub Spaced-weaken : (m n : ℕ) (ps : List Prefix) → m ≤ n → Spaced n ps → Spaced m ps
Spaced-weaken m n [] h s = tt
Spaced-weaken m n (p ∷ ps) h (k, s) = (omega arith, s)

pub Spaced-concat :
    (n : ℕ) (ps : List Prefix) (p : Prefix)
    → Spaced n ps
    → end n ps ≤ first p
    → Spaced n (ps ++ p ∷ [])
Spaced-concat n [] p s h = (h, tt)
Spaced-concat n (q ∷ ps) p (k, s) h = (k, Spaced-concat (first q + size q) ps p s h)

-- Turning a stack over.
pub rev_onto-Spaced :
    (n : ℕ) (stack ps : List Prefix) → Stacked n stack → Spaced n ps → Spaced 0 (rev_onto stack ps)
rev_onto-Spaced n [] ps h s = Spaced-weaken 0 n ps (omega arith) s
rev_onto-Spaced n (p ∷ stack) ps (h, hs) s =
    rev_onto-Spaced (first p) stack (p ∷ ps) hs (omega arith, Spaced-weaken _ n ps h s)

abbrev pub TopUnmerged : List Prefix → List Prefix → Type 0
TopUnmerged [] ps = Unit
TopUnmerged (p ∷ stack) ps = NoSibling p ps

TopUnmerged-cons :
    (p : Prefix) (stack ps : List Prefix) → NoSiblingBelow p stack → TopUnmerged stack (p ∷ ps)
TopUnmerged-cons p [] ps h = tt
TopUnmerged-cons p (q ∷ stack) ps h = h

pub rev_onto-Unmerged :
    (stack ps : List Prefix)
    → UnmergedStack stack
    → Unmerged ps
    → TopUnmerged stack ps
    → Unmerged (rev_onto stack ps)
rev_onto-Unmerged [] ps h k j = k
rev_onto-Unmerged (p ∷ stack) ps (h, hs) k j =
    rev_onto-Unmerged stack (p ∷ ps) hs (j, k) (TopUnmerged-cons p stack ps h)

pub rev_onto-All :
    (P : Prefix → Type 0) (stack ps : List Prefix)
    → All P stack
    → All P ps
    → All P (rev_onto stack ps)
rev_onto-All P [] ps h k = k
rev_onto-All P (p ∷ stack) ps (h, hs) k = rev_onto-All P stack (p ∷ ps) hs (h, k)
