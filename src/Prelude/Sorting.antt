-- ===== src/Prelude/Sorting.antt =====
-- `sort.Slice`, as a stable insertion sort by a Boolean test. Go promises an order, not a method,
-- nor what becomes of elements that the test does not tell apart.
use mathlib.Core.Path.{◌≡◌, refl}
use Prim.Native.Nat.{suc}
use mathlib.Core.Logic.{inl, inr}
use mathlib.Core.Bool.{Bool, true, false, ◌||◌}
use mathlib.Core.List.{List, [], ◌∷◌}
use native.Mathlib.Omega.{arith}
use go_run.Prelude.Tests.{if◌then◌else◌, Bool-cases}
use go_run.Prelude.Lists.{length, any, All}

module _ {ℓ} {A : Type ℓ} (less : A → A → Bool) where
  unfoldable pub insert_by : A → List A → List A
  insert_by x [] = x ∷ []
  insert_by x (y ∷ ys) = if less y x then y ∷ insert_by x ys else x ∷ y ∷ ys

  unfoldable pub sort_by : List A → List A
  unfolding insert_by
  sort_by [] = []
  sort_by (x ∷ xs) = insert_by x (sort_by xs)

  any-insert_by : (f : A → Bool) (x : A) (ys : List A) → any f (insert_by x ys) ≡ (f x || any f ys)
  unfolding insert_by
  any-insert_by f x [] = refl
  any-insert_by f x (y ∷ ys) = ground (arith, any-insert_by f x ys)

  -- Sorting changes no test that asks whether some element passes.
  pub any-sort_by : (f : A → Bool) (xs : List A) → any f (sort_by xs) ≡ any f xs
  unfolding sort_by
  any-sort_by f [] = refl
  any-sort_by f (x ∷ xs) = ground (arith, any-insert_by f x (sort_by xs), any-sort_by f xs)

  length-insert_by : (x : A) (ys : List A) → length (insert_by x ys) ≡ suc (length ys)
  unfolding insert_by
  length-insert_by x [] = refl
  length-insert_by x (y ∷ ys) = ground (arith, length-insert_by x ys)

  pub length-sort_by : (xs : List A) → length (sort_by xs) ≡ length xs
  unfolding sort_by
  length-sort_by [] = refl
  length-sort_by (x ∷ xs) = omega (arith, length-insert_by x (sort_by xs), length-sort_by xs)

  -- Neighbours are in order. The test of the sort never puts the later one first.
  abbrev pub HeadOk : A → List A → Type 0
  HeadOk x [] = Unit
  HeadOk x (y ∷ ys) = less y x ≡ false

  abbrev pub IsAscending : List A → Type 0
  IsAscending [] = Unit
  IsAscending (x ∷ xs) = HeadOk x xs × IsAscending xs

  module _ (asym : (a b : A) → less a b ≡ true → less b a ≡ false) where
    HeadOk-insert_by :
        (y x : A) (ys : List A) → less y x ≡ true → HeadOk y ys → HeadOk y (insert_by x ys)
    unfolding insert_by
    HeadOk-insert_by y x [] h k = asym y x h
    HeadOk-insert_by y x (z ∷ ys) h k = elim (Bool-cases (less z x)) [
      | inl e ↦ rw (e, insert_by) k
      | inr e ↦ rw (e, insert_by) (asym y x h)
    ]

    insert_by-IsAscending : (x : A) (ys : List A) → IsAscending ys → IsAscending (insert_by x ys)
    unfolding insert_by
    insert_by-IsAscending x [] h = (tt, tt)
    insert_by-IsAscending x (y ∷ ys) h = elim (Bool-cases (less y x)) [
      | inl e ↦ rw (e, insert_by) (HeadOk-insert_by y x ys e h.0, insert_by-IsAscending x ys h.1)
      | inr e ↦ rw (e, insert_by) (e, h)
    ]

    pub sort_by-IsAscending : (xs : List A) → IsAscending (sort_by xs)
    unfolding sort_by
    sort_by-IsAscending [] = tt
    sort_by-IsAscending (x ∷ xs) = insert_by-IsAscending x (sort_by xs) (sort_by-IsAscending xs)

module _ {ℓ κ} {A : Type ℓ} (less : A → A → Bool) (P : A → Type κ) where
  All-insert_by : (x : A) (ys : List A) → P x → All P ys → All P (insert_by less x ys)
  unfolding insert_by
  All-insert_by x [] p h = (p, tt)
  All-insert_by x (y ∷ ys) p h = elim (Bool-cases (less y x)) [
    | inl e ↦ rw (e, insert_by) (h.0, All-insert_by x ys p h.1)
    | inr e ↦ rw (e, insert_by) (p, h)
  ]

  pub All-sort_by : (xs : List A) → All P xs → All P (sort_by less xs)
  unfolding sort_by
  All-sort_by [] h = tt
  All-sort_by (x ∷ xs) (p, h) = All-insert_by x (sort_by less xs) p (All-sort_by xs h)
