-- ===== src/Linux/Nftables/Batches.antt =====
-- The elements of a set, split into statements of bounded size.
use go_run.Prelude.{
  ℕ, zero, suc, ◌+◌, ◌*◌, ◌≤◌, ◌<◌, ◌≡◌, refl, ap, ◌∙◌, List, [], ◌∷◌, ◌++◌, length, All, arith,
}
use go_run.Linux.Nftables.{element_batch_size, take, drop, batches_from, batches}

unfoldable pub concat {ℓ} : {A : Type ℓ} → List (List A) → List A
concat [] = []
concat (xs ∷ xss) = xs ++ concat xss

module _ {ℓ} {A : Type ℓ} where
  take-append-drop : (n : ℕ) (xs : List A) → take n xs ++ drop n xs ≡ xs
  unfolding take drop
  take-append-drop zero xs = refl
  take-append-drop (suc n) [] = refl
  take-append-drop (suc n) (x ∷ xs) = ap (λ t. x ∷ t) (take-append-drop n xs)

  length-take_le : (n : ℕ) (xs : List A) → length (take n xs) ≤ n
  unfolding take
  length-take_le zero xs = omega arith
  length-take_le (suc n) [] = omega arith
  length-take_le (suc n) (x ∷ xs) = omega (arith, length-take_le n xs)

  length-drop_le : (n : ℕ) (xs : List A) → length (drop n xs) ≤ length xs
  unfolding drop
  length-drop_le zero xs = omega arith
  length-drop_le (suc n) [] = omega arith
  length-drop_le (suc n) (x ∷ xs) = omega (arith, length-drop_le n xs)

  -- A slice that leaves something over is full.
  length-drop_lt :
      (n : ℕ) (xs : List A) → 0 < length (drop n xs) → length (drop n xs) + n ≡ length xs
  unfolding drop
  length-drop_lt zero xs h = omega arith
  length-drop_lt (suc n) [] h = omega arith
  length-drop_lt (suc n) (x ∷ xs) h = omega (arith, length-drop_lt n xs h)

  -- A batch that may be sent
  abbrev pub IsBatch : ℕ → List A → Type 0
  IsBatch size xs = (0 < length xs) × (length xs ≤ size)

  module _ (n : ℕ) where
    concat-batches_from :
        (fuel : ℕ) (xs : List A) → length xs ≤ fuel → concat (batches_from fuel (suc n) xs) ≡ xs
    unfolding concat batches_from take drop
    concat-batches_from fuel [] h = refl
    concat-batches_from zero (x ∷ xs) h = absurd (omega arith)
    concat-batches_from (suc fuel) (x ∷ xs) h =
        ap (λ t. x ∷ (take n xs ++ t))
          (concat-batches_from fuel (drop n xs) (omega (arith, length-drop_le n xs)))
        ∙ ap (λ t. x ∷ t) (take-append-drop n xs)

    batches_from-IsBatch :
        (fuel : ℕ) (xs : List A) → All (IsBatch (suc n)) (batches_from fuel (suc n) xs)
    unfolding batches_from take drop
    batches_from-IsBatch fuel [] = tt
    batches_from-IsBatch zero (x ∷ xs) = tt
    batches_from-IsBatch (suc fuel) (x ∷ xs) =
        ((omega arith, omega (arith, length-take_le n xs)), batches_from-IsBatch fuel (drop n xs))

    -- The rest of a list of `l` elements, after a first batch
    rest_few :
        (fuel l : ℕ) (rest : List A)
        → (0 < length rest → length rest + n ≡ l)
        → length (batches_from fuel (suc n) rest) * suc n ≤ length rest + n
        → length (batches_from fuel (suc n) rest) * suc n ≤ l
    unfolding batches_from
    rest_few fuel l [] full h = omega arith
    rest_few fuel l (x ∷ rest) full h =
        let whole : suc (length rest) + n ≡ l = full (omega arith) in omega arith

    batches_from_few :
        (fuel : ℕ) (xs : List A) → length (batches_from fuel (suc n) xs) * suc n ≤ length xs + n
    unfolding batches_from take drop
    batches_from_few fuel [] = omega arith
    batches_from_few zero (x ∷ xs) = omega arith
    batches_from_few (suc fuel) (x ∷ xs) =
        let rest =
          rest_few fuel (length xs) (drop n xs) (length-drop_lt n xs)
            (batches_from_few fuel (drop n xs)) in
        omega arith

  -- The batches hold the elements in their order, each has at least one element and at most 4000,
  -- and there are no more of them than that takes.
  pub batches_complete :
      (xs : List A)
      → (concat (batches xs) ≡ xs)
        × All (IsBatch element_batch_size) (batches xs)
        × (length (batches xs) * element_batch_size < length xs + element_batch_size)
  unfolding batches
  batches_complete xs = (
    concat-batches_from 3999 (length xs) xs (omega arith),
    batches_from-IsBatch 3999 (length xs) xs,
    omega (arith, batches_from_few 3999 (length xs) xs),
  )
