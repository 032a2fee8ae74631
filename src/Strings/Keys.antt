-- ===== src/Strings/Keys.antt =====
-- Maps that are used as sets of texts: the list of their keys.
use go_run.Prelude.{
  suc, ◌≤◌, ◌≡◌, ◌↔◌, refl, sym, ap, ◌∙◌, inl, inr, String, Bool, true, false, not, ◌||◌, List, [],
  ◌∷◌, str_eq, eq_iff, if◌then◌else◌, Bool-cases, arith, length, any, all, ◌==◌, true≢false,
}

abbrev pub has_key : String → List String → Bool
has_key k keys = any (str_eq k) keys

-- `keys[k] = struct{}{}`
abbrev pub insert_key : String → List String → List String
insert_key k keys = if has_key k keys then keys else k ∷ keys

pub has_key-insert_key :
    (k d : String) (keys : List String)
    → has_key k (insert_key d keys) ≡ (str_eq k d || has_key k keys)
has_key-insert_key k d keys = elim (Bool-cases (has_key d keys)) [
  | inl e ↦ elim (Bool-cases (str_eq k d)) [
    | inl same ↦ rw (e, same) (ap (λ t. has_key t keys) ((eq_iff k d).0 same) ∙ e)
    | inr differ ↦ rw (e, differ) refl
  ]
  | inr e ↦ rw e refl
]

-- The same number of keys, and every key of the second among the first
abbrev pub same_keys : List String → List String → Bool
same_keys live desired =
    if not (length live == length desired) then false else all (λ k. has_key k live) desired

abbrev pub Unique : List String → Type 0
Unique [] = Unit
Unique (k ∷ keys) = (has_key k keys ≡ false) × Unique keys

pub insert_key-Unique : (k : String) (keys : List String) → Unique keys → Unique (insert_key k keys)
insert_key-Unique k keys u = elim (Bool-cases (has_key k keys)) [
  | inl e ↦ rw e u
  | inr e ↦ rw e (e, u)
]

abbrev Sub : List String → List String → Type 0
Sub xs ys = (k : String) → has_key k xs ≡ true → has_key k ys ≡ true

abbrev erase : String → List String → List String
erase d [] = []
erase d (x ∷ xs) = let later = erase d xs in if str_eq d x then xs else x ∷ later

length-erase :
    (d : String) (xs : List String) → has_key d xs ≡ true → suc (length (erase d xs)) ≡ length xs
length-erase d [] h = cc
length-erase d (x ∷ xs) h = elim (Bool-cases (str_eq d x)) [
  | inl e ↦ rw e (omega arith)
  | inr e ↦ rw e (omega (arith, length-erase d xs (ground arith)))
]

has_key-erase :
    (k d : String) (xs : List String) → str_eq k d ≡ false → has_key k (erase d xs) ≡ has_key k xs
has_key-erase k d [] ne = refl
has_key-erase k d (x ∷ xs) ne = elim (Bool-cases (str_eq d x)) [
  | inl e ↦
      let same : str_eq k x ≡ false = ap (str_eq k) (sym ((eq_iff d x).0 e)) ∙ ne in
      rw (e, same) refl
  | inr e ↦ rw (e, has_key-erase k d xs ne) refl
]

head-Sub : (x : String) (xs ys : List String) → Sub (x ∷ xs) ys → has_key x ys ≡ true
head-Sub x xs ys sub = sub x (ground (arith, (eq_iff x x).1 refl))

-- With its head gone from both sides, the rest is still included.
tail-Sub :
    (x : String) (xs ys : List String)
    → has_key x xs ≡ false
    → Sub (x ∷ xs) ys
    → Sub xs (erase x ys)
tail-Sub x xs ys new sub k h = elim (Bool-cases (str_eq k x)) [
  | inl e ↦ absurd (true≢false (sym h ∙ ap (λ t. has_key t xs) ((eq_iff k x).0 e) ∙ new))
  | inr e ↦ has_key-erase k x ys e ∙ sub k (ground (arith, h))
]

length-Sub : (xs ys : List String) → Unique xs → Sub xs ys → length xs ≤ length ys
length-Sub [] ys u sub = omega arith
length-Sub (x ∷ xs) ys (new, u) sub = omega (
  arith,
  length-erase x ys (head-Sub x xs ys sub),
  length-Sub xs (erase x ys) u (tail-Sub x xs ys new sub),
)

Sub-of_length : (xs ys : List String) → Unique xs → Sub xs ys → length ys ≤ length xs → Sub ys xs
Sub-of_length [] [] u sub short k h = h
Sub-of_length [] (y ∷ ys) u sub short k h = absurd (omega (arith, short))
Sub-of_length (x ∷ xs) ys (new, u) sub short k h = elim (Bool-cases (str_eq k x)) [
  | inl e ↦ rw e refl
  | inr e ↦
      let short' : length (erase x ys) ≤ length xs =
        omega (arith, short, length-erase x ys (head-Sub x xs ys sub)) in
      let rest =
        Sub-of_length xs (erase x ys) u (tail-Sub x xs ys new sub) short' k
          (has_key-erase k x ys e ∙ h) in
      ground (arith, rest)
]

all_iff : (xs ys : List String) → (all (λ k. has_key k ys) xs ≡ true) ↔ Sub xs ys
all_iff [] ys = (λ h k e. cc, λ h. refl)
all_iff (x ∷ xs) ys = (
  λ h k e. elim (Bool-cases (str_eq k x)) [
    | inl same ↦ ap (λ t. has_key t ys) ((eq_iff k x).0 same) ∙ ground (arith, h)
    | inr differ ↦ (all_iff xs ys).0 (ground (arith, h)) k (ground (arith, e))
  ],
  λ sub.
      let here = head-Sub x xs ys sub in
      let later = (all_iff xs ys).1 (λ k e. sub k (ground (arith, e))) in
      ground (arith, here, later),
)

pub same_keys_iff :
    (live desired : List String)
    → Unique live
    → Unique desired
    → (same_keys live desired ≡ true) ↔ ((k : String) → has_key k live ≡ has_key k desired)
same_keys_iff live desired u v = (
  λ h.
      let sub : Sub desired live = (all_iff desired live).0 (ground (arith, h)) in
      let back = Sub-of_length desired live v sub (ground (arith, h)) in
      λ k. ground (arith, sub k, back k),
  λ agree.
      let sub : Sub desired live = λ k e. agree k ∙ e in
      let shorter = length-Sub desired live v sub in
      let longer = length-Sub live desired u (λ k e. sym (agree k) ∙ e) in
      let every = (all_iff desired live).1 sub in ground (arith, shorter, longer, every),
)
