-- ===== src/Country/Archive/Names.antt =====
-- The names in a cleaned path, and paths that go on after one another.
use Prim.Native.Char.{code}
use text.Mathlib.TextEquality.{Char-path}
use text.Mathlib.TextLemmas.{nil-append, cons-append, append_assoc}
use go_run.Prelude.{
  ◌≡◌, refl, sym, ap, ◌∙◌, inl, inr, true≢false, String, true, false, ◌||◌, List, [], ◌∷◌, ◌++◌,
  str_eq, All, arith, Bool-cases,
}
use go_run.Strings.{◌<>◌, same_char, has_prefix, split}
use go_run.Strings.Split.{Free, split-All-Free}
use go_run.Country.Archive.Paths.{go_up, add_element, add_elements, unstack, elements, path_of}

-- A name of a file or of a directory: no slash in it, and neither empty nor a dot or two
pub record IsName (s : String) : Type 0 where
  pub free : Free "/" s
  pub not_empty : str_eq s "" ≡ false
  pub not_dot : str_eq s "." ≡ false
  pub not_dots : str_eq s ".." ≡ false

add_element-IsName :
    (stack : List String) (s : String)
    → Free "/" s
    → All IsName stack
    → All IsName (add_element true stack s)
unfolding add_element
add_element-IsName stack s f h = elim (Bool-cases (str_eq s "" || str_eq s ".")) [
  | inl e ↦ rw e h
  | inr e ↦ elim (Bool-cases (str_eq s "..")) [
    | inl d ↦ rw (e, d) (up stack h)
    | inr d ↦
        rw (e, d)
          (record { free = f; not_empty = ground arith; not_dot = ground arith; not_dots = d }, h)
  ]
]
  where
    up : (l : List String) → All IsName l → All IsName (go_up true l)
    up [] h = tt
    up (last ∷ before) (n, h) = rw n.not_dots h

add_elements-IsName :
    (stack names : List String)
    → All (Free "/") names
    → All IsName stack
    → All IsName (add_elements true stack names)
unfolding add_elements
add_elements-IsName stack [] f h = h
add_elements-IsName stack (s ∷ names) (f, fs) h =
    add_elements-IsName (add_element true stack s) names fs (add_element-IsName stack s f h)

unstack-IsName :
    (stack names : List String)
    → All IsName stack
    → All IsName names
    → All IsName (unstack stack names)
unfolding unstack
unstack-IsName [] names h k = k
unstack-IsName (last ∷ before) names (n, h) k = unstack-IsName before (last ∷ names) h (n, k)

pub elements-IsName : (path : String) → has_prefix path "/" ≡ true → All IsName (elements path)
unfolding elements
elements-IsName path h = rw h (
    unstack-IsName (add_elements true [] (split "/" path)) []
      (add_elements-IsName [] (split "/" path) (split-All-Free "/" path) tt) tt)

-- A text that is empty or starts with a slash
abbrev Breaks : String → Type 0
Breaks String.[] = Unit
Breaks (String.◌∷◌ c s) = same_char c "/" ≡ true

path_of-Breaks : (names : List String) → Breaks (path_of names)
unfolding path_of same_char
path_of-Breaks [] = tt
path_of-Breaks (name ∷ names) = refl

-- Where one path goes on after another, the first names agree.
first_name :
    (e f x y : String)
    → Free "/" e
    → Free "/" f
    → Breaks x
    → has_prefix (f <> x) (e <> String.◌∷◌ "/" y) ≡ true
    → (e ≡ f) × (has_prefix x (String.◌∷◌ "/" y) ≡ true)
unfolding has_prefix same_char
first_name String.[] String.[] x y h k b p =
    (refl, rw (nil-append x, nil-append (String.◌∷◌ "/" y)) at p)
first_name String.[] (String.◌∷◌ d f) x y h (k, ks) b p =
    let q = rw (cons-append d f x, nil-append (String.◌∷◌ "/" y)) at p in ground arith
first_name (String.◌∷◌ c e) String.[] String.[] y (h, hs) k b p =
    let q = rw (nil-append "", cons-append c e (String.◌∷◌ "/" y)) at p in ground arith
first_name (String.◌∷◌ c e) String.[] (String.◌∷◌ a x) y (h, hs) k b p =
    let q = rw (nil-append (String.◌∷◌ a x), cons-append c e (String.◌∷◌ "/" y)) at p in
    ground arith
first_name (String.◌∷◌ c e) (String.◌∷◌ d f) x y (h, hs) (k, ks) b p =
    let q = rw (cons-append d f x, cons-append c e (String.◌∷◌ "/" y)) at p in
    let (same, rest) = first_name e f x y hs ks b (ground arith) in
    let codes : code c ≡ code d = ground arith in
    (ap (λ a. String.◌∷◌ a e) (Char-path c d codes) ∙ ap (String.◌∷◌ d) same, rest)

slash_head :
    (names : List String) → (y : String) × (path_of names <> String.◌∷◌ "/" "" ≡ String.◌∷◌ "/" y)
unfolding path_of
slash_head [] = ("", nil-append (String.◌∷◌ "/" ""))
slash_head (name ∷ names) = (
  (name <> path_of names) <> String.◌∷◌ "/" "",
  cons-append "/" (name <> path_of names) (String.◌∷◌ "/" ""),
)

-- What two rooted paths have in common, where the second goes on after the first
pub path_of-below :
    (E F : List String)
    → All IsName E
    → All IsName F
    → has_prefix (path_of F) (path_of E <> String.◌∷◌ "/" "") ≡ true
    → (names : List String) × (F ≡ E ++ names) × All IsName names
unfolding path_of has_prefix same_char
path_of-below [] F h k p = (F, refl, k)
path_of-below (e ∷ E) [] h k p =
    let q = rw (cons-append "/" (e <> path_of E) (String.◌∷◌ "/" "")) at p in
    absurd (true≢false (sym (q)))
path_of-below (e ∷ E) (f ∷ F) (n, h) (m, k) p =
    let (y, slash) = slash_head E in
    let q = after_slash (f <> path_of F) (e <> path_of E <> String.◌∷◌ "/" "") (
      rw
        (
          cons-append "/" (e <> path_of E) (String.◌∷◌ "/" ""),
          append_assoc e (path_of E) (String.◌∷◌ "/" ""),
        )
        at p) in
    let (same, rest) =
      first_name e f (path_of F) y n.free m.free (path_of-Breaks F) (rw slash at q) in
    let (names, both, good) = path_of-below E F h k (rw (sym slash) at rest) in
    (names, ap (λ a. a ∷ F) (sym same) ∙ ap (λ l. e ∷ l) both, good)
  where
    after_slash :
        (s t : String)
        → has_prefix (String.◌∷◌ "/" s) (String.◌∷◌ "/" t) ≡ true
        → has_prefix s t ≡ true
    after_slash s t h = h
