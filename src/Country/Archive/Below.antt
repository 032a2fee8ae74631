-- ===== src/Country/Archive/Below.antt =====
-- Paths below the directory that an archive is unpacked into.
use Prim.Native.Char.{Char}
use text.Mathlib.TextLemmas.{cons-append}
use mathlib.Core.List.{append-nil}
use go_run.Prelude.{
  ◌≡◌, refl, sym, ap, ◌∙◌, inl, inr, ◌⊎◌, true≢false, String, true, false, List, [], ◌∷◌, ◌++◌,
  str_eq, eq_iff, All, All-append, arith, Bool-cases,
}
use go_run.Strings.{◌<>◌, same_char, has_prefix}
use go_run.Country.Archive.{is_legal}
use go_run.Country.Archive.Paths.{
  elements, path_of, rooted_text, clean, join_path, before_last, dir_of,
}
use go_run.Country.Archive.Names.{IsName, elements-IsName, path_of-below}
use go_run.Country.Archive.Dirs.{clean-rooted_text, before_last-All, dir_of-rooted_text}

-- The path, once it is cleaned, is the directory `dest` with names after it.
abbrev pub IsBelow : String → String → Type 0
IsBelow dest path =
    (names : List String) × (clean path ≡ rooted_text (elements dest ++ names)) × All IsName names

below_of_elements :
    (E F : List String)
    → All IsName E
    → All IsName F
    → has_prefix (rooted_text F) (rooted_text E <> String.◌∷◌ "/" "") ≡ true
    → (names : List String) × (F ≡ E ++ names) × All IsName names
unfolding rooted_text path_of has_prefix
below_of_elements [] F h k p = (F, refl, k)
below_of_elements (e ∷ E) (f ∷ F) h k p = path_of-below (e ∷ E) (f ∷ F) h k p
below_of_elements (String.[] ∷ E) [] (n, h) k p = absurd (true≢false n.not_empty)
below_of_elements (String.◌∷◌ c e ∷ E) [] (n, h) k p =
    let q =
      rw
        (
          cons-append "/" (String.◌∷◌ c e <> path_of E) (String.◌∷◌ "/" ""),
          cons-append c e (path_of E),
          cons-append c (e <> path_of E) (String.◌∷◌ "/" ""),
        )
        at p in
    absurd (true≢false (sym q))

clean_rooted :
    (path : String) → has_prefix path "/" ≡ true → clean path ≡ rooted_text (elements path)
unfolding clean
clean_rooted path h = rw h refl

IsBelow-of_legal :
    (dest target : String)
    → has_prefix dest "/" ≡ true
    → has_prefix target "/" ≡ true
    → is_legal dest target ≡ true
    → IsBelow dest target
unfolding is_legal
IsBelow-of_legal dest target d t h = elim (Bool-cases (str_eq (clean target) (clean dest))) [
  | inl e ↦ (
    [],
    (eq_iff (clean target) (clean dest)).0 e
        ∙ clean_rooted dest d
        ∙ ap rooted_text (sym (append-nil (elements dest))),
    tt,
  )
  | inr e ↦
      let p : has_prefix (clean target) (clean dest <> "/") ≡ true = ground arith in
      let (names, same, good) =
        below_of_elements (elements dest) (elements target) (elements-IsName dest d)
          (elements-IsName target t) (rw (clean_rooted target t, clean_rooted dest d) at p) in
      (names, clean_rooted target t ∙ ap rooted_text same, good)
]

rooted_text-rooted : (names : List String) → has_prefix (rooted_text names) "/" ≡ true
unfolding rooted_text path_of has_prefix same_char
rooted_text-rooted [] = refl
rooted_text-rooted (name ∷ names) = refl

not_nil : (c : Char) (s : String) → str_eq (String.◌∷◌ c s) "" ≡ false
not_nil c s = elim (Bool-cases (str_eq (String.◌∷◌ c s) "")) [
  | inl e ↦ cc ((eq_iff (String.◌∷◌ c s) "").0 e)
  | inr e ↦ e
]

-- A joined path is cleaned.
join_path-rooted_text :
    (dest name : String)
    → has_prefix dest "/" ≡ true
    → (T : List String) × (join_path dest name ≡ rooted_text T) × All IsName T
unfolding join_path has_prefix same_char
join_path-rooted_text String.[] name h = absurd (true≢false (sym h))
join_path-rooted_text (String.◌∷◌ c dest) name h =
    let path = String.◌∷◌ c dest <> String.◌∷◌ "/" name in
    let whole : has_prefix path "/" ≡ true = rw (cons-append c dest (String.◌∷◌ "/" name)) h in
    (elements path, rw (not_nil c dest) (clean_rooted path whole), elements-IsName path whole)

-- The path, once it is cleaned, is the directory that `dest` is in.
abbrev pub IsParent : String → String → Type 0
IsParent dest path = clean path ≡ rooted_text (before_last (elements dest))

before_last-append :
    (E names : List String)
    → (before_last (E ++ names) ≡ before_last E)
      ⊎ (before_last (E ++ names) ≡ E ++ before_last names)
unfolding before_last
before_last-append E [] = inl (ap before_last (append-nil E))
before_last-append E (n ∷ ns) = inr (shorter E)
  where
    shorter : (E : List String) → before_last (E ++ n ∷ ns) ≡ E ++ before_last (n ∷ ns)
    shorter [] = refl
    shorter (e ∷ []) = refl
    shorter (e ∷ f ∷ F) = ap (λ l. e ∷ l) (shorter (f ∷ F))

module _ (dest : String) (rooted : has_prefix dest "/" ≡ true) where
  dir_of-path :
      (names : List String)
      → All IsName names
      → IsBelow dest (dir_of (rooted_text (elements dest ++ names)))
        ⊎ IsParent dest (dir_of (rooted_text (elements dest ++ names)))
  dir_of-path names h =
      let E = elements dest in
      let good = All-append IsName E names (elements-IsName dest rooted) h in
      let cleaned =
        ap clean (dir_of-rooted_text (E ++ names) good)
        ∙ clean-rooted_text (before_last (E ++ names)) (before_last-All IsName (E ++ names) good) in
      elim (before_last-append E names) [
        | inl e ↦ inr (cleaned ∙ ap rooted_text e)
        | inr e ↦
            inl (before_last names, cleaned ∙ ap rooted_text e, before_last-All IsName names h)
      ]

  -- Where the path of an entry is legal, it is below the directory, and so is the directory that it is
  -- in, unless that is the one that `dest` is in.
  pub legal_lem :
      (name : String)
      → is_legal dest (join_path dest name) ≡ true
      → IsBelow dest (join_path dest name)
        × (IsBelow dest (dir_of (join_path dest name))
            ⊎ IsParent dest (dir_of (join_path dest name)))
  legal_lem name legal =
      let (T, target, good) = join_path-rooted_text dest name rooted in
      let begins : has_prefix (join_path dest name) "/" ≡ true = rw target (rooted_text-rooted T) in
      let (names, same, fine) = IsBelow-of_legal dest (join_path dest name) rooted begins legal in
      let path : join_path dest name ≡ rooted_text (elements dest ++ names) =
        target ∙ sym (clean-rooted_text T good) ∙ ap clean (sym target) ∙ same in
      ((names, same, fine), rw path (dir_of-path names fine))
