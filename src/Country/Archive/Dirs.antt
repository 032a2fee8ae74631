-- ===== src/Country/Archive/Dirs.antt =====
-- `Dir` takes the last name off a cleaned path, and `Clean` leaves a cleaned path alone.
use text.Mathlib.TextLemmas.{nil-append, cons-append, append-nil}
use go_run.Prelude.{◌≡◌, refl, sym, ap, ◌∙◌, String, true, List, [], ◌∷◌, ◌++◌, All, All-append}
use go_run.Strings.{◌<>◌, has_prefix, same_char, join, split}
use go_run.Strings.Split.{Free, split-Free, split-append}
use go_run.Country.Archive.Paths.{
  elements, add_elements, add_element, unstack, path_of, rooted_text, clean, before_last, dir_of,
}
use go_run.Country.Archive.Names.{IsName}

join-path_of : (f : String) (F : List String) → join "/" (f ∷ F) ≡ f <> path_of F
unfolding join path_of
join-path_of f [] = sym (append-nil f)
join-path_of f (g ∷ G) =
    ap (λ t. f <> t)
      (cons-append "/" "" (join "/" (g ∷ G))
        ∙ ap (String.◌∷◌ "/") (nil-append (join "/" (g ∷ G)) ∙ join-path_of g G))

split-join :
    (f : String) (F : List String)
    → Free "/" f
    → All (Free "/") F
    → split "/" (join "/" (f ∷ F)) ≡ f ∷ F
unfolding join
split-join f [] h k = split-Free "/" f h
split-join f (g ∷ G) h (k, ks) =
    ap (split "/") (
      ap (λ t. f <> t)
        (cons-append "/" "" (join "/" (g ∷ G))
          ∙ ap (String.◌∷◌ "/") (nil-append (join "/" (g ∷ G)))))
    ∙ split-append "/" f (join "/" (g ∷ G)) h
    ∙ ap (λ l. f ∷ l) (split-join g G k ks)

All-Free : (F : List String) → All IsName F → All (Free "/") F
All-Free [] h = tt
All-Free (f ∷ F) (n, h) = (n.free, All-Free F h)

-- A text that starts with an empty part and a slash
join-rooted : (F : List String) (g : String) → has_prefix (join "/" ("" ∷ g ∷ F)) "/" ≡ true
unfolding join has_prefix same_char
join-rooted F g =
    rw (nil-append ("/" <> join "/" (g ∷ F)), cons-append "/" "" (join "/" (g ∷ F))) refl

unstack-names :
    (stack F : List String)
    → All IsName F
    → unstack (add_elements true stack F) [] ≡ unstack stack F
unfolding unstack add_elements add_element
unstack-names stack [] h = refl
unstack-names stack (f ∷ F) (n, h) =
    rw (n.not_empty, n.not_dot, n.not_dots) (unstack-names (f ∷ stack) F h)

unstack-dir :
    (stack F : List String)
    → All IsName F
    → unstack (add_elements true stack (F ++ "" ∷ [])) [] ≡ unstack stack F
unfolding unstack add_elements add_element
unstack-dir stack [] h = refl
unstack-dir stack (f ∷ F) (n, h) =
    let step : unstack (add_elements true (add_element true stack f) (F ++ "" ∷ [])) []
        ≡ unstack (f ∷ stack) F =
      rw (n.not_empty, n.not_dot, n.not_dots) (unstack-dir (f ∷ stack) F h) in
    step

split-path_of :
    (f : String) (F : List String) → All IsName (f ∷ F) → split "/" (path_of (f ∷ F)) ≡ "" ∷ f ∷ F
unfolding path_of join
split-path_of f F h =
    ap (split "/") (
      ap (String.◌∷◌ "/") (sym (join-path_of f F))
      ∙ sym (
          nil-append ("/" <> join "/" (f ∷ F))
          ∙ cons-append "/" "" (join "/" (f ∷ F))
          ∙ ap (String.◌∷◌ "/") (nil-append (join "/" (f ∷ F)))))
    ∙ split-join "" (f ∷ F) tt (All-Free (f ∷ F) h)

elements-rooted_text : (F : List String) → All IsName F → elements (rooted_text F) ≡ F
unfolding elements rooted_text path_of has_prefix same_char split unstack add_elements add_element
elements-rooted_text [] h = refl
elements-rooted_text (f ∷ F) h =
    let path = path_of (f ∷ F) in
    ap (λ l. unstack (add_elements true [] l) []) (split-path_of f F h) ∙ unstack-names [] (f ∷ F) h

-- Cleaning a path that is clean does nothing.
pub clean-rooted_text : (F : List String) → All IsName F → clean (rooted_text F) ≡ rooted_text F
unfolding clean rooted_text path_of has_prefix same_char
clean-rooted_text [] h = ap rooted_text (elements-rooted_text [] h)
clean-rooted_text (f ∷ F) h = ap rooted_text (elements-rooted_text (f ∷ F) h)

pub before_last-All : (P : String → Type 0) (F : List String) → All P F → All P (before_last F)
unfolding before_last
before_last-All P [] h = tt
before_last-All P (f ∷ []) h = tt
before_last-All P (f ∷ g ∷ G) (h, k) = (h, before_last-All P (g ∷ G) k)

clean-dir : (F : List String) → All IsName F → clean (join "/" ("" ∷ F ++ "" ∷ [])) ≡ rooted_text F
unfolding clean elements rooted_text path_of join split has_prefix same_char unstack add_elements
    add_element
clean-dir [] h = refl
clean-dir (f ∷ F) h =
    let free = All-append (Free "/") (f ∷ F) ("" ∷ []) (All-Free (f ∷ F) h) (tt, tt) in
    let parts : split "/" (join "/" ("" ∷ f ∷ (F ++ "" ∷ []))) ≡ "" ∷ f ∷ (F ++ "" ∷ []) =
      split-join "" (f ∷ (F ++ "" ∷ [])) tt free in
    rw (join-rooted (F ++ "" ∷ []) f, parts) (ap rooted_text (unstack-dir [] (f ∷ F) h))

-- `Dir` of a cleaned path takes its last name off.
pub dir_of-rooted_text :
    (F : List String) → All IsName F → dir_of (rooted_text F) ≡ rooted_text (before_last F)
unfolding dir_of rooted_text before_last path_of
dir_of-rooted_text [] h = refl
dir_of-rooted_text (f ∷ F) h =
    ap (λ l. clean (join "/" (before_last l ++ "" ∷ []))) (split-path_of f F h)
    ∙ clean-dir (before_last (f ∷ F)) (before_last-All IsName (f ∷ F) h)
