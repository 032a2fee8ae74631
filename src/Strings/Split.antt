-- ===== src/Strings/Split.antt =====
-- `Split` takes apart what was put together with a separator that the parts do not hold.
use Prim.Native.Char.{Char, code}
use text.Mathlib.TextLemmas.{nil-append, cons-append, append_assoc, append-nil}
use go_run.Prelude.{
  ◌<◌, ◌≡◌, sym, ap, ◌∙◌, String, true, false, [], ◌∷◌, ◌⊎◌, All, Bool-cases, inl, inr, arith,
}
use go_run.Strings.{◌<>◌, same_char, split, split_from}
use go_run.Strings.Numbers.{IsDigits}

-- The text does not hold the character.
abbrev pub Free : Char → String → Type 0
Free sep String.[] = Unit
Free sep (String.◌∷◌ c s) = (same_char c sep ≡ false) × Free sep s

pub Free-append : (sep : Char) (s t : String) → Free sep s → Free sep t → Free sep (s <> t)
Free-append sep String.[] t f g = rw (nil-append t) g
Free-append sep (String.◌∷◌ c s) t (e, f) g = rw (cons-append c s t) (e, Free-append sep s t f g)

-- No digit is the separator.
pub IsDigits-Free :
    (sep : Char) (s : String) → (code sep < 48) ⊎ (57 < code sep) → IsDigits s → Free sep s
unfolding same_char
IsDigits-Free sep String.[] h d = tt
IsDigits-Free sep (String.◌∷◌ c s) h (d, ds) = (ground arith, IsDigits-Free sep s h ds)

push :
    (cur : String) (c : Char) (s : String) → (cur <> String.◌∷◌ c "") <> s ≡ cur <> String.◌∷◌ c s
push cur c s =
    append_assoc cur (String.◌∷◌ c "") s
    ∙ ap (λ t. cur <> t) (cons-append c "" s ∙ ap (String.◌∷◌ c) (nil-append s))

same_char_self : (c : Char) → same_char c c ≡ true
unfolding same_char
same_char_self c = ground arith

split_from-last :
    (sep : Char) (cur s : String) → Free sep s → split_from sep cur s ≡ (cur <> s) ∷ []
unfolding split_from
split_from-last sep cur String.[] f = ap (λ t. t ∷ []) (sym (append-nil cur))
split_from-last sep cur (String.◌∷◌ c s) (e, f) =
    rw e (split_from-last sep (cur <> String.◌∷◌ c "") s f ∙ ap (λ t. t ∷ []) (push cur c s))

split_from-append :
    (sep : Char) (cur s rest : String)
    → Free sep s
    → split_from sep cur (s <> String.◌∷◌ sep rest) ≡ (cur <> s) ∷ split_from sep "" rest
unfolding split_from
split_from-append sep cur String.[] rest f =
    rw (nil-append (String.◌∷◌ sep rest), same_char_self sep)
      (ap (λ t. t ∷ split_from sep "" rest) (sym (append-nil cur)))
split_from-append sep cur (String.◌∷◌ c s) rest (e, f) =
    rw (cons-append c s (String.◌∷◌ sep rest), e)
      (split_from-append sep (cur <> String.◌∷◌ c "") s rest f
        ∙ ap (λ t. t ∷ split_from sep "" rest) (push cur c s))

pub split-Free : (sep : Char) (s : String) → Free sep s → split sep s ≡ s ∷ []
unfolding split
split-Free sep s f = split_from-last sep "" s f ∙ ap (λ t. t ∷ []) (nil-append s)

pub split-append :
    (sep : Char) (s rest : String)
    → Free sep s
    → split sep (s <> String.◌∷◌ sep rest) ≡ s ∷ split sep rest
unfolding split
split-append sep s rest f =
    split_from-append sep "" s rest f ∙ ap (λ t. t ∷ split_from sep "" rest) (nil-append s)

split_from-Free :
    (sep : Char) (cur s : String) → Free sep cur → All (Free sep) (split_from sep cur s)
unfolding split_from
split_from-Free sep cur String.[] h = (h, tt)
split_from-Free sep cur (String.◌∷◌ c s) h = elim (Bool-cases (same_char c sep)) [
  | inl e ↦ rw e (h, split_from-Free sep "" s tt)
  | inr e ↦ rw e (
      split_from-Free sep (cur <> String.◌∷◌ c "") s
        (Free-append sep cur (String.◌∷◌ c "") h (e, tt)))
]

-- No field has the separator in it.
pub split-All-Free : (sep : Char) (s : String) → All (Free sep) (split sep s)
unfolding split
split-All-Free sep s = split_from-Free sep "" s tt
