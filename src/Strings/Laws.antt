-- ===== src/Strings/Laws.antt =====
-- Laws of the text functions, and runs of them.
use Prim.Native.Char.{Char, code}
use text.Mathlib.TextLemmas.{nil-append, cons-append}
use text.Mathlib.TextEquality.{Char-path}
use text.Mathlib.TextPositions.{eq_refl}
use go_run.Prelude.{
  ◌≡◌, refl, sym, ap, ◌∙◌, ◌↔◌, String, true, [], ◌∷◌, inl, inr, Bool-cases, str_eq, eq_iff, arith,
  negsuc, if◌then◌else◌,
}
use go_run.Strings.{
  same_char, ◌<>◌, has_prefix, has_suffix, contains_text, trim_prefix_char, trim_space, join, split,
  fields, replace_char, to_lower, hex, show_int,
}

runs :
    (trim_space " a b \n" ≡ "a b")
    × (join ", " ("a" ∷ "b" ∷ "c" ∷ []) ≡ "a, b, c")
    × (split "," "a,,b" ≡ "a" ∷ "" ∷ "b" ∷ [])
    × (fields "  default dev  wg-exit " ≡ "default" ∷ "dev" ∷ "wg-exit" ∷ [])
    × (replace_char "." "/" "net.ipv4.ip_forward" ≡ "net/ipv4/ip_forward")
    × (to_lower "Ab.RU" ≡ "ab.ru")
    × (show_int (negsuc 149) ≡ "-150")
    × (hex 255 ≡ "ff")
    × (contains_text "blackhole default" "ole d" ≡ true)
    × (has_suffix "example.ru." ".ru." ≡ true)
unfolding trim_space join split fields replace_char to_lower show_int hex contains_text has_suffix
runs = (refl, refl, refl, refl, refl, refl, refl, refl, refl, refl)

has_suffix→append : (s t : String) → has_suffix s t ≡ true → (before : String) × (s ≡ before <> t)
unfolding has_suffix
has_suffix→append String.[] t e = ("", (eq_iff "" t).0 e ∙ sym (nil-append t))
has_suffix→append (String.◌∷◌ c s) t e = elim (Bool-cases (str_eq (String.◌∷◌ c s) t)) [
  | inl same ↦ ("", (eq_iff (String.◌∷◌ c s) t).0 same ∙ sym (nil-append t))
  | inr differ ↦
      let (before, eq) = has_suffix→append s t (ground arith) in
      (String.◌∷◌ c before, ap (String.◌∷◌ c) eq ∙ sym (cons-append c before t))
]

has_suffix_self : (t : String) → has_suffix t t ≡ true
unfolding has_suffix
has_suffix_self String.[] = refl
has_suffix_self (String.◌∷◌ c t) = rw (eq_refl (String.◌∷◌ c t))

has_suffix-append : (before t : String) → has_suffix (before <> t) t ≡ true
unfolding has_suffix
has_suffix-append String.[] t = rw (nil-append t) (has_suffix_self t)
has_suffix-append (String.◌∷◌ c before) t =
    rw (cons-append c before t) (ground (arith, has_suffix-append before t))

-- A text ends with `t` exactly when it is some text before `t`.
pub has_suffix_iff :
    (s t : String) → (has_suffix s t ≡ true) ↔ ((before : String) × (s ≡ before <> t))
has_suffix_iff s t =
    (has_suffix→append s t, λ (before, e). ap (λ u. has_suffix u t) e ∙ has_suffix-append before t)

same_char→eq : (c d : Char) → same_char c d ≡ true → code c ≡ code d
unfolding same_char
same_char→eq c d e = ground arith

-- Putting a dot in front of a text that lacks one is the dot before what `TrimPrefix` leaves.
pub has_prefix-dot :
    (s : String) → (if has_prefix s "." then s else "." <> s) ≡ "." <> trim_prefix_char "." s
unfolding has_prefix trim_prefix_char
has_prefix-dot String.[] = refl
has_prefix-dot (String.◌∷◌ c s) = elim (Bool-cases (same_char c ".")) [
  | inl e ↦
      let dot : c ≡ "." = Char-path c "." (same_char→eq c "." e) in
      let joined : "." <> s ≡ String.◌∷◌ "." s =
        cons-append "." "" s ∙ ap (String.◌∷◌ ".") (nil-append s) in
      rw e (ap (λ d. String.◌∷◌ d s) dot ∙ sym joined)
  | inr e ↦ rw e
]
