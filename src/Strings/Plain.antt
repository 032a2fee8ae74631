-- ===== src/Strings/Plain.antt =====
-- Texts of digits, dots and slashes, which is what IPv4 prefixes are written in.
use Prim.Native.Char.{Char, code}
use text.Mathlib.TextLemmas.{nil-append, cons-append}
use go_run.Prelude.{◌≤◌, ◌<◌, ◌≡◌, refl, ap, ◌∙◌, ◌⊎◌, String, false, arith}
use go_run.Strings.{◌<>◌, same_char, is_space, trim_left, trim_right, trim_space, has_prefix}
use go_run.Strings.Numbers.{IsDigits}
use go_run.Strings.Split.{Free}

-- Every character is a digit, `.` or `/`.
abbrev pub IsPlain : String → Type 0
IsPlain String.[] = Unit
IsPlain (String.◌∷◌ c s) = ((46 ≤ code c) × (code c ≤ 57)) × IsPlain s

pub append-IsPlain : (s t : String) → IsPlain s → IsPlain t → IsPlain (s <> t)
append-IsPlain String.[] t p q = rw (nil-append t) q
append-IsPlain (String.◌∷◌ c s) t (d, p) q = rw (cons-append c s t) (d, append-IsPlain s t p q)

pub IsPlain-of_digits : (s : String) → IsDigits s → IsPlain s
IsPlain-of_digits String.[] d = tt
IsPlain-of_digits (String.◌∷◌ c s) ((low, high), d) = ((omega arith, high), IsPlain-of_digits s d)

pub IsPlain-Free :
    (sep : Char) (s : String) → (code sep < 46) ⊎ (57 < code sep) → IsPlain s → Free sep s
unfolding same_char
IsPlain-Free sep String.[] h d = tt
IsPlain-Free sep (String.◌∷◌ c s) h (d, ds) = (ground arith, IsPlain-Free sep s h ds)

not_space : (c : Char) → 46 ≤ code c → is_space c ≡ false
unfolding is_space
not_space c h = ground arith

trim_left-plain : (s : String) → IsPlain s → trim_left s ≡ s
unfolding trim_left
trim_left-plain String.[] p = refl
trim_left-plain (String.◌∷◌ c s) ((low, high), p) = rw (not_space c low) refl

trim_right-plain : (s : String) → IsPlain s → trim_right s ≡ s
unfolding trim_right
trim_right-plain String.[] p = refl
trim_right-plain (String.◌∷◌ c s) ((low, high), p) =
    rw (not_space c low) (ap (String.◌∷◌ c) (trim_right-plain s p))

pub trim_space-plain : (s : String) → IsPlain s → trim_space s ≡ s
unfolding trim_space
trim_space-plain s p = ap trim_right (trim_left-plain s p) ∙ trim_right-plain s p

pub has_prefix-plain : (s : String) → IsPlain s → has_prefix s "#" ≡ false
unfolding has_prefix same_char
has_prefix-plain String.[] p = refl
has_prefix-plain (String.◌∷◌ c s) ((low, high), p) = ground arith
