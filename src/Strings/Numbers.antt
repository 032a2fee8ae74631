-- ===== src/Strings/Numbers.antt =====
-- Numbers read back from text: `strconv.Atoi`, and its round trip with `%d`.
use Prim.Native.Char.{Char, code}
use text.Mathlib.TextLemmas.{nil-append, cons-append}
use go_run.Prelude.{
  ◌≤◌, ℕ, zero, suc, ◌+◌, ◌*◌, ◌-◌, ◌/◌, ◌%◌, ◌^◌, ◌<◌, ℤ, pos, negsuc, ◌≡◌, refl, ap, ◌∙◌, inl,
  inr, Bool, true, false, ◌&&◌, Option, none, some, String, if◌then◌else◌, leb, ltb, ◌==◌,
  Bool-cases, arith,
}
use go_run.Strings.{digit_chars, ◌<>◌, same_char, digit_chars, digit_text, digits, decimal}

unfoldable pub parse_digits : ℕ → String → Option ℕ
parse_digits acc String.[] = some acc
parse_digits acc (String.◌∷◌ c s) =
    let rest = parse_digits (acc * 10 + (code c - 48)) s in
    if leb 48 (code c) && leb (code c) 57 then rest else none

unfoldable pub digits_value : String → Option ℕ
unfolding parse_digits
digits_value String.[] = none
digits_value (String.◌∷◌ c s) = parse_digits 0 (String.◌∷◌ c s)

-- A number out of range of `int` is the nearest one in range, and any other error is 0.
unfoldable pub clamp : Bool → Option ℕ → ℤ
clamp negative none = pos 0
clamp false (some n) = if ltb n (2 ^ 63) then pos n else pos (2 ^ 63 - 1)
clamp true (some n) =
    if n == 0 then pos 0 else if leb n (2 ^ 63) then negsuc (n - 1) else negsuc (2 ^ 63 - 1)

-- The number that `strconv.Atoi` returns, beside its error
unfoldable pub atoi : String → ℤ
unfolding digits_value clamp same_char
atoi String.[] = pos 0
atoi (String.◌∷◌ c s) =
    if same_char c "-"
    then clamp true (digits_value s)
    else if same_char c "+"
    then clamp false (digits_value s)
    else clamp false (digits_value (String.◌∷◌ c s))

-- The first `k` characters of a text have the codes of the digits from `b` on.
abbrev DigitsFrom : ℕ → ℕ → String → Type 0
DigitsFrom zero b s = Unit
DigitsFrom (suc k) b String.[] = ⊥
DigitsFrom (suc k) b (String.◌∷◌ c s) = (code c ≡ 48 + b) × DigitsFrom k (suc b) s

pub one_char : (c : Char) (tail : String) → String.◌∷◌ c "" <> tail ≡ String.◌∷◌ c tail
one_char c tail = cons-append c "" tail ∙ ap (String.◌∷◌ c) (nil-append tail)

digit_text_from :
    (k b n : ℕ) (s : String)
    → DigitsFrom k b s
    → n < k
    → (c : Char) × (code c ≡ 48 + (b + n))
      × ((tail : String) → digit_text n s <> tail ≡ String.◌∷◌ c tail)
unfolding digit_text
digit_text_from zero b n s d h = absurd (omega arith)
digit_text_from (suc k) b n String.[] d h = absurd d
digit_text_from (suc k) b zero (String.◌∷◌ c s) (d, ds) h =
    (c, omega arith, λ tail. one_char c tail)
digit_text_from (suc k) b (suc n) (String.◌∷◌ c s) (d, ds) h =
    let (e, same, text) = digit_text_from k (suc b) n s ds (omega arith) in
    (e, omega (arith, same), text)

-- The text of a digit is one character.
digit_char :
    (n : ℕ)
    → n < 10
    → (c : Char) × (code c ≡ 48 + n)
      × ((tail : String) → digit_text n digit_chars <> tail ≡ String.◌∷◌ c tail)
digit_char n h =
    let (c, same, text) = digit_text_from 10 0 n digit_chars (omega arith) h in
    (c, omega (arith, same), text)

parse-digit_text :
    (acc n : ℕ) (tail : String)
    → n < 10
    → parse_digits acc (digit_text n digit_chars <> tail) ≡ parse_digits (acc * 10 + n) tail
unfolding parse_digits
parse-digit_text acc n tail h =
    let (c, same, text) = digit_char n h in
    let digit : (leb 48 (code c) && leb (code c) 57) ≡ true = ground (arith, same) in
    let value : acc * 10 + (code c - 48) ≡ acc * 10 + n = omega (arith, same) in
    rw (text tail, digit, value) refl

parse-digits :
    (f n : ℕ) (tail : String) → n < f → parse_digits 0 (digits f 10 n tail) ≡ parse_digits n tail
unfolding digits
parse-digits zero n tail h = absurd (omega arith)
parse-digits (suc f) n tail h = elim (Bool-cases (ltb n 10)) [
  | inl one ↦ rw one (
      parse-digit_text 0 (n % 10) tail (omega arith) ∙ ap (λ k. parse_digits k tail) (ground arith))
  | inr more ↦ rw more (
      parse-digits f (n / 10) (digit_text (n % 10) digit_chars <> tail) (ground arith)
      ∙ parse-digit_text (n / 10) (n % 10) tail (omega arith)
      ∙ ap (λ k. parse_digits k tail) (omega arith))
]

abbrev pub IsDigits : String → Type 0
IsDigits String.[] = Unit
IsDigits (String.◌∷◌ c s) = ((48 ≤ code c) × (code c ≤ 57)) × IsDigits s

-- The text starts with a digit that is not 0.
abbrev pub Leads : String → Type 0
Leads String.[] = ⊥
Leads (String.◌∷◌ c s) = 48 < code c

digit-IsDigits :
    (n : ℕ) (tail : String) → n < 10 → IsDigits tail → IsDigits (digit_text n digit_chars <> tail)
digit-IsDigits n tail h d =
    let (c, same, text) = digit_char n h in
    rw (text tail) ((omega (arith, same), omega (arith, same)), d)

digits-IsDigits : (f n : ℕ) (tail : String) → IsDigits tail → IsDigits (digits f 10 n tail)
unfolding digits
digits-IsDigits zero n tail d = d
digits-IsDigits (suc f) n tail d =
    let text = digit-IsDigits (n % 10) tail (omega arith) d in
    elim (Bool-cases (ltb n 10)) [
      | inl one ↦ rw one text
      | inr more ↦ rw more (digits-IsDigits f (n / 10) _ text)
    ]

digits-Leads : (f n : ℕ) (tail : String) → 0 < n → n < f → Leads (digits f 10 n tail)
unfolding digits
digits-Leads zero n tail h k = absurd (omega arith)
digits-Leads (suc f) n tail h k = elim (Bool-cases (ltb n 10)) [
  | inl one ↦
      let (c, same, text) = digit_char (n % 10) (omega arith) in
      rw (one, text tail) (ground (arith, same))
  | inr more ↦ rw more (digits-Leads f (n / 10) _ (ground arith) (ground arith))
]

pub decimal-IsDigits : (n : ℕ) → IsDigits (decimal n)
unfolding decimal
decimal-IsDigits n = digits-IsDigits (suc n) n "" tt

pub decimal-Leads : (n : ℕ) → 0 < n → Leads (decimal n)
unfolding decimal
decimal-Leads n h = digits-Leads (suc n) n "" h (omega arith)

pub parse-decimal : (n : ℕ) → parse_digits 0 (decimal n) ≡ some n
unfolding decimal parse_digits
parse-decimal n = parse-digits (suc n) n "" (omega arith)

value_of_text : (s : String) (n : ℕ) → Leads s → parse_digits 0 s ≡ some n → digits_value s ≡ some n
unfolding digits_value
value_of_text String.[] n h e = absurd h
value_of_text (String.◌∷◌ c s) n h e = e

pub digits_value-decimal : (n : ℕ) → digits_value (decimal n) ≡ some n
unfolding digits_value decimal
digits_value-decimal zero = refl
digits_value-decimal (suc n) =
    value_of_text (decimal (suc n)) (suc n) (decimal-Leads (suc n) (omega arith))
      (parse-decimal (suc n))

atoi_of_digits : (s : String) → IsDigits s → atoi s ≡ clamp false (digits_value s)
unfolding atoi same_char clamp digits_value
atoi_of_digits String.[] d = refl
atoi_of_digits (String.◌∷◌ c s) ((low, high), d) =
    let minus : (code c == 45) ≡ false = ground arith in
    let plus : (code c == 43) ≡ false = ground arith in rw (minus, plus) refl

-- `Atoi` reads back what `%d` prints, for numbers that fit an `int`.
pub atoi-decimal : (n : ℕ) → n < 2 ^ 63 → atoi (decimal n) ≡ pos n
unfolding clamp
atoi-decimal n h =
    atoi_of_digits (decimal n) (decimal-IsDigits n)
    ∙ ap (clamp false) (digits_value-decimal n)
    ∙ ground arith
