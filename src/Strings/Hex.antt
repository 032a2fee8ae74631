-- ===== src/Strings/Hex.antt =====
-- Numbers in hexadecimal, and `strconv.ParseUint` with 32 bits, with its round trip with `%x`.
use Prim.Native.Char.{Char, code}
use text.Mathlib.TextLemmas.{cons-append}
use go_run.Prelude.{
  ℕ, zero, suc, ◌+◌, ◌*◌, ◌-◌, ◌/◌, ◌%◌, ◌^◌, ◌<◌, ◌≡◌, refl, ap, ◌∙◌, inl, inr, false, ◌&&◌,
  Option, none, some, String, if◌then◌else◌, leb, ltb, Bool-cases, arith,
}
use go_run.Strings.{
  ◌<>◌, is_space, trim_left, trim_right, trim_space, digit_chars, digit_text, digits, hex,
}
use go_run.Strings.Numbers.{one_char}

unfoldable pub hex_digit : Char → Option ℕ
hex_digit c =
    if leb 48 (code c) && leb (code c) 57
    then some (code c - 48)
    else if leb 65 (code c) && leb (code c) 70
    then some (code c - 55)
    else if leb 97 (code c) && leb (code c) 102
    then some (code c - 87)
    else none

unfoldable pub with_digit : Option ℕ → (ℕ → Option ℕ) → Option ℕ
with_digit none go_on = none
with_digit (some d) go_on = go_on d

unfoldable pub parse_hex : ℕ → String → Option ℕ
unfolding hex_digit with_digit
parse_hex acc String.[] = some acc
parse_hex acc (String.◌∷◌ c s) = with_digit (hex_digit c) (λ d. parse_hex (acc * 16 + d) s)

-- The digits after "0x"
unfoldable pub hex_value : String → Option ℕ
unfolding parse_hex
hex_value (String.◌∷◌ nought (String.◌∷◌ x (String.◌∷◌ c s))) = parse_hex 0 (String.◌∷◌ c s)
hex_value _ = none

unfoldable pub in_uint32 : Option ℕ → Option ℕ
in_uint32 none = none
in_uint32 (some n) = if ltb n (2 ^ 32) then some n else none

-- The first `k` characters of a text are the digits from `b` on, and no white space.
abbrev HexFrom : ℕ → ℕ → String → Type 0
HexFrom zero b s = Unit
HexFrom (suc k) b String.[] = ⊥
HexFrom (suc k) b (String.◌∷◌ c s) =
    ((hex_digit c ≡ some b) × (is_space c ≡ false)) × HexFrom k (suc b) s

hex_text_from :
    (k b n : ℕ) (s : String)
    → HexFrom k b s
    → n < k
    → (c : Char) × ((hex_digit c ≡ some (b + n)) × (is_space c ≡ false))
      × ((tail : String) → digit_text n s <> tail ≡ String.◌∷◌ c tail)
unfolding digit_text
hex_text_from zero b n s d h = absurd (omega arith)
hex_text_from (suc k) b n String.[] d h = absurd d
hex_text_from (suc k) b zero (String.◌∷◌ c s) ((d, w), ds) h =
    (c, (rw d (ap some (omega arith)), w), λ tail. one_char c tail)
hex_text_from (suc k) b (suc n) (String.◌∷◌ c s) (d, ds) h =
    let (e, (same, w), text) = hex_text_from k (suc b) n s ds (omega arith) in
    (e, (same ∙ ap some (omega arith), w), text)

-- The text of a hexadecimal digit is one character.
hex_char :
    (n : ℕ)
    → n < 16
    → (c : Char) × ((hex_digit c ≡ some n) × (is_space c ≡ false))
      × ((tail : String) → digit_text n digit_chars <> tail ≡ String.◌∷◌ c tail)
unfolding hex_digit is_space
hex_char n h =
    let (c, (same, w), text) =
      hex_text_from 16 0 n digit_chars
        (
          (refl, refl),
          (
            (refl, refl),
            (
              (refl, refl),
              (
                (refl, refl),
                (
                  (refl, refl),
                  (
                    (refl, refl),
                    (
                      (refl, refl),
                      (
                        (refl, refl),
                        (
                          (refl, refl),
                          (
                            (refl, refl),
                            (
                              (refl, refl),
                              (
                                (refl, refl),
                                ((refl, refl), ((refl, refl), ((refl, refl), ((refl, refl), tt)))),
                              ),
                            ),
                          ),
                        ),
                      ),
                    ),
                  ),
                ),
              ),
            ),
          ),
        )
        h in
    (c, (same ∙ ap some (omega arith), w), text)

parse-hex_digit :
    (acc n : ℕ) (tail : String)
    → n < 16
    → parse_hex acc (digit_text n digit_chars <> tail) ≡ parse_hex (acc * 16 + n) tail
unfolding parse_hex
parse-hex_digit acc n tail h =
    let (c, (same, w), text) = hex_char n h in
    ap (parse_hex acc) (text tail)
    ∙ ap (λ o. with_digit o (λ d. parse_hex (acc * 16 + d) tail)) same

parse-hex_digits :
    (f n : ℕ) (tail : String) → n < f → parse_hex 0 (digits f 16 n tail) ≡ parse_hex n tail
unfolding digits
parse-hex_digits zero n tail h = absurd (omega arith)
parse-hex_digits (suc f) n tail h = elim (Bool-cases (ltb n 16)) [
  | inl one ↦
      rw one
        (parse-hex_digit 0 (n % 16) tail (omega arith) ∙ ap (λ k. parse_hex k tail) (ground arith))
  | inr more ↦ rw more (
      parse-hex_digits f (n / 16) (digit_text (n % 16) digit_chars <> tail) (ground arith)
      ∙ parse-hex_digit (n / 16) (n % 16) tail (omega arith)
      ∙ ap (λ k. parse_hex k tail) (omega arith))
]

-- No character is white space.
abbrev pub IsSolid : String → Type 0
IsSolid String.[] = Unit
IsSolid (String.◌∷◌ c s) = (is_space c ≡ false) × IsSolid s

-- The text has a first character, and no white space.
abbrev IsWord : String → Type 0
IsWord s = (c : Char) × (rest : String) × (s ≡ String.◌∷◌ c rest) × IsSolid s

hex_digits-IsWord : (f n : ℕ) (tail : String) → n < f → IsSolid tail → IsWord (digits f 16 n tail)
unfolding digits
hex_digits-IsWord zero n tail h k = absurd (omega arith)
hex_digits-IsWord (suc f) n tail h k =
    let (c, (same, w), text) = hex_char (n % 16) (omega arith) in
    elim (Bool-cases (ltb n 16)) [
      | inl one ↦ rw (one, text tail) (c, tail, refl, (w, k))
      | inr more ↦
          rw (more, text tail)
            (hex_digits-IsWord f (n / 16) (String.◌∷◌ c tail) (ground arith) (w, k))
    ]

pub hex-IsSolid : (n : ℕ) → IsSolid (hex n)
unfolding hex
hex-IsSolid n = let (c, rest, e, solid) = hex_digits-IsWord (suc n) n "" (omega arith) tt in solid

pub zero_x-IsSolid : (s : String) → IsSolid s → IsSolid (String.◌∷◌ "0" (String.◌∷◌ "x" s))
unfolding is_space
zero_x-IsSolid s w = (refl, (refl, w))

pub zero_x : (s : String) → "0x" <> s ≡ String.◌∷◌ "0" (String.◌∷◌ "x" s)
zero_x s = cons-append "0" "x" s ∙ ap (String.◌∷◌ "0") (one_char "x" s)

hex_value-word :
    (s : String) → IsWord s → hex_value (String.◌∷◌ "0" (String.◌∷◌ "x" s)) ≡ parse_hex 0 s
unfolding hex_value
hex_value-word String.[] (c, rest, e, w) = cc
hex_value-word (String.◌∷◌ c s) h = refl

pub hex_value-hex : (n : ℕ) → hex_value (String.◌∷◌ "0" (String.◌∷◌ "x" (hex n))) ≡ some n
unfolding hex parse_hex
hex_value-hex n =
    hex_value-word (hex n) (hex_digits-IsWord (suc n) n "" (omega arith) tt)
    ∙ parse-hex_digits (suc n) n "" (omega arith)

trim_left-solid : (s : String) → IsSolid s → trim_left s ≡ s
unfolding trim_left
trim_left-solid String.[] p = refl
trim_left-solid (String.◌∷◌ c s) (w, p) = rw w refl

trim_right-solid : (s : String) → IsSolid s → trim_right s ≡ s
unfolding trim_right
trim_right-solid String.[] p = refl
trim_right-solid (String.◌∷◌ c s) (w, p) = rw w (ap (String.◌∷◌ c) (trim_right-solid s p))

pub trim_space-solid : (s : String) → IsSolid s → trim_space s ≡ s
unfolding trim_space
trim_space-solid s p = ap trim_right (trim_left-solid s p) ∙ trim_right-solid s p
