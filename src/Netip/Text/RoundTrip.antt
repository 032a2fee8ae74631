-- ===== src/Netip/Text/RoundTrip.antt =====
-- An IPv4 prefix is read back from its text.
use Prim.Native.Char.{Char}
use text.Mathlib.TextLemmas.{nil-append, cons-append}
use go_run.Prelude.{
  ℕ, zero, suc, ◌+◌, ◌*◌, ◌^◌, ◌≤◌, ◌<◌, ◌≡◌, refl, ap, ◌∙◌, inl, String, true, false, Option, none,
  some, [], ◌∷◌, arith,
}
use go_run.Strings.{◌<>◌, same_char, decimal, split}
use go_run.Strings.Numbers.{IsDigits, Leads, decimal-IsDigits, decimal-Leads, digits_value-decimal}
use go_run.Strings.Split.{Free, IsDigits-Free, split-Free, split-append}
use go_run.Netip.{v4, prefix, bit_len}
use go_run.Netip.Text.{
  octet, text4, addr_text, prefix_text, padded, in_range, parse_octet, from_octets, parse_fields4,
  dotted, addr_kind, parse_kind, parse_addr, split_last, last_at, parse_bits, with_bits,
  parse_parts, parse_prefix,
}

padded_of_Leads : (s : String) → Leads s → padded s ≡ false
unfolding padded same_char
padded_of_Leads String.[] h = absurd h
padded_of_Leads (String.◌∷◌ c String.[]) h = refl
padded_of_Leads (String.◌∷◌ c (String.◌∷◌ d s)) h = ground arith

padded-decimal : (n : ℕ) → padded (decimal n) ≡ false
unfolding padded decimal
padded-decimal zero = refl
padded-decimal (suc n) = padded_of_Leads (decimal (suc n)) (decimal-Leads (suc n) (omega arith))

parse_octet-decimal : (n : ℕ) → n < 256 → parse_octet (decimal n) ≡ some n
unfolding parse_octet in_range
parse_octet-decimal n h = rw (padded-decimal n, digits_value-decimal n) (ground arith)

parse_bits-decimal : (n : ℕ) → parse_bits (decimal n) ≡ some n
unfolding parse_bits
parse_bits-decimal n = rw (padded-decimal n) (digits_value-decimal n)

addr_kind-dotted : (s rest : String) → IsDigits s → addr_kind (s <> String.◌∷◌ "." rest) ≡ dotted
unfolding addr_kind same_char
addr_kind-dotted String.[] rest d = rw (nil-append (String.◌∷◌ "." rest)) refl
addr_kind-dotted (String.◌∷◌ c s) rest ((low, high), d) =
    rw (cons-append c s (String.◌∷◌ "." rest)) (ground (arith, addr_kind-dotted s rest d))

split_last-Free : (sep : Char) (s : String) → Free sep s → split_last sep s ≡ none
unfolding split_last last_at
split_last-Free sep String.[] f = refl
split_last-Free sep (String.◌∷◌ c s) (e, f) = rw (split_last-Free sep s f, e) refl

split_last-append :
    (sep : Char) (s t : String)
    → same_char sep sep ≡ true
    → Free sep t
    → split_last sep (s <> String.◌∷◌ sep t) ≡ some (s, t)
unfolding split_last last_at
split_last-append sep String.[] t self f =
    rw (nil-append (String.◌∷◌ sep t), split_last-Free sep t f, self) refl
split_last-append sep (String.◌∷◌ c s) t self f =
    rw (cons-append c s (String.◌∷◌ sep t), split_last-append sep s t self f) refl

no_dot : (n : ℕ) → Free "." (decimal n)
no_dot n = IsDigits-Free "." (decimal n) (inl (omega arith)) (decimal-IsDigits n)

split-text4 :
    (n : ℕ)
    → split "." (text4 n)
      ≡ decimal (octet n 3) ∷ decimal (octet n 2) ∷ decimal (octet n 1) ∷ decimal (octet n 0) ∷ []
unfolding text4
split-text4 n =
    split-append "." (decimal (octet n 3)) _ (no_dot (octet n 3))
    ∙ ap (λ l. decimal (octet n 3) ∷ l)
        (split-append "." (decimal (octet n 2)) _ (no_dot (octet n 2))
          ∙ ap (λ l. decimal (octet n 2) ∷ l)
              (split-append "." (decimal (octet n 1)) _ (no_dot (octet n 1))
                ∙ ap (λ l. decimal (octet n 1) ∷ l)
                    (split-Free "." (decimal (octet n 0)) (no_dot (octet n 0)))))

octets_value :
    (n : ℕ)
    → n < 2 ^ 32
    → octet n 3 * 2 ^ 24 + octet n 2 * 2 ^ 16 + octet n 1 * 2 ^ 8 + octet n 0 ≡ n
octets_value n h = omega arith

parse_fields4-text4 : (n : ℕ) → n < 2 ^ 32 → parse_fields4 (split "." (text4 n)) ≡ some (v4 n)
unfolding parse_fields4 from_octets
parse_fields4-text4 n h =
    rw
      (
        split-text4 n,
        parse_octet-decimal (octet n 3) (omega arith),
        parse_octet-decimal (octet n 2) (omega arith),
        parse_octet-decimal (octet n 1) (omega arith),
        parse_octet-decimal (octet n 0) (omega arith),
      )
      (ap (λ k. some (v4 k)) (octets_value n h))

addr_kind-text4 : (n : ℕ) → addr_kind (text4 n) ≡ dotted
unfolding text4
addr_kind-text4 n = addr_kind-dotted (decimal (octet n 3)) _ (decimal-IsDigits (octet n 3))

pub parse_addr-text4 :
    (parse6 : String → Option ℕ) (n : ℕ) → n < 2 ^ 32 → parse_addr parse6 (text4 n) ≡ some (v4 n)
unfolding parse_addr parse_kind
parse_addr-text4 parse6 n h =
    ap (λ k. parse_kind parse6 k (text4 n)) (addr_kind-text4 n) ∙ parse_fields4-text4 n h

-- A prefix with an IPv4 address and a length up to 32 is read back from its text.
pub parse_prefix-prefix_text :
    (parse6 : String → Option ℕ) (n b : ℕ)
    → n < 2 ^ 32
    → b ≤ 32
    → parse_prefix parse6 (prefix_text (prefix (v4 n) (suc b))) ≡ some (prefix (v4 n) (suc b))
unfolding parse_prefix parse_parts prefix_text addr_text with_bits bit_len
parse_prefix-prefix_text parse6 n b h k =
    let slash =
      split_last-append "/" (text4 n) (decimal b) refl
        (IsDigits-Free "/" (decimal b) (inl (omega arith)) (decimal-IsDigits b)) in
    rw (slash, parse_addr-text4 parse6 n h, parse_bits-decimal b) (ground arith)
