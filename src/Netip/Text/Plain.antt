-- ===== src/Netip/Text/Plain.antt =====
-- The text of an IPv4 prefix holds digits, dots and a slash.
use go_run.Prelude.{ℕ, suc, arith}
use go_run.Strings.{decimal}
use go_run.Strings.Numbers.{decimal-IsDigits}
use go_run.Strings.Plain.{IsPlain, append-IsPlain, IsPlain-of_digits}
use go_run.Netip.{v4, prefix}
use go_run.Netip.Text.{octet, text4, addr_text, prefix_text}

decimal-IsPlain : (n : ℕ) → IsPlain (decimal n)
decimal-IsPlain n = IsPlain-of_digits (decimal n) (decimal-IsDigits n)

text4-IsPlain : (n : ℕ) → IsPlain (text4 n)
unfolding text4
text4-IsPlain n = append-IsPlain (decimal (octet n 3)) _ (decimal-IsPlain (octet n 3)) (
  (omega arith, omega arith),
  append-IsPlain (decimal (octet n 2)) _ (decimal-IsPlain (octet n 2)) (
    (omega arith, omega arith),
    append-IsPlain (decimal (octet n 1)) _ (decimal-IsPlain (octet n 1))
        ((omega arith, omega arith), decimal-IsPlain (octet n 0)),
  ),
)

pub prefix_text-IsPlain : (n b : ℕ) → IsPlain (prefix_text (prefix (v4 n) (suc b)))
unfolding prefix_text addr_text
prefix_text-IsPlain n b =
    append-IsPlain (text4 n) _ (text4-IsPlain n) ((omega arith, omega arith), decimal-IsPlain b)
