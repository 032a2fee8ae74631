-- ===== src/CidrList/Laws.antt =====
-- Lists of prefixes: written and read back, and what a list that was read is good for.
use mathlib.Core.Path.{subst}
use go_run.Prelude.{
  ℕ, zero, suc, ◌^◌, ◌≤◌, ◌<◌, ◌≡◌, refl, sym, ap, ◌∙◌, inl, inr, String, false, ◌||◌, Option, none,
  some, List, [], ◌∷◌, ◌++◌, str_eq, eq_iff, arith, Bool-cases, All,
}
use go_run.Prelude.Result.{Result, ok, err, ◌>>=◌}
use go_run.Strings.{trim_space, has_prefix, split}
use go_run.Strings.Split.{split-append}
use go_run.Strings.Plain.{IsPlain-Free, trim_space-plain, has_prefix-plain}
use go_run.Netip.{unset, v4, v6, Prefix, prefix, addr, is6}
use go_run.Netip.Text.{parse_prefix, prefix_text}
use go_run.Netip.Text.Range.{parse_prefix-InRange, parse_prefix-nil}
use go_run.Netip.Text.Plain.{prefix_text-IsPlain}
use go_run.Netip.Text.RoundTrip.{parse_prefix-prefix_text}
use go_run.Collapse.{collapse_ipv4}
use go_run.Collapse.Coverage.{IsIpv4, covers, collapse_ipv4-covers}
use go_run.CidrList.{
  drop_last_empty, scan_lines, kept, read_line, push, read_lines, parse_cidr_list, write_cidr_list,
}

-- The lines that are written, one for each prefix
texts : List Prefix → List String
texts [] = []
texts (p ∷ ps) = prefix_text p ∷ texts ps

split-write :
    (ps : List Prefix) → All IsIpv4 ps → split "\n" (write_cidr_list ps) ≡ texts ps ++ "" ∷ []
unfolding write_cidr_list texts split
split-write [] h = refl
split-write (prefix (v4 n) (suc b) ∷ ps) (h, hs) =
    split-append "\n" (prefix_text (prefix (v4 n) (suc b))) (write_cidr_list ps) (
      IsPlain-Free "\n" (prefix_text (prefix (v4 n) (suc b))) (inl (omega arith))
        (prefix_text-IsPlain n b))
    ∙ ap (λ l. prefix_text (prefix (v4 n) (suc b)) ∷ l) (split-write ps hs)
split-write (prefix (v4 n) zero ∷ ps) (h, hs) = absurd h
split-write (prefix unset k ∷ ps) (h, hs) = absurd h
split-write (prefix (v6 n) k ∷ ps) (h, hs) = absurd h

drop_last_empty-append : (ls : List String) → drop_last_empty (ls ++ "" ∷ []) ≡ ls
unfolding drop_last_empty
drop_last_empty-append [] = refl
drop_last_empty-append (l ∷ []) = refl
drop_last_empty-append (l ∷ m ∷ ls) = ap (λ t. l ∷ t) (drop_last_empty-append (m ∷ ls))

pub text-not_nil :
    (parse6 : String → Option ℕ) (s : String) (p : Prefix)
    → parse_prefix parse6 s ≡ some p
    → str_eq s "" ≡ false
text-not_nil parse6 s p e = elim (Bool-cases (str_eq s "")) [
  | inl h ↦ cc (sym e ∙ ap (parse_prefix parse6) ((eq_iff s "").0 h) ∙ parse_prefix-nil parse6)
  | inr h ↦ h
]

read_line-text :
    (parse6 : String → Option ℕ) (n b : ℕ)
    → n < 2 ^ 32
    → b ≤ 32
    → read_line parse6 (prefix_text (prefix (v4 n) (suc b))) ≡ ok (some (prefix (v4 n) (suc b)))
unfolding read_line kept is6 addr
read_line-text parse6 n b h k =
    let p = prefix (v4 n) (suc b) in
    let plain = prefix_text-IsPlain n b in
    let parsed = parse_prefix-prefix_text parse6 n b h k in
    rw
      (
        trim_space-plain (prefix_text p) plain,
        text-not_nil parse6 (prefix_text p) p parsed,
        has_prefix-plain (prefix_text p) plain,
        parsed,
      )
      refl

read_lines-texts :
    (parse6 : String → Option ℕ) (ps : List Prefix)
    → All IsIpv4 ps
    → read_lines parse6 (texts ps) ≡ ok ps
unfolding read_lines texts
read_lines-texts parse6 [] h = refl
read_lines-texts parse6 (prefix (v4 n) (suc b) ∷ ps) ((k, l), hs) =
    rw (read_line-text parse6 n b l k, read_lines-texts parse6 ps hs) refl
read_lines-texts parse6 (prefix (v4 n) zero ∷ ps) (h, hs) = absurd h
read_lines-texts parse6 (prefix unset k ∷ ps) (h, hs) = absurd h
read_lines-texts parse6 (prefix (v6 n) k ∷ ps) (h, hs) = absurd h

-- A list of valid IPv4 prefixes is read back from what `WriteCIDRList` writes.
pub parse_cidr_list-write_cidr_list :
    (parse6 : String → Option ℕ) (ps : List Prefix)
    → All IsIpv4 ps
    → parse_cidr_list parse6 (write_cidr_list ps) ≡ ok ps
unfolding parse_cidr_list scan_lines
parse_cidr_list-write_cidr_list parse6 ps h =
    ap (λ ls. read_lines parse6 (drop_last_empty ls)) (split-write ps h)
    ∙ ap (read_lines parse6) (drop_last_empty-append (texts ps))
    ∙ read_lines-texts parse6 ps h

abbrev pub AllOk : {E : Type 0} → Result E (List Prefix) → Type 0
AllOk (err e) = Unit
AllOk (ok ps) = All IsIpv4 ps

abbrev pub OneOk : {E : Type 0} → Result E (Option Prefix) → Type 0
OneOk (err e) = Unit
OneOk (ok none) = Unit
OneOk (ok (some p)) = IsIpv4 p

kept-OneOk :
    (parse6 : String → Option ℕ) (line s : String) (o : Option Prefix)
    → parse_prefix parse6 s ≡ o
    → OneOk (kept line o)
unfolding kept is6 addr
kept-OneOk parse6 line s none e = tt
kept-OneOk parse6 line s (some (prefix (v6 n) k)) e = tt
kept-OneOk parse6 line s (some (prefix unset k)) e =
    absurd (parse_prefix-InRange parse6 s (prefix unset k) e)
kept-OneOk parse6 line s (some (prefix (v4 n) (suc b))) e =
    parse_prefix-InRange parse6 s (prefix (v4 n) (suc b)) e
kept-OneOk parse6 line s (some (prefix (v4 n) zero)) e =
    absurd (parse_prefix-InRange parse6 s (prefix (v4 n) zero) e)

read_line-OneOk : (parse6 : String → Option ℕ) (l : String) → OneOk (read_line parse6 l)
unfolding read_line
read_line-OneOk parse6 l =
    let line = trim_space l in
    elim (Bool-cases (str_eq line "" || has_prefix line "#")) [
      | inl e ↦ rw e tt
      | inr e ↦ rw e (kept-OneOk parse6 line line (parse_prefix parse6 line) refl)
    ]

pub push-AllOk :
    {E : Type 0} (x : Result E (Option Prefix)) (y : Result E (List Prefix))
    → OneOk x
    → AllOk y
    → AllOk (x >>= λ p. y >>= λ ps. ok (push p ps))
push-AllOk (err e) y h k = tt
push-AllOk (ok p) (err e) h k = tt
push-AllOk (ok none) (ok ps) h k = k
push-AllOk (ok (some p)) (ok ps) h k = (h, k)

read_lines-AllOk :
    (parse6 : String → Option ℕ) (lines : List String) → AllOk (read_lines parse6 lines)
unfolding read_lines
read_lines-AllOk parse6 [] = tt
read_lines-AllOk parse6 (l ∷ lines) =
    push-AllOk _ _ (read_line-OneOk parse6 l) (read_lines-AllOk parse6 lines)

pub parse_cidr_list-AllOk :
    (parse6 : String → Option ℕ) (text : String) → AllOk (parse_cidr_list parse6 text)
unfolding parse_cidr_list
parse_cidr_list-AllOk parse6 text = read_lines-AllOk parse6 (scan_lines text)

-- Every prefix of a list that was read is a valid IPv4 prefix, so `CollapseIPv4` takes the list
-- without a panic, and covers with its result the addresses that the list covers.
pub collapse_ipv4-parse_cidr_list :
    (parse6 : String → Option ℕ) (text : String) (ps : List Prefix)
    → parse_cidr_list parse6 text ≡ ok ps
    → All IsIpv4 ps
      × ((r : List Prefix) × (collapse_ipv4 ps ≡ some r) × ((x : ℕ) → covers r x ≡ covers ps x))
collapse_ipv4-parse_cidr_list parse6 text ps e =
    let valid = subst AllOk e (parse_cidr_list-AllOk parse6 text) in
    (valid, collapse_ipv4-covers ps valid)
