-- ===== src/CidrList.antt =====
-- internal/prefixes/parse.go: lists of prefixes, one to a line. The parser of IPv6 addresses is a
-- parameter; a line is never longer than the scanner's buffer.
pub mod Laws
mod Tests
use go_run.Prelude.{
  ℕ, String, Bool, true, false, ◌||◌, Option, none, some, List, [], ◌∷◌, str_eq, if◌then◌else◌,
}
use go_run.Prelude.Result.{Result, ok, err, ◌>>=◌}
use go_run.Strings.{◌<>◌, trim_space, has_prefix, split}
use go_run.Netip.{Prefix, addr, is6}
use go_run.Netip.Text.{parse_prefix, prefix_text}

pub data CidrError : Type 0 where
  bad_cidr : String → CidrError

-- A last line without characters is no line.
drop_last_empty : List String → List String
drop_last_empty [] = []
drop_last_empty (l ∷ []) = if str_eq l "" then [] else l ∷ []
drop_last_empty (l ∷ m ∷ ls) = l ∷ drop_last_empty (m ∷ ls)

-- What `bufio.Scanner` yields; a carriage return at the end is white space to the reader. The error
-- of a line of 64 KB or more is left out.
unfoldable pub scan_lines : String → List String
unfolding drop_last_empty split
scan_lines text = drop_last_empty (split "\n" text)

kept : String → Option Prefix → Result CidrError (Option Prefix)
kept line none = err (bad_cidr line)
kept line (some p) = ok (if is6 (addr p) then none else some p)

-- The prefix of a line, if it has one that is kept
unfoldable pub read_line : (String → Option ℕ) → String → Result CidrError (Option Prefix)
unfolding kept parse_prefix trim_space has_prefix
read_line parse6 l =
    let line = trim_space l in
    if str_eq line "" || has_prefix line "#" then ok none else kept line (parse_prefix parse6 line)

abbrev pub push : Option Prefix → List Prefix → List Prefix
push none ps = ps
push (some p) ps = p ∷ ps

unfoldable pub read_lines : (String → Option ℕ) → List String → Result CidrError (List Prefix)
unfolding read_line
read_lines parse6 [] = ok []
read_lines parse6 (l ∷ lines) = do
  p ← read_line parse6 l
  ps ← read_lines parse6 lines
  ok (push p ps)

-- `ParseCIDRList`
unfoldable pub parse_cidr_list : (String → Option ℕ) → String → Result CidrError (List Prefix)
unfolding scan_lines read_lines
parse_cidr_list parse6 text = read_lines parse6 (scan_lines text)

-- What `WriteCIDRList` writes
unfoldable pub write_cidr_list : List Prefix → String
unfolding prefix_text
write_cidr_list [] = ""
write_cidr_list (p ∷ ps) = prefix_text p <> String.◌∷◌ "\n" (write_cidr_list ps)
