-- ===== src/CidrList/Tests.antt =====
-- A list as the program writes it, and one written by hand.
use go_run.Prelude.{
  ℕ, ◌+◌, ◌*◌, ◌^◌, ◌≡◌, refl, String, Option, none, some, List, [], ◌∷◌, All, arith,
}
use go_run.Prelude.Result.{ok, err}
use go_run.Netip.{v4, Prefix, prefix, addr, is6}
use go_run.Netip.Text.{parse_prefix, prefix_text}
use go_run.Strings.{split, trim_space, has_prefix, decimal}
use go_run.Collapse.{collapse_ipv4}
use go_run.Collapse.Coverage.{IsIpv4, covers}
use go_run.CidrList.{bad_cidr, scan_lines, read_line, read_lines, parse_cidr_list, write_cidr_list}
use go_run.CidrList.Laws.{parse_cidr_list-write_cidr_list, collapse_ipv4-parse_cidr_list}

abbrev no_ipv6 : String → Option ℕ
no_ipv6 s = none

abbrev two_nets : List Prefix
two_nets = prefix (v4 (10 * 2 ^ 24)) 9 ∷ prefix (v4 (192 * 2 ^ 24 + 168 * 2 ^ 16)) 17 ∷ []

parse_cidr_list-write_cidr_list_example :
    parse_cidr_list no_ipv6 (write_cidr_list two_nets) ≡ ok two_nets
parse_cidr_list-write_cidr_list_example =
    parse_cidr_list-write_cidr_list no_ipv6 two_nets
      ((omega arith, omega arith), ((omega arith, omega arith), tt))

abbrev by_hand : String
by_hand = "# LAN\n\n 10.0.0.0/8 \r\n192.168.0.0/16"

by_hand_read : parse_cidr_list no_ipv6 by_hand ≡ ok two_nets
unfolding parse_cidr_list scan_lines read_lines read_line parse_prefix trim_space has_prefix split
    is6 addr
by_hand_read = refl

collapse_ipv4-parse_cidr_list_example :
    All IsIpv4 two_nets
    × ((r : List Prefix) × (collapse_ipv4 two_nets ≡ some r)
        × ((x : ℕ) → covers r x ≡ covers two_nets x))
collapse_ipv4-parse_cidr_list_example =
    collapse_ipv4-parse_cidr_list no_ipv6 by_hand two_nets by_hand_read

no_prefix_length : parse_cidr_list no_ipv6 "10.0.0.0\n" ≡ err (bad_cidr "10.0.0.0")
unfolding parse_cidr_list scan_lines read_lines read_line parse_prefix trim_space has_prefix split
no_prefix_length = refl

written : write_cidr_list two_nets ≡ "10.0.0.0/8\n192.168.0.0/16\n"
unfolding write_cidr_list prefix_text decimal
written = refl
