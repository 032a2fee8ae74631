-- ===== src/Linux/Nftables/Script.antt =====
-- What the script says: its statements, and what `nft` does with them on an empty ruleset. It
-- models no code of the program; `RenderFullTable` writes the texts of these statements.
use go_run.Prelude.{
  ℕ, String, Bool, true, all, not, ◌&&◌, Option, none, some, List, [], ◌∷◌, ◌++◌, map, str_eq,
  if◌then◌else◌,
}
use go_run.Strings.{◌<>◌, hex, join, show_int}
use go_run.Netip.{Addr, Prefix, contains, addr, addr_eq, is4, is6}
use go_run.Netip.Text.{addr_text, prefix_text}
use go_run.Policy.{NftSetSpec, NftRuleSpec, NftChainSpec, NftSpec}
use go_run.Policy.Datapath.{in_prefixes}
use go_run.Linux.Nftables.{batches}

-- A rule of nftables
pub data Line : Type 0 where
  drop_any_ipv6 : Line
  return_lan : Prefix → Line
  return_endpoint : Addr → Line
  mark_unless : String → ℕ → Line
  drop_between : String → String → Line

pub data Command : Type 0 where
  add_set : String → String → Command
  add_element : String → List Prefix → Command
  add_chain : NftChainSpec → Command
  add_rule : String → Line → Command

unfoldable pub show_line : Line → String
unfolding prefix_text addr_text hex
show_line drop_any_ipv6 = "meta nfproto ipv6 drop comment \"drop-ipv6\""
show_line (return_lan p) = "ip daddr " <> prefix_text p <> " return comment \"exclude-lan\""
show_line (return_endpoint a) =
    "ip daddr " <> addr_text a <> " counter return comment \"exclude-endpoint\""
show_line (mark_unless set mark) =
    "ip daddr != @" <> set <> " meta mark set 0x" <> hex mark <> " comment \"mark-non-direct\""
show_line (drop_between iif set) =
    "iifname \"" <> iif <> "\" ip daddr @" <> set <> " drop comment \"isolate-inbound-from-home\""

unfoldable pub show_command : String → String → Command → String
unfolding show_line prefix_text join show_int
show_command family table (add_set name type) =
    "add set " <> family <> " " <> table <> " " <> name <> " { type " <> type
    <> "; flags interval; }\n"
show_command family table (add_element name ps) =
    "add element "
    <> family
    <> " "
    <> table
    <> " "
    <> name
    <> " { "
    <> join ", " (map prefix_text ps)
    <> " }\n"
show_command family table (add_chain chain) =
    "add chain "
    <> family
    <> " "
    <> table
    <> " "
    <> chain.name
    <> " { type "
    <> chain.type
    <> " hook "
    <> chain.hook
    <> " priority "
    <> show_int chain.priority
    <> "; policy "
    <> chain.policy
    <> "; }\n"
show_command family table (add_rule chain line) =
    "add rule " <> family <> " " <> table <> " " <> chain <> " " <> show_line line <> "\n"

-- The elements that `nft` takes into an interval set of IPv4 addresses: IPv4 prefixes, no two of
-- which overlap
unfoldable pub takes : List Prefix → Bool
unfolding contains is4 addr
takes [] = true
takes (p ∷ ps) =
    is4 (addr p) && all (λ q. not (contains p (addr q)) && not (contains q (addr p))) ps && takes ps

unfoldable pub lines_of : NftRuleSpec → List Line
lines_of rule =
    if rule.drop_ipv6
    then drop_any_ipv6 ∷ []
    else if str_eq rule.description "mark-non-direct"
    then map return_lan rule.exclude_prefixes
      ++ map return_endpoint rule.exclude_addrs
      ++ mark_unless rule.direct_set rule.mark ∷ []
    else if str_eq rule.description "isolate-inbound-from-home"
    then drop_between rule.iif_name rule.drop_dst_set ∷ []
    else []

unfoldable pub chain_lines : List NftRuleSpec → List Line
unfolding lines_of
chain_lines [] = []
chain_lines (rule ∷ rules) = lines_of rule ++ chain_lines rules

unfoldable pub set_commands : List NftSetSpec → List Command
unfolding batches
set_commands [] = []
set_commands (s ∷ sets) =
    add_set s.name s.type ∷ (map (add_element s.name) (batches s.elements) ++ set_commands sets)

unfoldable pub chain_commands : List NftChainSpec → List Command
unfolding chain_lines
chain_commands [] = []
chain_commands (c ∷ chains) =
    add_chain c ∷ (map (add_rule c.name) (chain_lines c.rules) ++ chain_commands chains)

-- `ip daddr` takes IPv4 texts only.
unfoldable pub takes_line : Line → Bool
unfolding is4 addr
takes_line drop_any_ipv6 = true
takes_line (return_lan p) = is4 (addr p)
takes_line (return_endpoint a) = is4 a
takes_line (mark_unless set mark) = true
takes_line (drop_between iif set) = true

-- `nft` takes the whole script.
unfoldable pub takes_table : NftSpec → Bool
unfolding takes takes_line chain_lines
takes_table spec =
    all (λ s. takes s.elements) spec.sets
    && all (λ c. all takes_line (chain_lines c.rules)) spec.chains

-- The statements for a table, after the one that adds it
unfoldable pub commands : NftSpec → List Command
unfolding set_commands chain_commands
commands spec = set_commands spec.sets ++ chain_commands spec.chains

-- The elements that the statements put into a set
unfoldable pub elements_in : String → List Command → List Prefix
elements_in name [] = []
elements_in name (add_element n ps ∷ cs) =
    let rest = elements_in name cs in if str_eq n name then ps ++ rest else rest
elements_in name (add_set n t ∷ cs) = elements_in name cs
elements_in name (add_chain c ∷ cs) = elements_in name cs
elements_in name (add_rule c l ∷ cs) = elements_in name cs

-- The rules that the statements put into a chain
unfoldable pub rules_in : String → List Command → List Line
rules_in name [] = []
rules_in name (add_rule c l ∷ cs) =
    let rest = rules_in name cs in if str_eq c name then l ∷ rest else rest
rules_in name (add_element n ps ∷ cs) = rules_in name cs
rules_in name (add_set n t ∷ cs) = rules_in name cs
rules_in name (add_chain c ∷ cs) = rules_in name cs

-- A packet from the interface `iif` to `dst` with a mark, through the rules of a chain: `none` is
-- dropped, `some` goes on with its mark. `ip daddr` matches IPv4 packets only.
unfoldable pub run_lines : (String → List Prefix) → String → Addr → ℕ → List Line → Option ℕ
run_lines sets iif dst mark [] = some mark
run_lines sets iif dst mark (drop_any_ipv6 ∷ lines) =
    let rest = run_lines sets iif dst mark lines in if is6 dst then none else rest
run_lines sets iif dst mark (return_lan p ∷ lines) =
    let rest = run_lines sets iif dst mark lines in if contains p dst then some mark else rest
run_lines sets iif dst mark (return_endpoint a ∷ lines) =
    let rest = run_lines sets iif dst mark lines in if addr_eq a dst then some mark else rest
run_lines sets iif dst mark (mark_unless set m ∷ lines) =
    let marked = run_lines sets iif dst m lines in
    let rest = run_lines sets iif dst mark lines in
    if is4 dst && not (in_prefixes dst (sets set)) then marked else rest
run_lines sets iif dst mark (drop_between i set ∷ lines) =
    let rest = run_lines sets iif dst mark lines in
    if str_eq i iif && in_prefixes dst (sets set) then none else rest

-- A packet that a chain does not drop goes on to the next one.
abbrev pub and_then : Option ℕ → (ℕ → Option ℕ) → Option ℕ
and_then none next = none
and_then (some mark) next = next mark

-- The chains of a hook, in the order in which they are added.
unfoldable pub run_hook : List Command → String → String → Addr → ℕ → List Command → Option ℕ
unfolding run_lines rules_in elements_in
run_hook all hook iif dst mark [] = some mark
run_hook all hook iif dst mark (add_chain c ∷ cs) =
    let skip = run_hook all hook iif dst mark cs in
    if str_eq c.hook hook
    then and_then (run_lines (λ s. elements_in s all) iif dst mark (rules_in c.name all))
        (λ m. run_hook all hook iif dst m cs)
    else skip
run_hook all hook iif dst mark (add_element n ps ∷ cs) = run_hook all hook iif dst mark cs
run_hook all hook iif dst mark (add_set n t ∷ cs) = run_hook all hook iif dst mark cs
run_hook all hook iif dst mark (add_rule c l ∷ cs) = run_hook all hook iif dst mark cs
