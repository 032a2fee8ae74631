-- ===== src/Linux/Nftables.antt =====
-- internal/linux/nftables/nftables.go: the owned table as a script for `nft -f`.
pub mod Batches
pub mod Script
pub mod Live
pub mod Exprs
pub mod Match
pub mod Reconcile
pub mod Outcomes
mod HostTests
pub mod Text
pub mod Runs
pub mod Compiled
mod Tests
use mathlib.Core.Option
use go_run.Prelude.{
  ℕ, zero, suc, ◌+◌, ◌<◌, String, Bool, true, false, not, ◌&&◌, Option, none, some, List, [], ◌∷◌,
  ◌++◌, map, str_eq, if◌then◌else◌, length,
}
use go_run.Strings.{◌<>◌, join, hex, show_int}
use go_run.Netip.{Addr, Prefix}
use go_run.Netip.Text.{addr_text, prefix_text}
use go_run.Policy.{NftSetSpec, NftRuleSpec, NftChainSpec, NftSpec}

-- What is written to a `strings.Builder` piece by piece
unfoldable pub concat_text : List String → String
concat_text [] = ""
concat_text (s ∷ ss) = s <> concat_text ss

abbrev pub element_batch_size : ℕ
element_batch_size = 4000

module _ {ℓ} {A : Type ℓ} where
  unfoldable pub take : ℕ → List A → List A
  take zero xs = []
  take (suc n) [] = []
  take (suc n) (x ∷ xs) = x ∷ take n xs

  unfoldable pub drop : ℕ → List A → List A
  drop zero xs = xs
  drop (suc n) [] = []
  drop (suc n) (x ∷ xs) = drop n xs

  -- The slices that the loop of `writeBatchedElements` takes, with fuel for the rounds
  unfoldable pub batches_from : ℕ → ℕ → List A → List (List A)
  unfolding take drop
  batches_from fuel size [] = []
  batches_from zero size (x ∷ xs) = []
  batches_from (suc fuel) size (x ∷ xs) =
      take size (x ∷ xs) ∷ batches_from fuel size (drop size (x ∷ xs))

  unfoldable pub batches : List A → List (List A)
  unfolding batches_from
  batches xs = batches_from (length xs) element_batch_size xs

unfoldable pub prefixes_to_strings : NftSetSpec → List String
unfolding prefix_text
prefixes_to_strings set = map prefix_text set.elements

unfoldable pub element_line : String → String → String → List String → String
unfolding join
element_line family table set_name batch =
    "add element "
    <> family
    <> " "
    <> table
    <> " "
    <> set_name
    <> " { "
    <> join ", " batch
    <> " }\n"

-- What `writeBatchedElements` adds to the script
unfoldable pub write_batched_elements : String → String → String → List String → String
unfolding batches element_line concat_text
write_batched_elements family table set_name elements =
    concat_text (map (element_line family table set_name) (batches elements))

unfoldable pub set_line : String → String → String → String → String
set_line family table name type =
    "add set " <> family <> " " <> table <> " " <> name <> " { type " <> type
    <> "; flags interval; }\n"

unfoldable pub render_set : String → String → NftSetSpec → String
unfolding set_line write_batched_elements prefixes_to_strings
render_set family table set =
    set_line family table set.name set.type
    <> write_batched_elements family table set.name (prefixes_to_strings set)

-- The lines of one rule
unfoldable pub rule_lines : NftRuleSpec → List String
unfolding prefix_text addr_text hex
rule_lines rule =
    if rule.drop_ipv6
    then "meta nfproto ipv6 drop comment \"drop-ipv6\"" ∷ []
    else if str_eq rule.description "mark-non-direct"
    then map (λ p. "ip daddr " <> prefix_text p <> " return comment \"exclude-lan\"")
        rule.exclude_prefixes
      ++ map (λ a. "ip daddr " <> addr_text a <> " counter return comment \"exclude-endpoint\"")
          rule.exclude_addrs
      ++ ("ip daddr != @"
          <> rule.direct_set
          <> " meta mark set 0x"
          <> hex rule.mark
          <> " comment \"mark-non-direct\"")
        ∷ []
    else if str_eq rule.description "isolate-inbound-from-home"
    then ("iifname \"" <> rule.iif_name <> "\" ip daddr @" <> rule.drop_dst_set
        <> " drop comment \"isolate-inbound-from-home\"")
      ∷ []
    else []

unfoldable pub render_rule_lines : List NftRuleSpec → List String
unfolding rule_lines
render_rule_lines [] = []
render_rule_lines (rule ∷ rules) = rule_lines rule ++ render_rule_lines rules

unfoldable pub chain_line : String → String → NftChainSpec → String
unfolding show_int
chain_line family table chain =
    "add chain "
    <> family
    <> " "
    <> table
    <> " "
    <> chain.name
    <> " { type "
    <> chain.type
    <> " hook "
    <> chain.hook
    <> " priority "
    <> show_int chain.priority
    <> "; policy "
    <> chain.policy
    <> "; }\n"

unfoldable pub rule_line : String → String → String → String → String
rule_line family table chain line =
    "add rule " <> family <> " " <> table <> " " <> chain <> " " <> line <> "\n"

unfoldable pub render_chain : String → String → NftChainSpec → String
unfolding chain_line rule_line render_rule_lines concat_text
render_chain family table chain =
    chain_line family table chain
    <> concat_text (map (rule_line family table chain.name) (render_rule_lines chain.rules))

-- `RenderFullTable`
unfoldable pub render_full_table : NftSpec → String
unfolding render_set render_chain concat_text
render_full_table spec =
    "add table "
    <> spec.family
    <> " "
    <> spec.table
    <> "\n"
    <> concat_text (map (render_set spec.family spec.table) spec.sets)
    <> concat_text (map (render_chain spec.family spec.table) spec.chains)
