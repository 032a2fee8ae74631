-- ===== src/Linux/Nftables/Tests.antt =====
-- A policy with an inbound interface and its script; sets of a few elements and of many.
use go_run.Prelude.{
  ℕ, ◌+◌, ◌*◌, ◌<◌, ◌≡◌, refl, none, some, List, [], ◌∷◌, map, length, All, if◌then◌else◌,
}
use go_run.Strings.{◌<>◌}
use go_run.Netip.{v4, is_set}
use go_run.Policy.{NftSpec}
use go_run.Policy.Compile.{desired_state}
use go_run.Policy.Datapath.{run_chains, drops}
use go_run.Policy.Tests.{sample, compile-sample}
use go_run.Linux.Nftables.{
  element_batch_size, batches, batches_from, concat_text, render_full_table,
}
use go_run.Linux.Nftables.Batches.{concat, IsBatch, batches_complete}
use go_run.Linux.Nftables.Script.{show_command, commands}
use go_run.Linux.Nftables.Text.{render_full_table-commands}
use go_run.Linux.Nftables.Compiled.{run_table, run_table-compile}
use go_run.Linux.Nftables.Script.{takes_table}

abbrev five : List ℕ
five = 1 ∷ 2 ∷ 3 ∷ 4 ∷ 5 ∷ []

batches_complete_example :
    (concat (batches five) ≡ five)
    × All (IsBatch element_batch_size) (batches five)
    × (length (batches five) * element_batch_size < length five + element_batch_size)
batches_complete_example = batches_complete five

in_pairs : batches_from 5 2 five ≡ (1 ∷ 2 ∷ []) ∷ (3 ∷ 4 ∷ []) ∷ (5 ∷ []) ∷ []
unfolding batches_from
in_pairs = refl

abbrev table : NftSpec
table = (desired_state sample).nft

written :
    render_full_table table
    ≡ "add table inet gotun\nadd set inet gotun ru_nets { type ipv4_addr; flags interval; }\n"
      <> "add element inet gotun ru_nets { 10.200.0.0/24 }\n"
      <> "add set inet gotun home_nets { type ipv4_addr; flags interval; }\n"
      <> "add element inet gotun home_nets { 10.10.0.0/24 }\n"
      <> "add chain inet gotun prerouting { type filter hook prerouting priority -150; policy accept; }\n"
      <> "add rule inet gotun prerouting meta nfproto ipv6 drop comment \"drop-ipv6\"\n"
      <> "add rule inet gotun prerouting ip daddr 10.10.0.0/24 return comment \"exclude-lan\"\n"
      <> "add rule inet gotun prerouting ip daddr 10.20.0.2 counter return comment \"exclude-endpoint\"\n"
      <> "add rule inet gotun prerouting ip daddr != @ru_nets meta mark set 0x1 comment \"mark-non-direct\"\n"
      <> "add chain inet gotun forward { type filter hook forward priority 0; policy accept; }\n"
      <> "add rule inet gotun forward iifname \"wg-clients\" ip daddr @home_nets drop comment \"isolate-inbound-from-home\"\n"
unfolding render_full_table desired_state is_set
written = refl

table_rendered :
    render_full_table table
    ≡ "add table "
      <> table.family
      <> " "
      <> table.table
      <> "\n"
      <> concat_text (map (show_command table.family table.table) (commands table))
table_rendered = render_full_table-commands table

run_table-compile_example :
    (render_full_table table
      ≡ "add table "
        <> table.family
        <> " "
        <> table.table
        <> "\n"
        <> concat_text (map (show_command table.family table.table) (commands table)))
    × (run_table table "prerouting" "wg-clients" (v4 134744072)
        ≡ some (run_chains table.sets table.chains 0 (v4 134744072)))
    × (run_table table "forward" "wg-clients" (v4 134744072)
        ≡ some (if drops (desired_state sample) "wg-clients" (v4 134744072) then none else some 0))
unfolding is_set takes_table desired_state
run_table-compile_example =
    run_table-compile sample (desired_state sample) "wg-clients" (v4 134744072) compile-sample refl
      refl
