-- ===== src/Linux/Nftables/HostTests.antt =====
-- The table of a sample policy as `nft -j` lists it, and a host that has it or not.
use go_run.Prelude.{
  ℕ, ◌≡◌, ◌↔◌, refl, negsuc, pos, String, Bool, true, false, Option, none, some, List, [], ◌∷◌,
  str_eq, if◌then◌else◌,
}
use go_run.Strings.{contains_text}
use go_run.Netip.{is_set}
use go_run.Policy.{NftSpec}
use go_run.Policy.Compile.{desired_state}
use go_run.Policy.Tests.{sample}
use go_run.Json.{Json, null, integer, str, arr, obj, Items, no_items, item, no_fields, field}
use go_run.Linux.{Reply, Runner}
use go_run.Linux.Nftables.Live.{LiveNft, elem_to_cidr, parse_uint32}
use go_run.Linux.Nftables.Match.{parse_nft_json, semantic_match_json}
use go_run.Linux.Nftables.Match.Means.{TableIsLive, semantic_match_json_iff}
use go_run.Linux.Nftables.Reconcile.{reconcile, count_elements_json}

abbrev table : NftSpec
table = (desired_state sample).nft

abbrev one_field : String → Json → Json
one_field k v = obj (field k v no_fields)

abbrev list_of : List Json → Items
list_of [] = no_items
list_of (j ∷ js) = item j (list_of js)

abbrev prefix_json : String → ℕ → Json
prefix_json a n =
    one_field "prefix" (obj (field "addr" (str a) (field "len" (integer (pos n)) no_fields)))

abbrev set_json : String → Json → Json
set_json name element =
    one_field "set"
      (obj (field "name" (str name) (field "elem" (arr (list_of (element ∷ []))) no_fields)))

abbrev chain_json : String → Json → Json
chain_json name prio = one_field "chain" (
    obj (
      field "name" (str name) (
        field "type" (str "filter")
          (field "hook" (str name) (field "prio" prio (field "policy" (str "accept") no_fields))))))

abbrev rule_json : String → String → List Json → Json
rule_json chain comment exprs = one_field "rule" (
    obj (
      field "chain" (str chain)
        (field "comment" (str comment) (field "expr" (arr (list_of exprs)) no_fields))))

abbrev match_json : Json → Json → Json
match_json left right = one_field "match" (obj (field "left" left (field "right" right no_fields)))

abbrev daddr_json : Json
daddr_json =
    one_field "payload" (obj (field "protocol" (str "ip") (field "field" (str "daddr") no_fields)))

abbrev mark_json : Json
mark_json = one_field "mangle" (
    obj (
      field "key" (one_field "meta" (one_field "key" (str "mark")))
        (field "value" (integer (pos 1)) no_fields)))

abbrev listing : Json
listing = one_field "nftables" (
    arr (
      list_of (
        one_field "metainfo" null
        ∷ set_json "ru_nets" (prefix_json "10.200.0.0" 24)
        ∷ set_json "home_nets" (str "10.10.0.0/24")
        ∷ chain_json "prerouting" (integer (negsuc 149))
        ∷ chain_json "forward" (integer (pos 0))
        ∷ rule_json "prerouting" "drop-ipv6" []
        ∷ rule_json "prerouting" "exclude-lan"
            (match_json daddr_json (prefix_json "10.10.0.0" 24) ∷ [])
        ∷ rule_json "prerouting" "exclude-endpoint" (match_json daddr_json (str "10.20.0.2") ∷ [])
        ∷ rule_json "prerouting" "mark-non-direct"
            (match_json daddr_json (str "@ru_nets") ∷ mark_json ∷ [])
        ∷ rule_json "forward" "isolate-inbound-from-home" (
            match_json (one_field "meta" (one_field "key" (str "iifname"))) (str "wg-clients")
            ∷ match_json daddr_json (one_field "set" (str "home_nets"))
            ∷ [])
        ∷ [])))

abbrev parsed : String → Option Json
parsed s = some listing

as_wanted : semantic_match_json parsed "{}" table ≡ true
unfolding semantic_match_json desired_state contains_text is_set
as_wanted = refl

semantic_match_json_iff_example :
    (semantic_match_json parsed "{}" table ≡ true)
    ↔ ((live : LiveNft) × (parse_nft_json parsed "{}" ≡ some live) × TableIsLive live table)
semantic_match_json_iff_example = semantic_match_json_iff parsed "{}" table

two_elements : count_elements_json parsed "{}" ≡ (2, false)
unfolding count_elements_json contains_text
two_elements = refl

hex_mark : parse_uint32 "0xfF" ≡ some 255
unfolding parse_uint32
hex_mark = refl

too_large : parse_uint32 "4294967296" ≡ none
unfolding parse_uint32
too_large = refl

no_length : elem_to_cidr (str "10.0.0.1") ≡ none
unfolding elem_to_cidr contains_text
no_length = refl

-- A host with or without the table
abbrev answer : Bool → String → Reply × Bool
answer there script =
    if str_eq script ""
    then (record { output = "{}"; error = if there then none else some "No such file" }, there)
    else (record { output = ""; error = none }, true)

abbrev small_host : Runner Bool
small_host = record { run_with_input = λ there name script args. answer there script }

applies : reconcile small_host parsed table false ≡ ((1, none), true)
unfolding reconcile desired_state is_set
applies = refl

settles : reconcile small_host parsed table true ≡ ((0, none), true)
unfolding reconcile desired_state is_set
settles = refl
