-- ===== src/Linux/Nftables/Match.antt =====
-- internal/linux/nftables/nftables.go: whether the listed table is the one that is wanted.
pub mod Means
pub mod Rules
pub mod Listed
pub mod Comments
use go_run.Prelude.{
  ℕ, suc, ◌+◌, ℤ, int_eq, String, Bool, true, false, not, ◌&&◌, ◌||◌, Option, none, some, List, [],
  ◌∷◌, ◌++◌, map, all, length, leb, ◌==◌, str_eq, if◌then◌else◌,
}
use go_run.Strings.Keys.{has_key, insert_key, same_keys}
use go_run.Netip.Text.{prefix_text, addr_text}
use go_run.Policy.{NftSetSpec, NftRuleSpec, NftChainSpec, NftSpec}
use go_run.Json.{Json, obj, Items, no_items, item, Fields, as_fields, lookup, items_field}
use go_run.Linux.Nftables.Live.{
  LiveNft, LiveChain, LiveRule, and_then, then_try, parse_set_json, parse_chain_json,
}
use go_run.Linux.Nftables.Exprs.{parse_rule_json}

unfoldable pub find_entry : {A : Type 0} → String → List (String × A) → Option A
find_entry name [] = none
find_entry name ((k, a) ∷ entries) =
    let rest = find_entry name entries in if str_eq k name then some a else rest

add_set : String × List String → LiveNft → LiveNft
add_set (name, elems) live =
    if str_eq name "" then live else record live { sets = (name, elems) ∷ live.sets }

add_chain : Option (String × LiveChain) → LiveNft → LiveNft
add_chain none live = live
add_chain (some entry) live = record live { chains = entry ∷ live.chains }

add_rule : Option LiveRule → LiveNft → LiveNft
add_rule none live = live
add_rule (some rule) live = record live { rules = live.rules ++ rule ∷ [] }

-- An object under "set", else "chain", else "rule"
add_entry : Option Json → Option Json → Option Json → LiveNft → LiveNft
unfolding add_set add_chain add_rule parse_set_json parse_chain_json parse_rule_json
add_entry (some set) chain rule live = add_set (parse_set_json set) live
add_entry none (some chain) rule live = add_chain (parse_chain_json chain) live
add_entry none none (some rule) live = add_rule (parse_rule_json rule) live
add_entry none none none live = live

add_object : Option Fields → LiveNft → LiveNft
unfolding add_entry lookup
add_object none live = live
add_object (some fs) live = add_entry (lookup "set" fs) (lookup "chain" fs) (lookup "rule" fs) live

read_objects : LiveNft → Items → LiveNft
unfolding add_object as_fields
read_objects live no_items = live
read_objects live (item raw objects) = read_objects (add_object (as_fields raw) live) objects

abbrev no_table : LiveNft
no_table = record { sets = []; chains = []; rules = [] }

-- `parseNftJSON`
unfoldable pub parse_nft_json : (String → Option Json) → String → Option LiveNft
unfolding read_objects as_fields items_field
parse_nft_json parse_json out =
    and_then (and_then (and_then (parse_json out) as_fields) (items_field "nftables"))
      (λ objects. some (read_objects no_table objects))

unfoldable pub keys_of : List String → List String
keys_of [] = []
keys_of (s ∷ ss) = insert_key s (keys_of ss)

unfoldable pub count_comments : List LiveRule → String → String → ℕ
count_comments [] chain comment = 0
count_comments (r ∷ rules) chain comment =
    let rest = count_comments rules chain comment in
    if str_eq r.chain chain && str_eq r.comment comment then suc rest else rest

insert_keys : List String → List String → List String
insert_keys [] keys = keys
insert_keys (s ∷ ss) keys = insert_keys ss (insert_key s keys)

-- `daddrsForComment`, its map so far being `keys`
pub daddrs_from : List String → List LiveRule → String → String → List String
unfolding insert_keys
daddrs_from keys [] chain comment = keys
daddrs_from keys (r ∷ rules) chain comment =
    let skip = daddrs_from keys rules chain comment in
    let take = daddrs_from (insert_keys r.daddrs keys) rules chain comment in
    if not (str_eq r.chain chain) || not (str_eq r.comment comment) then skip else take

unfoldable pub daddrs_for_comment : List LiveRule → String → String → List String
unfolding daddrs_from
daddrs_for_comment rules chain comment = daddrs_from [] rules chain comment

unfoldable pub first_rule : List LiveRule → String → String → Option LiveRule
first_rule [] chain comment = none
first_rule (r ∷ rules) chain comment =
    let rest = first_rule rules chain comment in
    if str_eq r.chain chain && str_eq r.comment comment then some r else rest

unfoldable pub mark_is : ℕ → Option LiveRule → Bool
mark_is mark none = false
mark_is mark (some r) = elim r.mark [ none ↦ false | some m ↦ m == mark ]

unfoldable pub isolates : NftRuleSpec → Option LiveRule → Bool
isolates want none = false
isolates want (some r) =
    (str_eq want.iif_name "" || has_key want.iif_name r.iif_names)
    && (str_eq want.drop_dst_set "" || has_key want.drop_dst_set r.set_names)

-- `liveHasRule`
unfoldable pub live_has_rule : List LiveRule → String → NftRuleSpec → Bool
unfolding count_comments daddrs_for_comment keys_of first_rule mark_is isolates prefix_text
    addr_text
live_has_rule rules chain want =
    if want.drop_ipv6
    then leb 1 (count_comments rules chain "drop-ipv6")
    else if str_eq want.description "mark-non-direct"
    then same_keys (daddrs_for_comment rules chain "exclude-lan")
        (keys_of (map prefix_text want.exclude_prefixes))
      && same_keys (daddrs_for_comment rules chain "exclude-endpoint")
          (keys_of (map addr_text want.exclude_addrs))
      && mark_is want.mark (first_rule rules chain "mark-non-direct")
    else if str_eq want.description "isolate-inbound-from-home"
    then isolates want (first_rule rules chain "isolate-inbound-from-home")
    else leb 1 (count_comments rules chain want.description)

has_elements : NftSetSpec → Option (List String) → Bool
unfolding keys_of prefix_text
has_elements set none = false
has_elements set (some have) = same_keys have (keys_of (map prefix_text set.elements))

live_has_set : List (String × List String) → NftSetSpec → Bool
unfolding find_entry has_elements
live_has_set sets set = has_elements set (find_entry set.name sets)

unfoldable pub is_chain : NftChainSpec → LiveChain → Bool
is_chain ch live =
    str_eq live.type ch.type
    && str_eq live.hook ch.hook
    && int_eq live.priority ch.priority
    && str_eq live.policy ch.policy

has_rules : List LiveRule → NftChainSpec → Option LiveChain → Bool
unfolding is_chain live_has_rule
has_rules rules ch none = false
has_rules rules ch (some have) = is_chain ch have && all (live_has_rule rules ch.name) ch.rules

live_has_chain : LiveNft → NftChainSpec → Bool
unfolding find_entry has_rules
live_has_chain live ch = has_rules live.rules ch (find_entry ch.name live.chains)

unfoldable pub semantic_match : LiveNft → NftSpec → Bool
unfolding live_has_set live_has_chain
semantic_match live spec =
    all (live_has_set live.sets) spec.sets && all (live_has_chain live) spec.chains

matches_spec : NftSpec → Option LiveNft → Bool
unfolding semantic_match
matches_spec spec none = false
matches_spec spec (some live) = semantic_match live spec

-- `semanticMatchJSON`
unfoldable pub semantic_match_json : (String → Option Json) → String → NftSpec → Bool
unfolding parse_nft_json matches_spec
semantic_match_json parse_json out spec = matches_spec spec (parse_nft_json parse_json out)
