-- ===== src/Linux/Nftables/Match/Means.antt =====
-- What it means that the listed table is as wanted.
use mathlib.Core.Path.{subst}
use mathlib.Core.Option.{some_inj}
use go_run.Prelude.{
  ◌≡◌, ◌↔◌, refl, sym, ap, ◌∙◌, inl, inr, String, Bool, true, false, true≢false, ◌&&◌, Option, none,
  some, List, [], ◌∷◌, map, all, any, All, leb, str_eq, if◌then◌else◌, Bool-cases, arith,
}
use go_run.Strings.Keys.{has_key, same_keys, Unique, same_keys_iff}
use go_run.Netip.Text.{prefix_text, addr_text}
use go_run.Policy.{NftSetSpec, NftRuleSpec, NftChainSpec, NftSpec}
use go_run.Json.{Json}
use go_run.Linux.Nftables.Live.{LiveNft, LiveChain, LiveRule}
use go_run.Linux.Nftables.Match.{
  find_entry, parse_nft_json, keys_of, count_comments, daddrs_for_comment, first_rule, mark_is,
  isolates, live_has_rule, has_elements, live_has_set, is_chain, has_rules, live_has_chain,
  semantic_match, matches_spec, semantic_match_json,
}
use go_run.Linux.Nftables.Match.Rules.{
  MarksWith, Isolates, HasAttributes, mark_is-MarksWith, isolates-Isolates, is_chain-HasAttributes,
}
use go_run.Linux.Nftables.Match.Listed.{SetsUnique, IsListed, parse_nft_json-IsListed}
use go_run.Linux.Nftables.Match.Comments.{
  keys_of-Unique, has_key-keys_of, is_rule, has_daddr, count_comments_iff, daddrs_from-Unique,
  has_key-daddrs_from,
}

-- The rules of a chain that stand for a wanted rule, by its kind: IPv6 is dropped, the packets that
-- are not direct are marked, the inbound interface is isolated, or any other.
module _ (rules : List LiveRule) (chain : String) (want : NftRuleSpec) where
  abbrev pub IsLive : Bool → Bool → Bool → Type 0
  IsLive true mark isolate = any (is_rule chain "drop-ipv6") rules ≡ true
  IsLive false true isolate =
      ((k : String)
        → any (has_daddr chain "exclude-lan" k) rules
          ≡ has_key k (map prefix_text want.exclude_prefixes))
      × ((k : String)
          → any (has_daddr chain "exclude-endpoint" k) rules
            ≡ has_key k (map addr_text want.exclude_addrs))
      × MarksWith rules chain want.mark
  IsLive false false true = Isolates rules chain want
  IsLive false false false = any (is_rule chain want.description) rules ≡ true

  abbrev pub RuleIsLive : Type 0
  RuleIsLive =
      IsLive want.drop_ipv6 (str_eq want.description "mark-non-direct")
        (str_eq want.description "isolate-inbound-from-home")

  same_daddrs_iff :
      (comment : String) (ss : List String)
      → (same_keys (daddrs_for_comment rules chain comment) (keys_of ss) ≡ true)
        ↔ ((k : String) → any (has_daddr chain comment k) rules ≡ has_key k ss)
  unfolding daddrs_for_comment
  same_daddrs_iff comment ss =
      let same =
        same_keys_iff (daddrs_for_comment rules chain comment) (keys_of ss)
          (daddrs_from-Unique chain comment rules [] tt) (keys_of-Unique ss) in
      (
        λ e. λ k.
            sym (has_key-daddrs_from chain comment k rules []) ∙ same.0 e k ∙ has_key-keys_of k ss,
        λ h.
            same.1 (λ k.
              has_key-daddrs_from chain comment k rules [] ∙ h k ∙ sym (has_key-keys_of k ss)),
      )

  live_has_rule_iff : (live_has_rule rules chain want ≡ true) ↔ RuleIsLive
  unfolding live_has_rule
  live_has_rule_iff =
      by_kind want.drop_ipv6 (str_eq want.description "mark-non-direct")
        (str_eq want.description "isolate-inbound-from-home")
    where
      lan : Bool
      lan =
          same_keys (daddrs_for_comment rules chain "exclude-lan")
            (keys_of (map prefix_text want.exclude_prefixes))

      endpoint : Bool
      endpoint =
          same_keys (daddrs_for_comment rules chain "exclude-endpoint")
            (keys_of (map addr_text want.exclude_addrs))

      by_kind :
          (d m i : Bool)
          → ((if d
                then leb 1 (count_comments rules chain "drop-ipv6")
                else if m
                then lan && endpoint && mark_is want.mark (first_rule rules chain "mark-non-direct")
                else if i
                then isolates want (first_rule rules chain "isolate-inbound-from-home")
                else leb 1 (count_comments rules chain want.description))
              ≡ true)
            ↔ IsLive d m i
      by_kind true m i = rw (count_comments_iff chain "drop-ipv6" rules) (λ e. e, λ e. e)
      by_kind false true i =
          let (lan_to, lan_from) =
            same_daddrs_iff "exclude-lan" (map prefix_text want.exclude_prefixes) in
          let (ep_to, ep_from) =
            same_daddrs_iff "exclude-endpoint" (map addr_text want.exclude_addrs) in
          let (mark_to, mark_from) = mark_is-MarksWith rules chain want.mark in
          (
            λ e. (
              lan_to (ground (arith, e)),
              ep_to (ground (arith, e)),
              mark_to (ground (arith, e)),
            ),
            λ (l, p, m). rw (lan_from l, ep_from p, mark_from m) refl,
          )
      by_kind false false true = isolates-Isolates rules chain want
      by_kind false false false =
          rw (count_comments_iff chain want.description rules) (λ e. e, λ e. e)

all-All :
    {A : Type 0} (f : A → Bool) (P : A → Type 0)
    → ((a : A) → (f a ≡ true) ↔ P a)
    → (xs : List A) → (all f xs ≡ true) ↔ All P xs
all-All f P h [] = (λ e. tt, λ t. refl)
all-All f P h (a ∷ xs) =
    let (here_to, here_from) = h a in
    let (later_to, later_from) = all-All f P h xs in
    (
      λ e. (here_to (ground (arith, e)), later_to (ground (arith, e))),
      λ (p, ps). rw (here_from p, later_from ps) refl,
    )

-- A set is listed, with the texts of the wanted elements and no others.
abbrev pub SetIsLive : LiveNft → NftSetSpec → Type 0
SetIsLive live set =
    (have : List String) × (find_entry set.name live.sets ≡ some have)
    × ((k : String) → has_key k have ≡ has_key k (map prefix_text set.elements))

-- A chain is listed with the wanted attributes, and each of its wanted rules is.
abbrev pub ChainIsLive : LiveNft → NftChainSpec → Type 0
ChainIsLive live ch =
    (have : LiveChain) × (find_entry ch.name live.chains ≡ some have)
    × HasAttributes ch have
    × All (RuleIsLive live.rules ch.name) ch.rules

abbrev pub TableIsLive : LiveNft → NftSpec → Type 0
TableIsLive live spec = All (SetIsLive live) spec.sets × All (ChainIsLive live) spec.chains

module _ (live : LiveNft) (unique : SetsUnique live) where
  entry-Unique :
      (name : String) (sets : List (String × List String)) (have : List String)
      → All (λ e. Unique (e.1)) sets
      → find_entry name sets ≡ some have
      → Unique have
  unfolding find_entry
  entry-Unique name [] have u e = ground (arith, e)
  entry-Unique name ((k, found) ∷ sets) have (v, u) e = elim (Bool-cases (str_eq k name)) [
    | inl same ↦ let listed : found ≡ have = ground (arith, e) in subst Unique listed v
    | inr other ↦ entry-Unique name sets have u (ground (arith, e))
  ]

  live_has_set_iff : (set : NftSetSpec) → (live_has_set live.sets set ≡ true) ↔ SetIsLive live set
  unfolding live_has_set has_elements
  live_has_set_iff set = of_entry (find_entry set.name live.sets) refl
    where
      of_entry :
          (o : Option (List String))
          → find_entry set.name live.sets ≡ o
          → (has_elements set o ≡ true) ↔ (
              (have : List String) × (o ≡ some have)
              × ((k : String) → has_key k have ≡ has_key k (map prefix_text set.elements)))
      of_entry none e = (λ h. absurd (true≢false (sym h)), λ (have, same, h). ground (arith, same))
      of_entry (some found) e =
          let same =
            same_keys_iff found (keys_of (map prefix_text set.elements))
              (entry-Unique set.name live.sets found unique e)
              (keys_of-Unique (map prefix_text set.elements)) in
          (
            λ h. (found, refl, λ k. same.0 h k ∙ has_key-keys_of k (map prefix_text set.elements)),
            λ (have, eq, h). same.1 (λ k.
                ap (has_key k) (some_inj.0 eq)
                ∙ h k
                ∙ sym (has_key-keys_of k (map prefix_text set.elements))),
          )

  live_has_chain_iff : (ch : NftChainSpec) → (live_has_chain live ch ≡ true) ↔ ChainIsLive live ch
  unfolding live_has_chain has_rules
  live_has_chain_iff ch = of_entry (find_entry ch.name live.chains)
    where
      rules_iff :
          (all (live_has_rule live.rules ch.name) ch.rules ≡ true)
          ↔ All (RuleIsLive live.rules ch.name) ch.rules
      rules_iff =
          all-All (live_has_rule live.rules ch.name) (RuleIsLive live.rules ch.name)
            (live_has_rule_iff live.rules ch.name) ch.rules

      of_entry :
          (o : Option LiveChain)
          → (has_rules live.rules ch o ≡ true) ↔ (
              (have : LiveChain) × (o ≡ some have)
              × HasAttributes ch have
              × All (RuleIsLive live.rules ch.name) ch.rules)
      of_entry none =
          (λ h. absurd (true≢false (sym h)), λ (have, same, fits, rules). ground (arith, same))
      of_entry (some found) = (
        λ h. (
          found,
          refl,
          (is_chain-HasAttributes ch found).0 (ground (arith, h)),
          rules_iff.0 (ground (arith, h)),
        ),
        λ (have, eq, fits, rules).
            rw
              (
                ap (is_chain ch) (some_inj.0 eq) ∙ (is_chain-HasAttributes ch have).1 fits,
                rules_iff.1 rules,
              )
              refl,
      )

  semantic_match_iff : (spec : NftSpec) → (semantic_match live spec ≡ true) ↔ TableIsLive live spec
  unfolding semantic_match
  semantic_match_iff spec =
      let sets = all-All (live_has_set live.sets) (SetIsLive live) live_has_set_iff spec.sets in
      let chains =
        all-All (live_has_chain live) (ChainIsLive live) live_has_chain_iff spec.chains in
      (
        λ e. (sets.0 (ground (arith, e)), chains.0 (ground (arith, e))),
        λ (s, c). rw (sets.1 s, chains.1 c) refl,
      )

-- A listing matches the wanted table exactly when `parseNFTJSON` reads it, every wanted set is
-- listed with the texts of the wanted elements and no others, and every wanted chain is listed with
-- its type, hook, priority and policy and a rule for each of its wanted ones: the rules that leave
-- destinations unmarked name the wanted destinations and no others, the first rule that marks sets
-- the wanted mark, and the first rule that isolates names the wanted interface and set.
pub semantic_match_json_iff :
    (parse_json : String → Option Json) (out : String) (spec : NftSpec)
    → (semantic_match_json parse_json out spec ≡ true)
      ↔ ((live : LiveNft) × (parse_nft_json parse_json out ≡ some live) × TableIsLive live spec)
unfolding semantic_match_json matches_spec
semantic_match_json_iff parse_json out spec =
    of_listing (parse_nft_json parse_json out) (parse_nft_json-IsListed parse_json out)
  where
    of_listing :
        (o : Option LiveNft)
        → IsListed o
        → (matches_spec spec o ≡ true)
          ↔ ((live : LiveNft) × (o ≡ some live) × TableIsLive live spec)
    of_listing none u = (λ h. absurd (true≢false (sym h)), λ (live, same, t). ground (arith, same))
    of_listing (some found) u = (
      λ h. (found, refl, (semantic_match_iff found u spec).0 h),
      λ (live, same, t).
          (semantic_match_iff found u spec).1
            (subst (λ l. TableIsLive l spec) (sym (some_inj.0 same)) t),
    )
