-- ===== src/Linux/Routing.antt =====
-- internal/linux/routing/routing.go: the policy rules and the routes of the owned table.
pub mod Parse
pub mod Keys
mod Tests
pub mod Converges
use Prim.Native.Char.{Char, code}
use Prim.Native.String
use go_run.Prelude.{
  ℕ, ◌+◌, ◌*◌, ◌-◌, ◌^◌, ℤ, pos, negsuc, int_eq, int_less, ◌≡◌, Bool, true, false, not, ◌&&◌, ◌||◌,
  Option, none, some, String, List, [], ◌∷◌, ◌++◌, str_eq, if◌then◌else◌, length, any, all, leb,
  ltb, ◌==◌,
}
use go_run.Strings.{◌<>◌, trim_space, split, fields, contains_text, hex, show_int, same_char}
use go_run.Policy.{IpRuleSpec, RouteSpec}
use go_run.Linux.Routing.Parse.{table_routes_match}
use go_run.Linux.{
  Reply, Runner, run, succeeded, is_none, SpecOutcome, unchanged, changed, failed, next_round,
}

abbrev pub show_rules : List String
show_rules = "rule" ∷ "show" ∷ []

abbrev pub show_table : ℤ → List String
show_table table = "route" ∷ "show" ∷ "table" ∷ show_int table ∷ []

abbrev pub flush_table : ℤ → List String
flush_table table = "route" ∷ "flush" ∷ "table" ∷ show_int table ∷ []

abbrev hex_mark : ℕ → String
hex_mark mark = "0x" <> hex mark

-- The three tokens are looked for in the whole output, each on its own.
unfoldable pub rule_present : String → IpRuleSpec → Bool
unfolding contains_text show_int hex
rule_present out rule =
    contains_text out (show_int rule.priority <> ":")
    && contains_text out ("fwmark " <> hex_mark rule.mark)
    && contains_text out ("lookup " <> show_int rule.table)

unfoldable pub outcome_of : Option String → SpecOutcome
outcome_of none = changed
outcome_of (some e) = failed e

abbrev metric_args : ℤ → List String
metric_args metric = if int_less (pos 0) metric then "metric" ∷ show_int metric ∷ [] else []

unfoldable pub route_args : RouteSpec → List String
unfolding show_int
route_args rt =
    if rt.blackhole
    then "route"
      ∷ "replace"
      ∷ "blackhole"
      ∷ "default"
      ∷ "table"
      ∷ show_int rt.table
      ∷ metric_args rt.metric
    else "route"
      ∷ "replace"
      ∷ "default"
      ∷ "dev"
      ∷ rt.device
      ∷ "table"
      ∷ show_int rt.table
      ∷ metric_args rt.metric

-- `byTable[rt.Table] = append(byTable[rt.Table], rt)`
unfoldable pub append_route : RouteSpec → List (ℤ × List RouteSpec) → List (ℤ × List RouteSpec)
append_route rt [] = (rt.table, rt ∷ []) ∷ []
append_route rt ((table, want) ∷ tables) =
    let later = append_route rt tables in
    if int_eq table rt.table then (table, want ++ rt ∷ []) ∷ tables else (table, want) ∷ later

unfoldable pub by_table : List (ℤ × List RouteSpec) → List RouteSpec → List (ℤ × List RouteSpec)
unfolding append_route
by_table tables [] = tables
by_table tables (rt ∷ routes) = by_table (append_route rt tables) routes

module _ {K : Type 0} where
  unfoldable pub reconcile_rule : Runner K → IpRuleSpec → K → SpecOutcome × K
  unfolding rule_present outcome_of
  reconcile_rule r rule k =
      let (out, k1) = run r k "ip" show_rules in
      let priority = show_int rule.priority in
      let deleted = run r k1 "ip" ("rule" ∷ "del" ∷ "priority" ∷ priority ∷ []) in
      let added = run r deleted.1 "ip" (
        "rule"
        ∷ "add"
        ∷ "priority"
        ∷ priority
        ∷ "fwmark"
        ∷ hex_mark rule.mark
        ∷ "lookup"
        ∷ show_int rule.table
        ∷ []) in
      if rule_present out.output rule then (unchanged, k1) else (outcome_of added.0.error, added.1)

  -- `addRoute` for each route until one fails
  unfoldable pub add_routes : Runner K → List RouteSpec → K → SpecOutcome × K
  unfolding route_args is_none outcome_of
  add_routes r [] k = (changed, k)
  add_routes r (rt ∷ want) k =
      let (out, k1) = run r k "ip" (route_args rt) in
      let later = add_routes r want k1 in
      if succeeded out then later else (outcome_of out.error, k1)

  unfoldable pub reconcile_table : Runner K → ℤ × List RouteSpec → K → SpecOutcome × K
  unfolding table_routes_match add_routes
  reconcile_table r (table, want) k =
      let (out, k1) = run r k "ip" (show_table table) in
      let flushed = run r k1 "ip" (flush_table table) in
      if table_routes_match out.output want then (unchanged, k1) else add_routes r want flushed.1

  unfoldable pub reconcile_tables :
      Runner K → ℕ → List (ℤ × List RouteSpec) → K → (ℕ × Option String) × K
  unfolding reconcile_table next_round
  reconcile_tables r changes [] k = ((changes, none), k)
  reconcile_tables r changes (t ∷ tables) k =
      next_round (λ counted k1. reconcile_tables r counted tables k1) changes
        (reconcile_table r t k)

  -- The loop over the rules, with the loop over the tables after it
  unfoldable pub reconcile_rules :
      Runner K → List (ℤ × List RouteSpec) → ℕ → List IpRuleSpec → K → (ℕ × Option String) × K
  unfolding reconcile_rule reconcile_tables next_round
  reconcile_rules r tables changes [] k = reconcile_tables r changes tables k
  reconcile_rules r tables changes (rule ∷ rules) k =
      next_round (λ counted k1. reconcile_rules r tables counted rules k1) changes
        (reconcile_rule r rule k)

  -- `Reconcile`; `order` is the order in which the map of tables is walked
  unfoldable pub reconcile :
      Runner K
      → (List (ℤ × List RouteSpec) → List (ℤ × List RouteSpec))
      → List IpRuleSpec
      → List RouteSpec
      → K
      → (ℕ × Option String) × K
  unfolding reconcile_rules by_table
  reconcile r order rules routes k = reconcile_rules r (order (by_table [] routes)) 0 rules k

  -- `Clear`
  unfoldable pub clear : Runner K → ℤ → ℤ → K → K
  clear r priority table k =
      let (out, k1) = run r k "ip" ("rule" ∷ "del" ∷ "priority" ∷ show_int priority ∷ []) in
      let (out2, k2) = run r k1 "ip" (flush_table table) in k2
