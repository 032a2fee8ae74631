-- ===== src/Linux/Routing/Tests.antt =====
-- A host whose table holds the fail-closed route or nothing.
use go_run.Prelude.{
  ℤ, pos, true≢false, ◌∙◌, ◌≡◌, ◌↔◌, refl, sym, String, Bool, true, false, ◌||◌, none, some, List,
  [], ◌∷◌, str_eq, if◌then◌else◌, arith,
}
use go_run.Strings.{split, fields, trim_space, show_int, hex, contains_text}
use go_run.Policy.{RouteSpec, fail_closed_route_metric}
use go_run.Policy.Compile.{default_route}
use go_run.Linux.{Runner, run}
use go_run.Linux.Routing.{rule_present}
use go_run.Linux.Routing.Parse.{route_key, table_routes_match, parse_route_line}
use go_run.Linux.Routing.Keys.{parsed_is, shown, wanted, table_routes_match_iff}
use go_run.Linux.Routing.Converges.{RouteHost, replacing, flushing}

abbrev fail_closed : RouteSpec
fail_closed = record {
  table = pos 100;
  destination = default_route;
  blackhole = true;
  device = "";
  metric = fail_closed_route_metric;
}

abbrev tunnel : RouteSpec
tunnel = record fail_closed { blackhole = false; device = "wg-exit"; metric = pos 10 }

abbrev printed : String
printed = "default dev wg-exit scope link metric 10 \nblackhole default metric 100 \n"

two_routes : table_routes_match printed (fail_closed ∷ tunnel ∷ []) ≡ true
unfolding table_routes_match split fields trim_space show_int parse_route_line route_key
two_routes = refl

one_missing : table_routes_match printed (fail_closed ∷ []) ≡ false
unfolding table_routes_match split fields trim_space show_int parse_route_line route_key
one_missing = refl

table_routes_match_iff_example :
    (table_routes_match printed (tunnel ∷ fail_closed ∷ []) ≡ true)
    ↔ ((k : String) → shown printed k ≡ wanted (tunnel ∷ fail_closed ∷ []) k)
table_routes_match_iff_example = table_routes_match_iff printed (tunnel ∷ fail_closed ∷ [])

-- Three rules that hold the three texts stand for a rule that is not there.
scattered :
    rule_present
      "1100: from all lookup 5\n7: from all fwmark 0x10 lookup 5\n8: from all lookup 100\n"
      (record { priority = pos 100; mark = 1; table = pos 100 })
    ≡ true
unfolding rule_present contains_text show_int hex
scattered = refl

-- The destination of a blackhole route is not read.
other_destination :
    parse_route_line "blackhole 10.0.0.0/8 metric 100" ≡ some (route_key fail_closed)
unfolding parse_route_line fields show_int route_key
other_destination = refl

-- Whether the table has the route
abbrev listing : Bool → String
listing true = "blackhole default metric 100 \n"
listing false = ""

abbrev second : List String → String
second (a ∷ b ∷ rest) = b
second args = ""

abbrev box : Runner Bool
box = record {
  run_with_input = λ k name input args.
      if str_eq (second args) "show"
      then (record { output = listing k; error = none }, k)
      else (record { output = ""; error = none }, str_eq (second args) "replace");
}

data Accepts : RouteSpec → Type 0 where
  accepts_fail_closed : Accepts fail_closed

abbrev box_keys : Bool → ℤ → String → Bool
box_keys k table key = shown (listing k) key

replace_one :
    (k : Bool) (rt : RouteSpec) (key : String)
    → Accepts rt
    → box_keys (run box k "ip" (replacing rt)).1 rt.table key
      ≡ (str_eq key (route_key rt) || box_keys k rt.table key)
unfolding route_key parse_route_line fields trim_space show_int split parsed_is
replace_one true rt key accepts_fail_closed = ground arith
replace_one false rt key accepts_fail_closed = ground arith

flush_one :
    (k : Bool) (table : ℤ) (key : String)
    → box_keys (run box k "ip" (flushing table)).1 table key ≡ false
unfolding parse_route_line fields trim_space show_int split parsed_is
flush_one k table key = refl

abbrev box_host : RouteHost box
box_host = record {
  keys = box_keys;
  Accepts = Accepts;
  Coexists = λ rt d. Unit;
  show_keys = λ k table key. refl;
  show_keeps = λ k table. refl;
  flush_keys = λ k table key fine. flush_one k table key;
  flush_adds_none = λ k table key h. absurd (true≢false (sym h ∙ flush_one k table key));
  replace_keys = λ k rt key a ok coexists. replace_one k rt key a;
}
