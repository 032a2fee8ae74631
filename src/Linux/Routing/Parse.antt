-- ===== src/Linux/Routing/Parse.antt =====
-- The keys of routes: those wanted, and those read from the output of `ip route show`.
use go_run.Prelude.{
  ℤ, pos, Bool, not, ◌||◌, Option, none, some, String, List, [], ◌∷◌, str_eq, if◌then◌else◌,
}
use go_run.Strings.{◌<>◌, trim_space, split, fields, show_int}
use go_run.Strings.Keys.{insert_key, same_keys}
use go_run.Strings.Numbers.{atoi}
use go_run.Policy.{RouteSpec}

blackhole_key : ℤ → String
unfolding show_int
blackhole_key metric = "blackhole|default|metric=" <> show_int metric

device_key : String → ℤ → String
unfolding show_int
device_key dev metric = "dev=" <> dev <> "|default|metric=" <> show_int metric

unfoldable pub route_key : RouteSpec → String
unfolding blackhole_key device_key
route_key rt = if rt.blackhole then blackhole_key rt.metric else device_key rt.device rt.metric

-- The loop keeps the last field that follows `metric`.
find_metric : ℤ → List String → ℤ
unfolding atoi
find_metric metric (f ∷ g ∷ rest) =
    find_metric (if str_eq f "metric" then atoi g else metric) (g ∷ rest)
find_metric metric short = metric

-- The first field that follows `dev`
find_dev : List String → String
find_dev (f ∷ g ∷ rest) = let later = find_dev (g ∷ rest) in if str_eq f "dev" then g else later
find_dev short = ""

parse_fields : List String → Option String
unfolding find_metric find_dev blackhole_key device_key
parse_fields [] = none
parse_fields (f ∷ rest) =
    let metric = find_metric (pos 0) (f ∷ rest) in
    let dev = find_dev (f ∷ rest) in
    if str_eq f "blackhole" || str_eq f "unreachable"
    then some (blackhole_key metric)
    else if not (str_eq f "default")
    then none
    else if str_eq dev ""
    then none
    else some (device_key dev metric)

unfoldable pub parse_route_line : String → Option String
unfolding parse_fields fields
parse_route_line line = parse_fields (fields line)

unfoldable pub insert_parsed : Option String → List String → List String
insert_parsed none keys = keys
insert_parsed (some k) keys = insert_key k keys

unfoldable pub parse_lines : List String → List String → List String
unfolding trim_space parse_route_line insert_parsed
parse_lines keys [] = keys
parse_lines keys (l ∷ lines) =
    let line = trim_space l in
    parse_lines (if str_eq line "" then keys else insert_parsed (parse_route_line line) keys) lines

unfoldable pub parse_route_keys : String → List String
unfolding parse_lines split
parse_route_keys out = parse_lines [] (split "\n" out)

unfoldable pub desired_keys : List String → List RouteSpec → List String
unfolding route_key
desired_keys keys [] = keys
desired_keys keys (rt ∷ want) = desired_keys (insert_key (route_key rt) keys) want

unfoldable pub table_routes_match : String → List RouteSpec → Bool
unfolding parse_route_keys desired_keys
table_routes_match out want = same_keys (parse_route_keys out) (desired_keys [] want)
