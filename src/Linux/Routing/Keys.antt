-- ===== src/Linux/Routing/Keys.antt =====
-- When `tableRoutesMatch` holds.
use go_run.Prelude.{
  ◌≡◌, ◌↔◌, refl, sym, ap, ◌∙◌, inl, inr, String, Bool, true, false, ◌||◌, Option, none, some, List,
  [], ◌∷◌, str_eq, eq_iff, Bool-cases, arith, any,
}
use go_run.Strings.{trim_space, split}
use go_run.Policy.{RouteSpec}
use go_run.Strings.Keys.{
  has_key, insert_key, has_key-insert_key, Unique, insert_key-Unique, same_keys_iff,
}
use go_run.Linux.Routing.Parse.{
  insert_parsed, parse_lines, parse_route_keys, parse_route_line, desired_keys, route_key,
  table_routes_match,
}

insert_parsed-Unique :
    (o : Option String) (keys : List String) → Unique keys → Unique (insert_parsed o keys)
unfolding insert_parsed
insert_parsed-Unique none keys u = u
insert_parsed-Unique (some k) keys u = insert_key-Unique k keys u

parse_lines-Unique : (lines keys : List String) → Unique keys → Unique (parse_lines keys lines)
unfolding parse_lines
parse_lines-Unique [] keys u = u
parse_lines-Unique (l ∷ lines) keys u = elim (Bool-cases (str_eq (trim_space l) "")) [
  | inl e ↦ rw e (parse_lines-Unique lines keys u)
  | inr e ↦
      let o = parse_route_line (trim_space l) in
      rw e (parse_lines-Unique lines (insert_parsed o keys) (insert_parsed-Unique o keys u))
]

desired_keys-Unique :
    (want : List RouteSpec) (keys : List String) → Unique keys → Unique (desired_keys keys want)
unfolding desired_keys
desired_keys-Unique [] keys u = u
desired_keys-Unique (rt ∷ want) keys u =
    desired_keys-Unique want (insert_key (route_key rt) keys)
      (insert_key-Unique (route_key rt) keys u)

-- What a line was read as is this key.
unfoldable pub parsed_is : String → Option String → Bool
parsed_is k none = false
parsed_is k (some d) = str_eq k d

has_key-insert_parsed :
    (k : String) (o : Option String) (keys : List String)
    → has_key k (insert_parsed o keys) ≡ (parsed_is k o || has_key k keys)
unfolding insert_parsed parsed_is
has_key-insert_parsed k none keys = refl
has_key-insert_parsed k (some d) keys = has_key-insert_key k d keys

parse_empty : parse_route_line "" ≡ none
unfolding parse_route_line
parse_empty = refl

has_key-parse_lines :
    (k : String) (lines keys : List String)
    → has_key k (parse_lines keys lines)
      ≡ (has_key k keys || any (λ l. parsed_is k (parse_route_line (trim_space l))) lines)
unfolding parse_lines parsed_is
has_key-parse_lines k [] keys = ground arith
has_key-parse_lines k (l ∷ lines) keys = elim (Bool-cases (str_eq (trim_space l) "")) [
  | inl e ↦
      let none_here : parsed_is k (parse_route_line (trim_space l)) ≡ false =
        ap (λ t. parsed_is k (parse_route_line t)) ((eq_iff (trim_space l) "").0 e)
        ∙ ap (parsed_is k) parse_empty in
      rw (e, none_here) (has_key-parse_lines k lines keys)
  | inr e ↦
      let o = parse_route_line (trim_space l) in
      rw (e, has_key-parse_lines k lines (insert_parsed o keys), has_key-insert_parsed k o keys)
        (ground arith)
]

has_key-desired_keys :
    (k : String) (want : List RouteSpec) (keys : List String)
    → has_key k (desired_keys keys want)
      ≡ (has_key k keys || any (λ rt. str_eq k (route_key rt)) want)
unfolding desired_keys
has_key-desired_keys k [] keys = ground arith
has_key-desired_keys k (rt ∷ want) keys =
    rw
      (
        has_key-desired_keys k want (insert_key (route_key rt) keys),
        has_key-insert_key k (route_key rt) keys,
      )
      (ground arith)

-- A line of the output of `ip route show` is a route with this key.
abbrev pub shown : String → String → Bool
shown out k = any (λ l. parsed_is k (parse_route_line (trim_space l))) (split "\n" out)

-- One of the routes has this key.
abbrev pub wanted : List RouteSpec → String → Bool
wanted want k = any (λ rt. str_eq k (route_key rt)) want

-- The output of `ip route show` matches the wanted routes exactly when the keys of the routes in
-- its lines are the keys of the wanted routes, in whatever order and however often each is listed.
pub table_routes_match_iff :
    (out : String) (want : List RouteSpec)
    → (table_routes_match out want ≡ true) ↔ ((k : String) → shown out k ≡ wanted want k)
unfolding table_routes_match parse_route_keys
table_routes_match_iff out want =
    let lines = split "\n" out in
    let live = parse_lines [] lines in
    let desired = desired_keys [] want in
    let exact =
      same_keys_iff live desired (parse_lines-Unique lines [] tt)
        (desired_keys-Unique want [] tt) in
    let shows : (k : String) → has_key k live ≡ shown out k = λ k. has_key-parse_lines k lines [] in
    let wants : (k : String) → has_key k desired ≡ wanted want k =
      λ k. has_key-desired_keys k want [] in
    (
      λ h k. sym (shows k) ∙ exact.0 h k ∙ wants k,
      λ agree. exact.1 (λ k. shows k ∙ agree k ∙ sym (wants k)),
    )
