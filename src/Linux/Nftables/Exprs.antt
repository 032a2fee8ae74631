-- ===== src/Linux/Nftables/Exprs.antt =====
-- internal/linux/nftables/nftables.go: what is read off the expressions of a listed rule.
use go_run.Prelude.{
  ℕ, String, Bool, true, false, ◌&&◌, ◌||◌, Option, none, some, List, [], ◌∷◌, ◌++◌, str_eq,
  if◌then◌else◌,
}
use go_run.Strings.Keys.{has_key}
use go_run.Json.{
  Json, arr, obj, Items, no_items, item, Fields, no_fields, field, as_string, as_fields, of_raw,
  lookup, string_field, items_field, struct_field, raw_field,
}
use go_run.Linux.Nftables.Live.{
  LiveRule, then_try, and_then, non_empty, addr_len, parse_json_uint32,
}

is_set : Option Json → Bool
is_set none = false
is_set (some j) = true

text_is : Option String → String → Bool
text_is none s = false
text_is (some t) s = str_eq t s

when : {A : Type 0} → Bool → Option A → Option A
when test o = if test then o else none

-- The mark that a "mangle" of the meta key "mark" sets
unfoldable pub mangle_mark : Json → Option ℕ
unfolding as_fields struct_field string_field raw_field parse_json_uint32 text_is when
mangle_mark raw = and_then (as_fields raw) (λ fs. and_then (struct_field "key" fs) (λ key.
    and_then (struct_field "meta" key) (λ meta.
      when (text_is (string_field "key" meta) "mark")
        (of_raw parse_json_uint32 (raw_field "value" fs)))))

unfoldable mutual
  unfolding mangle_mark lookup is_set

  -- `findMarkInExpr`
  pub find_mark_in_expr : Items → Option ℕ
  find_mark_in_expr no_items = none
  find_mark_in_expr (item (obj fs) exprs) =
      then_try (then_try (and_then (lookup "mangle" fs) mangle_mark) (mark_in_fields fs))
        (find_mark_in_expr exprs)
  find_mark_in_expr (item _ exprs) = find_mark_in_expr exprs

  pub mark_in_fields : Fields → Option ℕ
  mark_in_fields no_fields = none
  mark_in_fields (field k v fs) =
      let later = mark_in_fields fs in
      let here = mark_in_value v in if is_set (lookup k fs) then later else then_try here later

  pub mark_in_value : Json → Option ℕ
  mark_in_value (arr exprs) = find_mark_in_expr exprs
  mark_in_value _ = none

of_option : Option String → List String
of_option none = []
of_option (some s) = s ∷ []

-- What `read` finds in the matches of the expressions, in the order of the walk
unfoldable mutual
  unfolding of_option lookup is_set

  pub walk : (Json → Option String) → Items → List String
  walk read no_items = []
  walk read (item (obj fs) exprs) =
      of_option (and_then (lookup "match" fs) read) ++ walk_fields read fs ++ walk read exprs
  walk read (item _ exprs) = walk read exprs

  pub walk_fields : (Json → Option String) → Fields → List String
  walk_fields read no_fields = []
  walk_fields read (field k v fs) =
      let later = walk_fields read fs in
      let here = walk_value read v in if is_set (lookup k fs) then later else here ++ later

  pub walk_value : (Json → Option String) → Json → List String
  walk_value read (arr exprs) = walk read exprs
  walk_value read _ = []

-- Each text once, where it is first
without_seen : List String → List String → List String
without_seen seen [] = []
without_seen seen (s ∷ ss) =
    let more = s ∷ without_seen (s ∷ seen) ss in
    let rest = without_seen seen ss in if has_key s seen then rest else more

is_daddr : Option Fields → Bool
unfolding string_field text_is
is_daddr none = false
is_daddr (some fs) =
    text_is (string_field "protocol" fs) "ip" && text_is (string_field "field" fs) "daddr"

-- `isIPDAddrPayload`
unfoldable pub is_ip_daddr_payload : Option Json → Bool
unfolding is_daddr as_fields struct_field
is_ip_daddr_payload left =
    is_daddr (and_then (of_raw as_fields left) (struct_field "payload"))
    || is_daddr (of_raw as_fields left)

-- `matchRightToString`
unfoldable pub match_right_to_string : Option Json → Option String
unfolding as_string as_fields struct_field addr_len
match_right_to_string right = then_try (non_empty (of_raw as_string right)) (
    then_try (and_then (and_then (of_raw as_fields right) (struct_field "prefix")) addr_len)
      (and_then (of_raw as_fields right) addr_len))

unfoldable pub daddr_from_match : Json → Option String
unfolding as_fields raw_field is_ip_daddr_payload match_right_to_string when
daddr_from_match raw = and_then (as_fields raw) (λ m.
    when (is_ip_daddr_payload (raw_field "left" m)) (match_right_to_string (raw_field "right" m)))

unfoldable pub iif_name_from_match : Json → Option String
unfolding as_fields raw_field struct_field string_field text_is as_string when
iif_name_from_match raw = and_then (as_fields raw) (λ m.
    and_then (and_then (of_raw as_fields (raw_field "left" m)) (struct_field "meta")) (λ meta.
      when (text_is (string_field "key" meta) "iifname")
        (non_empty (of_raw as_string (raw_field "right" m)))))

unfoldable pub set_name_from_match : Json → Option String
unfolding as_fields raw_field struct_field string_field
set_name_from_match raw = and_then (as_fields raw) (λ m.
    let right = of_raw as_fields (raw_field "right" m) in
    then_try (non_empty (and_then right (string_field "set")))
      (non_empty (and_then (and_then right (struct_field "set")) (string_field "name"))))

unfoldable pub find_daddrs_in_expr : Items → List String
unfolding walk without_seen daddr_from_match
find_daddrs_in_expr exprs = without_seen [] (walk daddr_from_match exprs)

unfoldable pub find_iif_names_in_expr : Items → List String
unfolding walk without_seen iif_name_from_match
find_iif_names_in_expr exprs = without_seen [] (walk iif_name_from_match exprs)

unfoldable pub find_set_names_in_expr : Items → List String
unfolding walk without_seen set_name_from_match
find_set_names_in_expr exprs = without_seen [] (walk set_name_from_match exprs)

-- `parseRuleJSON`
unfoldable pub parse_rule_json : Json → Option LiveRule
unfolding as_fields string_field items_field find_mark_in_expr find_daddrs_in_expr
    find_iif_names_in_expr find_set_names_in_expr
parse_rule_json raw = and_then (as_fields raw) (λ fs.
    and_then (non_empty (string_field "chain" fs)) (λ chain.
      and_then (string_field "comment" fs) (λ comment. and_then (items_field "expr" fs) (λ exprs.
        some (record {
          chain = chain;
          comment = comment;
          mark = find_mark_in_expr exprs;
          daddrs = find_daddrs_in_expr exprs;
          iif_names = find_iif_names_in_expr exprs;
          set_names = find_set_names_in_expr exprs;
        })))))
