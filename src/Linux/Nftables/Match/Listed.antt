-- ===== src/Linux/Nftables/Match/Listed.antt =====
-- The sets that are read from a listing have no element twice.
use go_run.Prelude.{inl, inr, String, Option, none, some, List, [], All, str_eq, Bool-cases}
use go_run.Strings.Keys.{Unique, insert_key-Unique}
use go_run.Json.{Json, Items, no_items, item, Fields, as_fields, lookup, string_field, items_field}
use go_run.Linux.Nftables.Live.{
  LiveNft, LiveChain, LiveRule, and_then, insert_some, set_elements, elem_to_cidr, or_unnamed,
  parse_set_json, parse_chain_json,
}
use go_run.Linux.Nftables.Exprs.{parse_rule_json}
use go_run.Linux.Nftables.Match.{
  add_set, add_chain, add_rule, add_entry, add_object, read_objects, no_table, parse_nft_json,
}

-- The elements of a listed set are different from each other.
set_elements-Unique :
    (elems : Items) (keys : List String) → Unique keys → Unique (set_elements keys elems)
unfolding set_elements insert_some
set_elements-Unique no_items keys u = u
set_elements-Unique (item e elems) keys u =
    set_elements-Unique elems (insert_some (elem_to_cidr e) keys)
      (insert_some-Unique (elem_to_cidr e))
  where
    insert_some-Unique : (o : Option String) → Unique (insert_some o keys)
    insert_some-Unique none = u
    insert_some-Unique (some k) = insert_key-Unique k keys u

parse_set_json-Unique : (raw : Json) → Unique ((parse_set_json raw).1)
unfolding parse_set_json or_unnamed
parse_set_json-Unique raw = of_fields (as_fields raw)
  where
    of_items :
        (name : String) (o : Option Items)
        → Unique ((or_unnamed (and_then o (λ elems. some (name, set_elements [] elems)))).1)
    of_items name none = tt
    of_items name (some elems) = set_elements-Unique elems [] tt

    of_name :
        (fs : Fields) (o : Option String)
        → Unique (
            (or_unnamed (
              and_then o (λ name.
                and_then (items_field "elem" fs) (λ elems. some (name, set_elements [] elems))))).1)
    of_name fs none = tt
    of_name fs (some name) = of_items name (items_field "elem" fs)

    of_fields :
        (o : Option Fields)
        → Unique (
            (or_unnamed (
              and_then o (λ fs. and_then (string_field "name" fs) (λ name.
                and_then
                  (items_field "elem" fs)
                  (λ elems. some (name, set_elements [] elems)))))).1)
    of_fields none = tt
    of_fields (some fs) = of_name fs (string_field "name" fs)

abbrev pub SetsUnique : LiveNft → Type 0
SetsUnique live = All (λ e. Unique (e.1)) live.sets

add_entry-SetsUnique :
    (set chain rule : Option Json) (live : LiveNft)
    → SetsUnique live
    → SetsUnique (add_entry set chain rule live)
unfolding add_entry add_set
add_entry-SetsUnique (some set) chain rule live u =
    added (parse_set_json set) (parse_set_json-Unique set)
  where
    added : (e : String × List String) → Unique (e.1) → SetsUnique (add_set e live)
    added (name, elems) v = elim (Bool-cases (str_eq name "")) [
      | inl e ↦ rw e u
      | inr e ↦ rw e (v, u)
    ]
add_entry-SetsUnique none (some chain) rule live u = added (parse_chain_json chain)
  where
    added : (o : Option (String × LiveChain)) → SetsUnique (add_chain o live)
    added none = u
    added (some entry) = u
add_entry-SetsUnique none none (some rule) live u = added (parse_rule_json rule)
  where
    added : (o : Option LiveRule) → SetsUnique (add_rule o live)
    added none = u
    added (some r) = u
add_entry-SetsUnique none none none live u = u

read_objects-SetsUnique :
    (objects : Items) (live : LiveNft) → SetsUnique live → SetsUnique (read_objects live objects)
unfolding read_objects add_object
read_objects-SetsUnique no_items live u = u
read_objects-SetsUnique (item raw objects) live u =
    read_objects-SetsUnique objects (add_object (as_fields raw) live) (added (as_fields raw))
  where
    added : (o : Option Fields) → SetsUnique (add_object o live)
    added none = u
    added (some fs) =
        add_entry-SetsUnique (lookup "set" fs) (lookup "chain" fs) (lookup "rule" fs) live u

abbrev pub IsListed : Option LiveNft → Type 0
IsListed none = Unit
IsListed (some live) = SetsUnique live

pub parse_nft_json-IsListed :
    (parse_json : String → Option Json) (out : String) → IsListed (parse_nft_json parse_json out)
unfolding parse_nft_json
parse_nft_json-IsListed parse_json out =
    of_objects (and_then (and_then (parse_json out) as_fields) (items_field "nftables"))
  where
    of_objects :
        (o : Option Items) → IsListed (and_then o (λ objects. some (read_objects no_table objects)))
    of_objects none = tt
    of_objects (some objects) = read_objects-SetsUnique objects no_table tt
