-- ===== src/Linux/Nftables/Live.antt =====
-- internal/linux/nftables/nftables.go: the state of the table as `nft -j` lists it. The parser of
-- JSON is a parameter. The objects of a rule's expressions are walked in the order of their text,
-- where Go walks a map in any order.
use go_run.Prelude.{ℕ, ℤ, pos, String, Option, none, some, List, [], str_eq, if◌then◌else◌}
use go_run.Strings.{◌<>◌, has_prefix, contains_text, show_int}
use go_run.Strings.Keys.{insert_key}
use go_run.Strings.Hex.{hex_value, in_uint32}
use go_run.Strings.Numbers.{digits_value}
use go_run.Json.{
  Json, Items, no_items, item, Fields, no_fields, field, as_string, as_fields, as_uint32, lookup,
  string_field, int_field, int_pointer_field, items_field,
}

pub record LiveChain : Type 0 where
  pub type : String
  pub hook : String
  pub priority : ℤ
  pub policy : String

pub record LiveRule : Type 0 where
  pub chain : String
  pub comment : String
  pub mark : Option ℕ
  pub daddrs : List String
  pub iif_names : List String
  pub set_names : List String

-- The maps of sets and chains have the entry that was written last in front.
pub record LiveNft : Type 0 where
  pub sets : List (String × List String)
  pub chains : List (String × LiveChain)
  pub rules : List LiveRule

abbrev pub then_try {ℓ} : {A : Type ℓ} → Option A → Option A → Option A
then_try none other = other
then_try (some a) other = some a

abbrev pub and_then {ℓ κ} : {A : Type ℓ} {B : Type κ} → Option A → (A → Option B) → Option B
and_then none f = none
and_then (some a) f = f a

-- A string that is not empty
abbrev pub non_empty : Option String → Option String
non_empty none = none
non_empty (some s) = if str_eq s "" then none else some s

-- "addr/len" of a struct with the two, if it has an address
unfoldable pub addr_len : Fields → Option String
unfolding string_field int_field show_int
addr_len fs =
    and_then (non_empty (string_field "addr" fs))
      (λ a. and_then (int_field "len" fs) (λ n. some (a <> "/" <> show_int n)))

abbrev with_slash : Option String → Option String
with_slash none = none
with_slash (some s) = if contains_text s "/" then some s else none

unfoldable pub prefix_object : Fields → Option String
unfolding addr_len lookup as_fields
prefix_object fs = and_then (lookup "prefix" fs) (λ p. and_then (as_fields p) addr_len)

elem_or_val : Option (Option String) → Option (Option String) → Option String
elem_or_val (some inner) val = inner
elem_or_val none (some inner) = inner
elem_or_val none none = none

unfoldable mutual
  unfolding prefix_object elem_or_val

  -- `elemToCIDR`
  pub elem_to_cidr : Json → Option String
  elem_to_cidr (Json.str s) = with_slash (some s)
  elem_to_cidr (Json.obj fs) =
      then_try (prefix_object fs) (elem_or_val (cidr_at "elem" fs) (cidr_at "val" fs))
  elem_to_cidr _ = none

  -- `elemToCIDR` of the value of a key, if the map has the key
  pub cidr_at : String → Fields → Option (Option String)
  cidr_at key no_fields = none
  cidr_at key (field k v fs) =
      let later = cidr_at key fs in
      let here = elem_to_cidr v in if str_eq k key then then_try later (some here) else later

unfoldable pub insert_some : Option String → List String → List String
insert_some none keys = keys
insert_some (some k) keys = insert_key k keys

unfoldable pub set_elements : List String → Items → List String
unfolding insert_some elem_to_cidr
set_elements keys no_items = keys
set_elements keys (item e elems) = set_elements (insert_some (elem_to_cidr e) keys) elems

unfoldable pub or_unnamed : Option (String × List String) → String × List String
or_unnamed none = ("", [])
or_unnamed (some parsed) = parsed

-- `parseSetJSON`; a set that cannot be read has no name
unfoldable pub parse_set_json : Json → String × List String
unfolding or_unnamed set_elements as_fields string_field items_field
parse_set_json raw = or_unnamed (
    and_then (as_fields raw) (λ fs.
      and_then (string_field "name" fs)
        (λ name. and_then (items_field "elem" fs) (λ elems. some (name, set_elements [] elems)))))

priority_of : Option ℤ → Option ℤ → ℤ
priority_of (some n) other = n
priority_of none (some n) = n
priority_of none none = pos 0

-- `parseChainJSON`
unfoldable pub parse_chain_json : Json → Option (String × LiveChain)
unfolding priority_of as_fields string_field int_pointer_field
parse_chain_json raw = and_then (as_fields raw) (λ fs. and_then (string_field "name" fs) (λ name.
    and_then (string_field "type" fs) (λ type. and_then (string_field "hook" fs) (λ hook.
      and_then (int_pointer_field "prio" fs) (λ prio.
        and_then (int_pointer_field "priority" fs) (λ priority.
          and_then (string_field "policy" fs) (λ policy.
            if str_eq name ""
            then none
            else some (
              name,
              record {
                type = type;
                hook = hook;
                priority = priority_of prio priority;
                policy = policy;
              },
            ))))))))

-- `ParseUint` of a text with 32 bits, in base 16 after "0x"
unfoldable pub parse_uint32 : String → Option ℕ
unfolding hex_value in_uint32 digits_value has_prefix
parse_uint32 s = in_uint32 (if has_prefix s "0x" then hex_value s else digits_value s)

-- `parseJSONUint32`
unfoldable pub parse_json_uint32 : Json → Option ℕ
unfolding as_uint32 as_string parse_uint32
parse_json_uint32 raw = then_try (as_uint32 raw) (and_then (as_string raw) parse_uint32)
