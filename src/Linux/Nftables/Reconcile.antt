-- ===== src/Linux/Nftables/Reconcile.antt =====
-- internal/linux/nftables/nftables.go: the operations on the host.
use Prim.Native.Char.{Char}
use Prim.Native.String
use text.Mathlib.Text.{is_lt}
use go_run.Prelude.{
  ℕ, suc, ◌+◌, String, Bool, true, false, not, ◌&&◌, ◌||◌, Option, none, some, List, [], ◌∷◌,
  length, str_eq, if◌then◌else◌, sort_by,
}
use go_run.Strings.{◌<>◌, contains_text}
use go_run.Policy.{NftSpec}
use go_run.Json.{Json, Items, no_items, item, as_fields, lookup, items_field}
use go_run.Linux.{Reply, Runner, run, succeeded, is_none, error_text}
use go_run.Linux.Nftables.{render_full_table, write_batched_elements}
use go_run.Linux.Nftables.Live.{and_then, parse_set_json}
use go_run.Linux.Nftables.Match.{semantic_match_json}

-- `tableExists` after the table has been listed
unfoldable pub table_exists : Reply → Bool
unfolding contains_text is_none
table_exists listed =
    succeeded listed && not (str_eq listed.output "") && not (contains_text listed.output "Error")

unfoldable pub table_script : Bool → NftSpec → String
unfolding render_full_table
table_script exists spec =
    (if exists then "delete table " <> spec.family <> " " <> spec.table <> "\n" else "")
    <> render_full_table spec

abbrev pub as_applied : {K : Type 0} → Option String → K → (ℕ × Option String) × K
as_applied none k = ((1, none), k)
as_applied (some e) k = ((0, some ("nft apply table: " <> e)), k)

unfoldable pub wanted : (String → Option Json) → Reply → NftSpec → Bool
unfolding table_exists semantic_match_json
wanted parse_json listed spec =
    table_exists listed && semantic_match_json parse_json listed.output spec

module _ {K : Type 0} (r : Runner K) where
  abbrev pub list_table : String → String → K → Reply × K
  list_table family table k = run r k "nft" ("-j" ∷ "list" ∷ "table" ∷ family ∷ table ∷ [])

  abbrev pub apply_script : String → K → Reply × K
  apply_script script k = r.run_with_input k "nft" script ("-f" ∷ "-" ∷ [])

  -- `Reconcile`
  unfoldable pub reconcile : (String → Option Json) → NftSpec → K → (ℕ × Option String) × K
  unfolding wanted table_script
  reconcile parse_json spec k =
      let listed = list_table spec.family spec.table k in
      if wanted parse_json listed.0 spec
      then ((0, none), listed.1)
      else let sent = apply_script (table_script (table_exists listed.0) spec) listed.1 in
        as_applied sent.0.error sent.1

  -- `SwapSetElements`
  unfoldable pub swap_set_elements :
      String → String → String → List String → K → (ℕ × Option String) × K
  unfolding write_batched_elements
  swap_set_elements family table live_name elements k =
      let sorted = sort_by (λ s t. is_lt (String.compare s t)) elements in
      let script =
        "flush set "
        <> family
        <> " "
        <> table
        <> " "
        <> live_name
        <> "\n"
        <> write_batched_elements family table live_name sorted in
      let (reply, k') = apply_script script k in
      elim reply.error [ none ↦ ((1, none), k') | some e ↦ ((0, some e), k') ]

  -- `Clear`
  unfoldable pub clear : String → String → K → Option String × K
  unfolding contains_text error_text
  clear family table k =
      let (reply, k') = run r k "nft" ("delete" ∷ "table" ∷ family ∷ table ∷ []) in
      let text = error_text reply.error in
      if not (is_none reply.error)
        && (contains_text text "No such file" || contains_text text "does not exist")
      then (none, k')
      else (reply.error, k')

-- The number of characters `c` in a text
count_char : Char → String → ℕ
count_char c String.[] = 0
count_char c (String.◌∷◌ d s) =
    let rest = count_char c s in
    if str_eq (String.◌∷◌ d "") (String.◌∷◌ c "") then suc rest else rest

count_elements : Items → ℕ
unfolding as_fields lookup parse_set_json
count_elements no_items = 0
count_elements (item raw objects) =
    set_size (and_then (as_fields raw) (lookup "set")) + count_elements objects
  where
    set_size : Option Json → ℕ
    set_size none = 0
    set_size (some set) = length ((parse_set_json set).1)

-- `countElementsJSON`, and whether it fails
unfoldable pub count_elements_json : (String → Option Json) → String → ℕ × Bool
unfolding count_char count_elements as_fields items_field
count_elements_json parse_json out =
    elim (and_then (and_then (parse_json out) as_fields) (items_field "nftables")) [
      | none ↦ (count_char "/" out, true)
      | some objects ↦ (count_elements objects, false)
    ]

-- `CountSetElements`, and whether it fails
unfoldable pub count_set_elements :
    {K : Type 0} → Runner K → (String → Option Json) → String → String → String → K → (ℕ × Bool) × K
unfolding count_elements_json is_none
count_set_elements r parse_json family table set_name k =
    let (reply, k') = run r k "nft" ("-j" ∷ "list" ∷ "set" ∷ family ∷ table ∷ set_name ∷ []) in
    if succeeded reply then (count_elements_json parse_json reply.output, k') else ((0, true), k')
