-- ===== src/Linux/Nftables/Text.antt =====
-- The text of `RenderFullTable` is that of its statements.
use text.Mathlib.TextLemmas.{nil-append, append_assoc}
use mathlib.Core.List.{map-append, map-map}
use mathlib.Core.Path.{ap₂}
use go_run.Prelude.{
  ℕ, zero, suc, ◌≡◌, refl, ap, sym, ◌∙◌, inl, inr, String, List, [], ◌∷◌, ◌++◌, map, str_eq, length,
  Bool-cases,
}
use go_run.Strings.{◌<>◌}
use go_run.Netip.{Addr, Prefix}
use go_run.Netip.Text.{prefix_text}
use go_run.Policy.{NftSetSpec, NftRuleSpec, NftChainSpec, NftSpec}
use go_run.Linux.Nftables.{
  concat_text, take, drop, batches_from, batches, set_line, element_line, chain_line, rule_line,
  prefixes_to_strings, write_batched_elements, render_set, rule_lines, render_rule_lines,
  render_chain, render_full_table,
}
use go_run.Linux.Nftables.Script.{
  Line, return_lan, return_endpoint, mark_unless, Command, add_element, add_rule, show_line,
  show_command, lines_of, chain_lines, set_commands, chain_commands, commands,
}

concat_text-append :
    (ss ts : List String) → concat_text (ss ++ ts) ≡ concat_text ss <> concat_text ts
unfolding concat_text
concat_text-append [] ts = sym (nil-append (concat_text ts))
concat_text-append (s ∷ ss) ts =
    ap (λ t. s <> t) (concat_text-append ss ts)
    ∙ sym (append_assoc s (concat_text ss) (concat_text ts))

module _ {ℓ κ} {A : Type ℓ} {B : Type κ} (f : A → B) where
  map-take : (n : ℕ) (xs : List A) → take n (map f xs) ≡ map f (take n xs)
  unfolding take
  map-take zero xs = refl
  map-take (suc n) [] = refl
  map-take (suc n) (x ∷ xs) = ap (λ t. f x ∷ t) (map-take n xs)

  map-drop : (n : ℕ) (xs : List A) → drop n (map f xs) ≡ map f (drop n xs)
  unfolding drop
  map-drop zero xs = refl
  map-drop (suc n) [] = refl
  map-drop (suc n) (x ∷ xs) = map-drop n xs

  length-map : (xs : List A) → length (map f xs) ≡ length xs
  length-map [] = refl
  length-map (x ∷ xs) = ap suc (length-map xs)

  batches_from-map :
      (fuel size : ℕ) (xs : List A)
      → batches_from fuel size (map f xs) ≡ map (map f) (batches_from fuel size xs)
  unfolding batches_from
  batches_from-map fuel size [] = refl
  batches_from-map zero size (x ∷ xs) = refl
  batches_from-map (suc fuel) size (x ∷ xs) =
      rw
        (
          map-take size (x ∷ xs),
          map-drop size (x ∷ xs),
          batches_from-map fuel size (drop size (x ∷ xs)),
        )
        refl

  batches-map : (xs : List A) → batches (map f xs) ≡ map (map f) (batches xs)
  unfolding batches
  batches-map xs = rw (length-map xs) (batches_from-map (length xs) 4000 xs)

mark_lines-text :
    (ps : List Prefix) (addrs : List Addr) (line : Line)
    → map show_line (map return_lan ps ++ map return_endpoint addrs ++ line ∷ [])
      ≡ map (λ p. show_line (return_lan p)) ps
        ++ map (λ a. show_line (return_endpoint a)) addrs
        ++ show_line line ∷ []
mark_lines-text [] [] line = refl
mark_lines-text [] (a ∷ addrs) line =
    ap (λ t. show_line (return_endpoint a) ∷ t) (mark_lines-text [] addrs line)
mark_lines-text (p ∷ ps) addrs line =
    ap (λ t. show_line (return_lan p) ∷ t) (mark_lines-text ps addrs line)

rule_lines-lines_of : (rule : NftRuleSpec) → rule_lines rule ≡ map show_line (lines_of rule)
unfolding rule_lines lines_of show_line
rule_lines-lines_of rule = elim (Bool-cases rule.drop_ipv6) [
  | inl d ↦ rw d refl
  | inr d ↦ elim (Bool-cases (str_eq rule.description "mark-non-direct")) [
    | inl m ↦
        rw (d, m)
          (sym (
            mark_lines-text rule.exclude_prefixes rule.exclude_addrs
              (mark_unless rule.direct_set rule.mark)))
    | inr m ↦ elim (Bool-cases (str_eq rule.description "isolate-inbound-from-home")) [
      | inl i ↦ rw (d, m, i) refl
      | inr i ↦ rw (d, m, i) refl
    ]
  ]
]

render_rule_lines-chain_lines :
    (rules : List NftRuleSpec) → render_rule_lines rules ≡ map show_line (chain_lines rules)
unfolding render_rule_lines chain_lines
render_rule_lines-chain_lines [] = refl
render_rule_lines-chain_lines (rule ∷ rules) =
    rw
      (
        rule_lines-lines_of rule,
        render_rule_lines-chain_lines rules,
        map-append show_line (lines_of rule) (chain_lines rules),
      )
      refl

module _ (family table : String) where
  abbrev written : List Command → String
  written cs = concat_text (map (show_command family table) cs)

  written-append : (cs ds : List Command) → written (cs ++ ds) ≡ written cs <> written ds
  written-append cs ds =
      ap concat_text (map-append (show_command family table) cs ds)
      ∙ concat_text-append (map (show_command family table) cs) (map (show_command family table) ds)

  write_batched_elements-written :
      (set : NftSetSpec)
      → write_batched_elements family table set.name (prefixes_to_strings set)
        ≡ written (map (add_element set.name) (batches set.elements))
  unfolding write_batched_elements prefixes_to_strings show_command element_line
  write_batched_elements-written set =
      rw
        (
          batches-map prefix_text set.elements,
          map-map (element_line family table set.name) (map prefix_text) (batches set.elements),
          map-map (show_command family table) (add_element set.name) (batches set.elements),
        )
        refl

  render_sets-written :
      (sets : List NftSetSpec)
      → concat_text (map (render_set family table) sets) ≡ written (set_commands sets)
  unfolding render_set set_commands show_command concat_text set_line
  render_sets-written [] = refl
  render_sets-written (s ∷ sets) =
      append_assoc (set_line family table s.name s.type)
        (write_batched_elements family table s.name (prefixes_to_strings s))
        (concat_text (map (render_set family table) sets))
      ∙ ap (λ t. set_line family table s.name s.type <> t)
          (ap₂ (λ t u. t <> u) (write_batched_elements-written s) (render_sets-written sets)
            ∙ sym (
                written-append (map (add_element s.name) (batches s.elements)) (set_commands sets)))

  rules-written :
      (chain : String) (rules : List NftRuleSpec)
      → concat_text (map (rule_line family table chain) (render_rule_lines rules))
        ≡ written (map (add_rule chain) (chain_lines rules))
  unfolding show_command rule_line
  rules-written chain rules =
      rw
        (
          render_rule_lines-chain_lines rules,
          map-map (rule_line family table chain) show_line (chain_lines rules),
          map-map (show_command family table) (add_rule chain) (chain_lines rules),
        )
        refl

  render_chains-written :
      (chains : List NftChainSpec)
      → concat_text (map (render_chain family table) chains) ≡ written (chain_commands chains)
  unfolding render_chain chain_commands show_command concat_text chain_line
  render_chains-written [] = refl
  render_chains-written (c ∷ chains) =
      append_assoc (chain_line family table c)
        (concat_text (map (rule_line family table c.name) (render_rule_lines c.rules)))
        (concat_text (map (render_chain family table) chains))
      ∙ ap (λ t. chain_line family table c <> t)
          (ap₂ (λ t u. t <> u) (rules-written c.name c.rules) (render_chains-written chains)
            ∙ sym (
                written-append (map (add_rule c.name) (chain_lines c.rules))
                  (chain_commands chains)))

-- The script is the statement that adds the table, and then the texts of the statements for its
-- sets and chains, in their order.
pub render_full_table-commands :
    (spec : NftSpec)
    → render_full_table spec
      ≡ "add table "
        <> spec.family
        <> " "
        <> spec.table
        <> "\n"
        <> concat_text (map (show_command spec.family spec.table) (commands spec))
unfolding render_full_table commands
render_full_table-commands spec =
    ap (λ t. "add table " <> spec.family <> " " <> spec.table <> "\n" <> t)
      (ap₂ (λ t u. t <> u) (render_sets-written spec.family spec.table spec.sets)
          (render_chains-written spec.family spec.table spec.chains)
        ∙ sym (
            written-append spec.family spec.table (set_commands spec.sets)
              (chain_commands spec.chains)))
