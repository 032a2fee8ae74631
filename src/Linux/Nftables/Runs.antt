-- ===== src/Linux/Nftables/Runs.antt =====
-- The script on an empty ruleset, chain by chain.
use mathlib.Core.Path.{fun_ext, ap₂}
use mathlib.Core.List.{append_assoc}
use go_run.Prelude.{
  ℕ, ◌≡◌, refl, ap, sym, ◌∙◌, inl, inr, String, true, false, Option, some, List, [], ◌∷◌, ◌++◌, map,
  str_eq, if◌then◌else◌, arith, Bool-cases,
}
use go_run.Netip.{Addr, Prefix}
use go_run.Policy.{NftSetSpec, NftChainSpec, NftSpec}
use go_run.Linux.Nftables.{batches}
use go_run.Linux.Nftables.Batches.{concat, batches_complete}
use go_run.Linux.Nftables.Script.{
  Line, Command, add_element, add_rule, chain_lines, set_commands, chain_commands, commands,
  elements_in, rules_in, run_lines, and_then, run_hook,
}

-- The elements of all sets of that name
unfoldable pub gather : String → List NftSetSpec → List Prefix
gather name [] = []
gather name (s ∷ sets) =
    let rest = gather name sets in if str_eq s.name name then s.elements ++ rest else rest

-- The rules of all chains of that name
unfoldable pub gather_rules : String → List NftChainSpec → List Line
gather_rules name [] = []
gather_rules name (c ∷ chains) =
    let rest = gather_rules name chains in
    if str_eq c.name name then chain_lines c.rules ++ rest else rest

elements_in-batches :
    (name set : String) (bs : List (List Prefix)) (cs : List Command)
    → elements_in name (map (add_element set) bs ++ cs)
      ≡ (if str_eq set name then concat bs ++ elements_in name cs else elements_in name cs)
unfolding elements_in concat
elements_in-batches name set bs cs = elim (Bool-cases (str_eq set name)) [
  | inl e ↦ rw e (same e bs)
  | inr e ↦ rw e (other e bs)
]
  where
    same :
        str_eq set name ≡ true
        → (bs : List (List Prefix))
        → elements_in name (map (add_element set) bs ++ cs) ≡ concat bs ++ elements_in name cs
    same e [] = refl
    same e (b ∷ bs) = rw (e, same e bs) (sym (append_assoc b (concat bs) (elements_in name cs)))

    other :
        str_eq set name ≡ false
        → (bs : List (List Prefix))
        → elements_in name (map (add_element set) bs ++ cs) ≡ elements_in name cs
    other e [] = refl
    other e (b ∷ bs) = rw (e, other e bs) refl

elements_in-rules :
    (name chain : String) (lines : List Line) (cs : List Command)
    → elements_in name (map (add_rule chain) lines ++ cs) ≡ elements_in name cs
unfolding elements_in
elements_in-rules name chain [] cs = refl
elements_in-rules name chain (l ∷ lines) cs = elements_in-rules name chain lines cs

elements_in-chains :
    (name : String) (chains : List NftChainSpec) → elements_in name (chain_commands chains) ≡ []
unfolding elements_in chain_commands
elements_in-chains name [] = refl
elements_in-chains name (c ∷ chains) =
    elements_in-rules name c.name (chain_lines c.rules) (chain_commands chains)
    ∙ elements_in-chains name chains

elements_in-sets :
    (name : String) (sets : List NftSetSpec) (cs : List Command)
    → elements_in name cs ≡ []
    → elements_in name (set_commands sets ++ cs) ≡ gather name sets
unfolding elements_in set_commands gather
elements_in-sets name [] cs h = h
elements_in-sets name (s ∷ sets) cs h =
    let (whole, sound, few) = batches_complete s.elements in
    rw
      (
        append_assoc (map (add_element s.name) (batches s.elements)) (set_commands sets) cs,
        elements_in-batches name s.name (batches s.elements) (set_commands sets ++ cs),
        whole,
        elements_in-sets name sets cs h,
      )
      refl

rules_in-elements :
    (name set : String) (bs : List (List Prefix)) (cs : List Command)
    → rules_in name (map (add_element set) bs ++ cs) ≡ rules_in name cs
unfolding rules_in
rules_in-elements name set [] cs = refl
rules_in-elements name set (b ∷ bs) cs = rules_in-elements name set bs cs

rules_in-sets :
    (name : String) (sets : List NftSetSpec) (cs : List Command)
    → rules_in name (set_commands sets ++ cs) ≡ rules_in name cs
unfolding rules_in set_commands
rules_in-sets name [] cs = refl
rules_in-sets name (s ∷ sets) cs =
    rw (append_assoc (map (add_element s.name) (batches s.elements)) (set_commands sets) cs) (
      rules_in-elements name s.name (batches s.elements) (set_commands sets ++ cs)
      ∙ rules_in-sets name sets cs)

rules_in-rules :
    (name chain : String) (lines : List Line) (cs : List Command)
    → rules_in name (map (add_rule chain) lines ++ cs)
      ≡ (if str_eq chain name then lines ++ rules_in name cs else rules_in name cs)
unfolding rules_in
rules_in-rules name chain [] cs = ground arith
rules_in-rules name chain (l ∷ lines) cs = ground (arith, rules_in-rules name chain lines cs)

rules_in-chains :
    (name : String) (chains : List NftChainSpec)
    → rules_in name (chain_commands chains) ≡ gather_rules name chains
unfolding rules_in chain_commands gather_rules
rules_in-chains name [] = refl
rules_in-chains name (c ∷ chains) =
    rw
      (
        rules_in-rules name c.name (chain_lines c.rules) (chain_commands chains),
        rules_in-chains name chains,
      )
      refl

module _ (all_commands : List Command) (hook iif : String) (dst : Addr) where
  run_hook-sets :
      (mark : ℕ) (sets : List NftSetSpec) (cs : List Command)
      → run_hook all_commands hook iif dst mark (set_commands sets ++ cs)
        ≡ run_hook all_commands hook iif dst mark cs
  unfolding run_hook set_commands
  run_hook-sets mark [] cs = refl
  run_hook-sets mark (s ∷ sets) cs =
      rw (append_assoc (map (add_element s.name) (batches s.elements)) (set_commands sets) cs)
        (skip (batches s.elements) ∙ run_hook-sets mark sets cs)
    where
      skip :
          (bs : List (List Prefix))
          → run_hook all_commands hook iif dst mark
              (map (add_element s.name) bs ++ (set_commands sets ++ cs))
            ≡ run_hook all_commands hook iif dst mark (set_commands sets ++ cs)
      skip [] = refl
      skip (b ∷ bs) = skip bs

  run_hook-rules :
      (mark : ℕ) (chain : String) (lines : List Line) (cs : List Command)
      → run_hook all_commands hook iif dst mark (map (add_rule chain) lines ++ cs)
        ≡ run_hook all_commands hook iif dst mark cs
  unfolding run_hook
  run_hook-rules mark chain [] cs = refl
  run_hook-rules mark chain (l ∷ lines) cs = run_hook-rules mark chain lines cs

-- The chains of a hook, their sets and rules looked up in the spec
unfoldable pub run_spec : NftSpec → String → String → Addr → ℕ → List NftChainSpec → Option ℕ
unfolding gather gather_rules
run_spec spec hook iif dst mark [] = some mark
run_spec spec hook iif dst mark (c ∷ chains) =
    let skip = run_spec spec hook iif dst mark chains in
    if str_eq c.hook hook
    then and_then
        (run_lines (λ s. gather s spec.sets) iif dst mark (gather_rules c.name spec.chains))
        (λ m. run_spec spec hook iif dst m chains)
    else skip

-- A packet through the chains of a hook, once the script has been run on an empty ruleset
unfoldable pub run_script : NftSpec → String → String → Addr → Option ℕ
unfolding run_hook commands
run_script spec hook iif dst = run_hook (commands spec) hook iif dst 0 (commands spec)

module _ (spec : NftSpec) (hook iif : String) (dst : Addr) where
  run_hook-run_spec :
      (mark : ℕ) (chains : List NftChainSpec)
      → run_hook (commands spec) hook iif dst mark (chain_commands chains)
        ≡ run_spec spec hook iif dst mark chains
  unfolding run_hook run_spec chain_commands commands
  run_hook-run_spec mark [] = refl
  run_hook-run_spec mark (c ∷ chains) =
      let sets_same = fun_ext (λ s.
        elements_in-sets s spec.sets (chain_commands spec.chains)
          (elements_in-chains s spec.chains)) in
      let rules_same =
        rules_in-sets c.name spec.sets (chain_commands spec.chains)
        ∙ rules_in-chains c.name spec.chains in
      let rest_same = fun_ext (λ m.
        run_hook-rules (commands spec) hook iif dst m c.name (chain_lines c.rules)
          (chain_commands chains)
        ∙ run_hook-run_spec m chains) in
      ap₂
        (λ f r.
          if str_eq c.hook hook
          then and_then (run_lines f iif dst mark r) (λ m.
            run_hook (commands spec) hook iif dst m
              (map (add_rule c.name) (chain_lines c.rules) ++ chain_commands chains))
          else run_hook (commands spec) hook iif dst mark
              (map (add_rule c.name) (chain_lines c.rules) ++ chain_commands chains))
        sets_same rules_same
      ∙ ap
          (λ g.
            if str_eq c.hook hook
            then and_then
                (run_lines (λ s. gather s spec.sets) iif dst mark (gather_rules c.name spec.chains))
                g
            else g mark)
          rest_same

  pub run_script-run_spec : run_script spec hook iif dst ≡ run_spec spec hook iif dst 0 spec.chains
  unfolding run_script commands
  run_script-run_spec =
      run_hook-sets (commands spec) hook iif dst 0 spec.sets (chain_commands spec.chains)
      ∙ run_hook-run_spec 0 spec.chains
