-- ===== src/Linux/Nftables/Compiled.antt =====
-- The script for a compiled policy does to packets what the policy promises.
use mathlib.Core.List.{append-nil}
use go_run.Prelude.{
  ℕ, ◌≡◌, refl, ap, sym, ◌∙◌, inl, inr, String, true, true≢false, ◌||◌, Option, none, some, List,
  [], ◌∷◌, ◌++◌, map, if◌then◌else◌, any, arith, Bool-cases,
}
use go_run.Prelude.Result.{ok}
use go_run.Netip.{Addr, v4, v6, unset, is_set, Prefix, addr_eq, is4, is6}
use go_run.Policy.Gateway.{compile-eq}
use go_run.Policy.Compile.{compile, desired_state, inbound_managed, mark_rule, policy_mark}
use go_run.Policy.{ru_nets_set_name, home_nets_set_name, Policy, DesiredKernelState, NftSpec}
use go_run.Policy.Datapath.{in_prefixes, run_chains, drops}
use go_run.Linux.Nftables.Script.{
  Line, drop_any_ipv6, mark_unless, lines_of, return_lan, return_endpoint, chain_lines, run_lines,
  and_then,
}
use go_run.Strings.{◌<>◌}
use go_run.Linux.Nftables.{render_full_table, concat_text}
use go_run.Linux.Nftables.Script.{show_command, commands, takes_table}
use mathlib.Core.Path.{subst}
use go_run.Linux.Nftables.Text.{render_full_table-commands}
use go_run.Linux.Nftables.Runs.{gather, gather_rules, run_spec, run_script, run_script-run_spec}

run_lines-mark :
    (sets : String → List Prefix) (iif : String) (dst : Addr) (mark : ℕ) (ps : List Prefix)
    (addrs : List Addr) (rest : List Line)
    → run_lines sets iif dst mark (map return_lan ps ++ map return_endpoint addrs ++ rest) ≡ (
        if in_prefixes dst ps || any (λ a. addr_eq a dst) addrs
        then some mark
        else run_lines sets iif dst mark rest)
unfolding run_lines
run_lines-mark sets iif dst mark [] [] rest = refl
run_lines-mark sets iif dst mark [] (a ∷ addrs) rest =
    ground (arith, run_lines-mark sets iif dst mark [] addrs rest)
run_lines-mark sets iif dst mark (p ∷ ps) addrs rest =
    ground (arith, run_lines-mark sets iif dst mark ps addrs rest)

module _ (p : Policy) where
  abbrev nft : NftSpec
  nft = (desired_state p).nft

  abbrev marking : List Line
  marking =
      map return_lan p.lans
      ++ map return_endpoint (mark_rule p).exclude_addrs
      ++ mark_unless ru_nets_set_name (policy_mark p) ∷ []

  prerouting_rules : gather_rules "prerouting" nft.chains ≡ drop_any_ipv6 ∷ marking
  unfolding gather_rules desired_state chain_lines lines_of mark_rule
  prerouting_rules = elim (Bool-cases (inbound_managed p)) [
    | inl e ↦ rw e (ap (λ t. drop_any_ipv6 ∷ t) (append-nil (marking ++ []) ∙ append-nil marking))
    | inr e ↦ rw e (ap (λ t. drop_any_ipv6 ∷ t) (append-nil (marking ++ []) ∙ append-nil marking))
  ]

  direct_elements : gather ru_nets_set_name nft.sets ≡ p.direct_prefixes
  unfolding gather desired_state
  direct_elements = elim (Bool-cases (inbound_managed p)) [
    | inl e ↦ rw e (append-nil p.direct_prefixes)
    | inr e ↦ rw e (append-nil p.direct_prefixes)
  ]

  home_elements : inbound_managed p ≡ true → gather home_nets_set_name nft.sets ≡ p.lans
  unfolding gather desired_state
  home_elements e = rw e (append-nil p.lans)

  one_chain :
      (iif : String) (dst : Addr)
      → run_spec nft "prerouting" iif dst 0 nft.chains
        ≡ and_then
            (run_lines (λ s. gather s nft.sets) iif dst 0 (gather_rules "prerouting" nft.chains))
            some
  unfolding run_spec desired_state
  one_chain iif dst = elim (Bool-cases (inbound_managed p)) [
    | inl e ↦ rw e refl
    | inr e ↦ rw e refl
  ]

  marking_agrees :
      (iif : String) (dst : Addr)
      → is_set dst ≡ true
      → and_then (run_lines (λ s. gather s nft.sets) iif dst 0 (drop_any_ipv6 ∷ marking)) some
        ≡ run_chains nft.sets nft.chains 0 dst
  unfolding run_lines run_chains desired_state is6 is4 is_set mark_rule policy_mark
  marking_agrees iif unset k = absurd (true≢false (sym k))
  marking_agrees iif (v6 x) k = refl
  marking_agrees iif (v4 x) k =
      rw
        (
          run_lines-mark (λ s. gather s nft.sets) iif (v4 x) 0 p.lans (mark_rule p).exclude_addrs
              (mark_unless ru_nets_set_name (policy_mark p) ∷ []),
          direct_elements,
        )
        (ground arith)

  prerouting :
      (iif : String) (dst : Addr)
      → is_set dst ≡ true
      → run_script nft "prerouting" iif dst ≡ run_chains nft.sets nft.chains 0 dst
  prerouting iif dst k =
      run_script-run_spec nft "prerouting" iif dst
      ∙ one_chain iif dst
      ∙ ap (λ r. and_then (run_lines (λ s. gather s nft.sets) iif dst 0 r) some) prerouting_rules
      ∙ marking_agrees iif dst k

  forward_spec :
      (iif : String) (dst : Addr)
      → run_spec nft "forward" iif dst 0 nft.chains
        ≡ (if drops (desired_state p) iif dst then none else some 0)
  unfolding run_spec desired_state gather_rules chain_lines lines_of run_lines drops
  forward_spec iif dst = elim (Bool-cases (inbound_managed p)) [
    | inr e ↦ rw e refl
    | inl e ↦ rw e (ground (arith, append-nil p.lans))
  ]

  forward :
      (iif : String) (dst : Addr)
      → run_script nft "forward" iif dst
        ≡ (if drops (desired_state p) iif dst then none else some 0)
  forward iif dst = run_script-run_spec nft "forward" iif dst ∙ forward_spec iif dst

-- A packet through the chains of a hook after the script was run on an empty ruleset; `none` where
-- `nft` refuses the script.
unfoldable pub run_table : NftSpec → String → String → Addr → Option (Option ℕ)
unfolding run_script takes_table
run_table spec hook iif dst = if takes_table spec then some (run_script spec hook iif dst) else none

-- For a policy that compiles, the script is the statement that adds the table and the texts of the
-- statements for its sets and chains. If `nft` takes it (the elements of each set are IPv4 prefixes
-- of which no two overlap, and the rules name IPv4 addresses only), then on an empty ruleset the
-- statements mark and drop packets just as the state says: coming in, and on their way through the
-- gateway.
pub run_table-compile :
    (p : Policy) (st : DesiredKernelState) (iif : String) (dst : Addr)
    → compile p ≡ ok st
    → is_set dst ≡ true
    → takes_table st.nft ≡ true
    → (render_full_table st.nft
        ≡ "add table "
          <> st.nft.family
          <> " "
          <> st.nft.table
          <> "\n"
          <> concat_text (map (show_command st.nft.family st.nft.table) (commands st.nft)))
      × (run_table st.nft "prerouting" iif dst ≡ some (run_chains st.nft.sets st.nft.chains 0 dst))
      × (run_table st.nft "forward" iif dst ≡ some (if drops st iif dst then none else some 0))
unfolding run_table
run_table-compile p st iif dst h k taken = (
  render_full_table-commands st.nft,
  rw (run_table, taken)
      (ap some (
        of_state
          (λ st.
            run_script st.nft "prerouting" iif dst ≡ run_chains st.nft.sets st.nft.chains 0 dst)
          (prerouting p iif dst k))),
  rw (run_table, taken)
      (ap some (
        of_state
          (λ st. run_script st.nft "forward" iif dst ≡ (if drops st iif dst then none else some 0))
          (forward p iif dst))),
)
  where
    of_state : (P : DesiredKernelState → Type 0) → P (desired_state p) → P st
    of_state P = subst P (sym (compile-eq p h))
