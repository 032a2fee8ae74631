-- ===== src/WireGuard/Untouched.antt =====
-- A run that counts no change makes none.
use go_run.Prelude.{
  ℕ, ◌+◌, ◌≤◌, ◌<◌, ◌≡◌, refl, ap, ◌∙◌, inl, inr, String, Bool, true, false, not, ◌&&◌, ◌||◌,
  Option, none, some, List, [], ◌∷◌, str_eq, if◌then◌else◌, Bool-cases, arith,
}
use go_run.Strings.{◌<>◌, contains_text}
use go_run.Netip.{Prefix, is_valid}
use go_run.Netip.Text.{prefix_text}
use go_run.Policy.{WireGuardSpec}
use go_run.WireGuard.{addr_contains_prefix}
use go_run.WireGuard.Live.{is_wanted, parse_wg_dump}
use go_run.Linux.{Reply, Runner, run, succeeded}
use go_run.WireGuard.{
  counted_by, counted, semantic_match, delete_routes, replace_routes, set_link, link_up, bring_up,
  configure, take_down, matched, configure_unless, with_interface, link_missing, peer_args,
  key_args, reconcile,
}

module _ {K : Type 0} where
  -- The count of changes has not gone down from `n`.
  abbrev AtLeast : ℕ → (ℕ × Option String) × K → Type 0
  AtLeast n out = n ≤ out.0.0

  -- Without an error the count has gone up from `n`.
  abbrev Counts : ℕ → (ℕ × Option String) × K → Type 0
  Counts n out = out.0.1 ≡ none → n < out.0.0

  module _ (n : ℕ) (next : ℕ → K → (ℕ × Option String) × K)
      (grows : (m : ℕ) (k : K) → AtLeast m (next m k)) where
    counted-AtLeast : (sent : Reply × K) → AtLeast n (counted n sent next)
    unfolding counted
    counted-AtLeast (reply, k) = by_error reply.error
      where
        by_error : (o : Option String) → AtLeast n (counted_by n o k next)
        by_error none = omega (arith, grows (n + 1) k)
        by_error (some e) = omega arith

    counted-Counts : (sent : Reply × K) → Counts n (counted n sent next)
    unfolding counted
    counted-Counts (reply, k) = by_error reply.error
      where
        by_error : (o : Option String) → Counts n (counted_by n o k next)
        by_error none = λ e. omega (arith, grows (n + 1) k)
        by_error (some e) = λ same. ground (arith, same)

module _ {K : Type 0} (r : Runner K) where
  replace_routes-AtLeast :
      (iface : String) (ps : List Prefix) (n : ℕ) (k : K)
      → AtLeast n (replace_routes r iface ps n k)
  unfolding replace_routes
  replace_routes-AtLeast iface [] n k = omega arith
  replace_routes-AtLeast iface (p ∷ ps) n k = elim (Bool-cases (is_valid p)) [
    | inl e ↦ rw e (
        counted-AtLeast n (λ m k1. replace_routes r iface ps m k1)
          (λ m k1. replace_routes-AtLeast iface ps m k1)
          (run r k "ip" ("route" ∷ "replace" ∷ prefix_text p ∷ "dev" ∷ iface ∷ [])))
    | inr e ↦ rw e (replace_routes-AtLeast iface ps n k)
  ]

  module _ (spec : WireGuardSpec) where
    link_up-AtLeast : (n : ℕ) (k : K) → AtLeast n (link_up r spec n k)
    unfolding link_up
    link_up-AtLeast n k =
        counted-AtLeast n (replace_routes r spec.interface spec.peer.allowed_ips)
          (replace_routes-AtLeast spec.interface spec.peer.allowed_ips)
          (set_link r spec.interface "up" k)

    bring_up-AtLeast : (n : ℕ) (k : K) → AtLeast n (bring_up r spec n k)
    unfolding bring_up
    bring_up-AtLeast n k = elim (Bool-cases (is_valid spec.address)) [
      | inl e ↦ rw e (
          counted-AtLeast n (link_up r spec) link_up-AtLeast (
            run r k "ip"
              ("address" ∷ "replace" ∷ prefix_text spec.address ∷ "dev" ∷ spec.interface ∷ [])))
      | inr e ↦ rw e (link_up-AtLeast n k)
    ]

    abbrev with_key : ℕ → K → (ℕ × Option String) × K
    with_key m k1 =
        if str_eq spec.peer.public_key ""
        then bring_up r spec m k1
        else counted m (run r k1 "wg" (peer_args spec.interface spec.peer)) (bring_up r spec)

    with_key-AtLeast : (n : ℕ) (k : K) → AtLeast n (with_key n k)
    with_key-AtLeast n k = elim (Bool-cases (str_eq spec.peer.public_key "")) [
      | inl e ↦ rw e (bring_up-AtLeast n k)
      | inr e ↦ rw e (
          counted-AtLeast n (bring_up r spec) bring_up-AtLeast
            (run r k "wg" (peer_args spec.interface spec.peer)))
    ]

    configure-Counts : (n : ℕ) (k : K) → Counts n (configure r spec n k)
    unfolding configure
    configure-Counts n k =
        counted-Counts n with_key with_key-AtLeast
          (r.run_with_input k "wg" (spec.private_key <> "\n") (key_args spec))

    configure-AtLeast : (n : ℕ) (k : K) → AtLeast n (configure r spec n k)
    unfolding configure
    configure-AtLeast n k =
        counted-AtLeast n with_key with_key-AtLeast
          (r.run_with_input k "wg" (spec.private_key <> "\n") (key_args spec))

    take_down-Counts : (n : ℕ) (k : K) → Counts n (take_down r spec n k)
    unfolding take_down
    take_down-Counts n k =
        counted-Counts n (λ m k1. ((m, none), k1)) (λ m k1. omega arith)
          (set_link r spec.interface "down"
            (delete_routes r spec.interface spec.peer.allowed_ips k))

    take_down-AtLeast : (n : ℕ) (k : K) → AtLeast n (take_down r spec n k)
    unfolding take_down
    take_down-AtLeast n k =
        counted-AtLeast n (λ m k1. ((m, none), k1)) (λ m k1. omega arith)
          (set_link r spec.interface "down"
            (delete_routes r spec.interface spec.peer.allowed_ips k))

    with_interface-AtLeast :
        (link : Option Reply) (n : ℕ) (k : K) → AtLeast n (with_interface r spec link n k)
    unfolding with_interface configure_unless
    with_interface-AtLeast link n k = elim (Bool-cases spec.up) [
      | inr e ↦ rw e (take_down-AtLeast n k)
      | inl e ↦ rw e (unless (matched r spec link k))
    ]
      where
        unless : (m : Bool × K) → AtLeast n (configure_unless r spec n m)
        unless (true, k1) = omega arith
        unless (false, k1) = configure-AtLeast n k1

-- A host on which showing an interface changes nothing
pub record WgReads {K : Type 0} (r : Runner K) : Type 0 where
  pub link_keeps :
      (iface : String) (k : K) → (run r k "ip" ("link" ∷ "show" ∷ "dev" ∷ iface ∷ [])).1 ≡ k
  pub dump_keeps : (iface : String) (k : K) → (run r k "wg" ("show" ∷ iface ∷ "dump" ∷ [])).1 ≡ k
  pub address_keeps :
      (iface : String) (k : K) → (run r k "ip" ("-4" ∷ "addr" ∷ "show" ∷ "dev" ∷ iface ∷ [])).1 ≡ k

module _ {K : Type 0} (r : Runner K) (reads : WgReads r) (spec : WireGuardSpec) where
  semantic_match_keeps : (link : Reply) (k : K) → (semantic_match r spec link k).1 ≡ k
  unfolding semantic_match
  semantic_match_keeps link k =
      by_tests (not (contains_text link.output "UP"))
        (not (succeeded dump.0)
          || str_eq dump.0.output ""
          || not (is_wanted spec (parse_wg_dump dump.0.output)))
        (is_valid spec.address)
        (succeeded shown.0
          && (contains_text shown.0.output (prefix_text spec.address)
              || addr_contains_prefix shown.0.output spec.address))
    where
      Keeps : Bool × K → Type 0
      Keeps out = out.1 ≡ k

      dump : Reply × K
      dump = run r k "wg" ("show" ∷ spec.interface ∷ "dump" ∷ [])

      shown : Reply × K
      shown = run r dump.1 "ip" ("-4" ∷ "addr" ∷ "show" ∷ "dev" ∷ spec.interface ∷ [])

      by_tests :
          (up unusable valid b : Bool)
          → Keeps (
              if up
              then (false, k)
              else if unusable
              then (false, dump.1)
              else if valid
              then (b, shown.1)
              else (true, dump.1))
      by_tests true unusable valid b = refl
      by_tests false true valid b = reads.dump_keeps spec.interface k
      by_tests false false true b =
          reads.address_keeps spec.interface dump.1 ∙ reads.dump_keeps spec.interface k
      by_tests false false false b = reads.dump_keeps spec.interface k

  -- No change without a count
  abbrev IsHonest : K → (ℕ × Option String) × K → Type 0
  IsHonest k out = out.0 ≡ (0, none) → out.1 ≡ k

  IsHonest-Counts : (k : K) (out : (ℕ × Option String) × K) → Counts 0 out → IsHonest k out
  IsHonest-Counts k out counts same =
      let none_changed : out.0.0 ≡ 0 = ap (λ p. p.0) same in
      let fine : 0 < out.0.0 = counts (ap (λ p. p.1) same) in absurd (omega arith)

  with_interface-IsHonest :
      (link : Option Reply) (k : K) → IsHonest k (with_interface r spec link 0 k)
  unfolding with_interface configure_unless matched
  with_interface-IsHonest link k = elim (Bool-cases spec.up) [
    | inr e ↦ rw e (IsHonest-Counts k _ (take_down-Counts r spec 0 k))
    | inl e ↦ rw e (unless (matched r spec link k) (keeps link))
  ]
    where
      keeps : (link : Option Reply) → (matched r spec link k).1 ≡ k
      keeps none = refl
      keeps (some shown) = semantic_match_keeps shown k

      unless : (m : Bool × K) → m.1 ≡ k → IsHonest k (configure_unless r spec 0 m)
      unless (true, k1) e = λ same. e
      unless (false, k1) e = IsHonest-Counts k _ (configure-Counts r spec 0 k1)

  -- On a host on which showing an interface changes nothing: a reconciliation that counts no change
  -- and has no error leaves the host as it is.
  pub reconcile_untouched :
      (k : K) → (reconcile r spec k).0 ≡ (0, none) → (reconcile r spec k).1 ≡ k
  unfolding reconcile
  reconcile_untouched k = by_tests spec.managed (link_missing shown.0)
    where
      shown : Reply × K
      shown = run r k "ip" ("link" ∷ "show" ∷ "dev" ∷ spec.interface ∷ [])

      sent : Reply × K
      sent =
          run r shown.1 "ip" ("link" ∷ "add" ∷ "dev" ∷ spec.interface ∷ "type" ∷ "wireguard" ∷ [])

      by_tests :
          (managed missing : Bool)
          → IsHonest k (
              if not managed
              then ((0, none), k)
              else if missing
              then counted 0 sent (with_interface r spec none)
              else with_interface r spec (some shown.0) 0 shown.1)
      by_tests false missing = λ same. refl
      by_tests true true =
          IsHonest-Counts k _ (
            counted-Counts 0 (with_interface r spec none) (with_interface-AtLeast r spec none) sent)
      by_tests true false = λ same.
          with_interface-IsHonest (some shown.0) shown.1 same ∙ reads.link_keeps spec.interface k
