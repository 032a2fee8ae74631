-- ===== src/WireGuard.antt =====
-- internal/wireguard/config.go: a WireGuard interface, brought up or down over a `Runner`.
pub mod Live
pub mod Untouched
pub mod Dump
pub mod Columns
pub mod Reading
mod Tests
use go_run.WireGuard.Live.{LiveWg, parse_wg_dump, is_wanted}
use go_run.Prelude.{
  ℕ, ◌+◌, ◌≡◌, ℤ, pos, negsuc, int_eq, int_less, String, Bool, true, false, not, ◌&&◌, ◌||◌, Option,
  none, some, List, [], ◌∷◌, ◌++◌, map, str_eq, if◌then◌else◌,
}
use go_run.Strings.{◌<>◌, trim_space, split, join, contains_text, decimal, show_int}
use go_run.Strings.Keys.{insert_key, same_keys}
use go_run.Strings.Numbers.{atoi}
use go_run.Netip.{Prefix, addr, bits, is_valid}
use go_run.Netip.Text.{addr_text, prefix_text}
use go_run.Policy.{WireGuardSpec, WireGuardPeer}
use go_run.Linux.{Reply, Runner, run, succeeded, is_none, error_text}
use go_run.Linux.Nftables.Match.{keys_of}

-- `addrContainsPrefix`
unfoldable pub addr_contains_prefix : String → Prefix → Bool
unfolding contains_text prefix_text addr_text decimal bits addr
addr_contains_prefix out want =
    contains_text out (prefix_text want)
    || contains_text out (addr_text (addr want) <> "/" <> decimal (bits want))

unfoldable pub link_missing : Reply → Bool
unfolding contains_text is_none
link_missing link =
    not (succeeded link)
    || str_eq link.output ""
    || contains_text link.output "does not exist"
    || contains_text link.output "Cannot find"

unfoldable pub key_args : WireGuardSpec → List String
unfolding show_int
key_args spec =
    "set"
    ∷ spec.interface
    ∷ "private-key"
    ∷ "/dev/stdin"
    ∷ (if int_less (pos 0) spec.listen_port
        then "listen-port" ∷ show_int spec.listen_port ∷ []
        else [])

is_nil : List Prefix → Bool
is_nil [] = true
is_nil (p ∷ ps) = false

unfoldable pub peer_args : String → WireGuardPeer → List String
unfolding is_nil join prefix_text show_int
peer_args iface peer =
    ("set" ∷ iface ∷ "peer" ∷ peer.public_key ∷ [])
    ++ (if str_eq peer.endpoint "" then [] else "endpoint" ∷ peer.endpoint ∷ [])
    ++ (if is_nil peer.allowed_ips
        then []
        else "allowed-ips" ∷ join "," (map prefix_text peer.allowed_ips) ∷ [])
    ++ (if int_less (pos 0) peer.persistent_keepalive
        then "persistent-keepalive" ∷ show_int peer.persistent_keepalive ∷ []
        else [])

counted_by :
    {K : Type 0}
    → ℕ
    → Option String
    → K
    → (ℕ → K → (ℕ × Option String) × K)
    → (ℕ × Option String) × K
counted_by changes none k next = next (changes + 1) k
counted_by changes (some e) k next = ((changes, some e), k)

-- A command after which the count goes up and the rest runs, or whose error ends it
unfoldable pub counted :
    {K : Type 0} → ℕ → Reply × K → (ℕ → K → (ℕ × Option String) × K) → (ℕ × Option String) × K
unfolding counted_by
counted changes (reply, k) next = counted_by changes reply.error k next

module _ {K : Type 0} (r : Runner K) where
  -- `semanticMatch`
  unfoldable pub semantic_match : WireGuardSpec → Reply → K → Bool × K
  unfolding contains_text is_none is_valid prefix_text parse_wg_dump is_wanted addr_contains_prefix
  semantic_match spec link k =
      let dump = run r k "wg" ("show" ∷ spec.interface ∷ "dump" ∷ []) in
      let shown = run r dump.1 "ip" ("-4" ∷ "addr" ∷ "show" ∷ "dev" ∷ spec.interface ∷ []) in
      let address_shown =
        succeeded shown.0
        && (contains_text shown.0.output (prefix_text spec.address)
            || addr_contains_prefix shown.0.output spec.address) in
      if not (contains_text link.output "UP")
      then (false, k)
      else if not (succeeded dump.0)
          || str_eq dump.0.output ""
          || not (is_wanted spec (parse_wg_dump dump.0.output))
      then (false, dump.1)
      else if is_valid spec.address
      then (address_shown, shown.1)
      else (true, dump.1)

  -- The routes of the allowed addresses are removed; errors are ignored.
  unfoldable pub delete_routes : String → List Prefix → K → K
  unfolding is_valid prefix_text
  delete_routes iface [] k = k
  delete_routes iface (p ∷ ps) k =
      let deleted = run r k "ip" ("route" ∷ "del" ∷ prefix_text p ∷ "dev" ∷ iface ∷ []) in
      delete_routes iface ps (if is_valid p then deleted.1 else k)

  unfoldable pub replace_routes : String → List Prefix → ℕ → K → (ℕ × Option String) × K
  unfolding counted is_valid prefix_text
  replace_routes iface [] changes k = ((changes, none), k)
  replace_routes iface (p ∷ ps) changes k =
      let skip = replace_routes iface ps changes k in
      let replaced =
        counted changes (run r k "ip" ("route" ∷ "replace" ∷ prefix_text p ∷ "dev" ∷ iface ∷ []))
          (λ n k1. replace_routes iface ps n k1) in
      if is_valid p then replaced else skip

  abbrev pub set_link : String → String → K → Reply × K
  set_link iface state k = run r k "ip" ("link" ∷ "set" ∷ "dev" ∷ iface ∷ state ∷ [])

  unfoldable pub link_up : WireGuardSpec → ℕ → K → (ℕ × Option String) × K
  unfolding counted replace_routes
  link_up spec changes k =
      counted changes (set_link spec.interface "up" k)
        (replace_routes spec.interface spec.peer.allowed_ips)

  -- The address, the link and the routes
  unfoldable pub bring_up : WireGuardSpec → ℕ → K → (ℕ × Option String) × K
  unfolding counted link_up is_valid prefix_text
  bring_up spec changes k =
      if is_valid spec.address
      then counted changes
          (run r k "ip"
            ("address" ∷ "replace" ∷ prefix_text spec.address ∷ "dev" ∷ spec.interface ∷ []))
          (link_up spec)
      else link_up spec changes k

  unfoldable pub configure : WireGuardSpec → ℕ → K → (ℕ × Option String) × K
  unfolding counted bring_up key_args peer_args
  configure spec changes k =
      counted changes (r.run_with_input k "wg" (spec.private_key <> "\n") (key_args spec)) (λ n k1.
        if str_eq spec.peer.public_key ""
        then bring_up spec n k1
        else counted n (run r k1 "wg" (peer_args spec.interface spec.peer)) (bring_up spec))

  unfoldable pub take_down : WireGuardSpec → ℕ → K → (ℕ × Option String) × K
  unfolding counted delete_routes
  take_down spec changes k =
      counted changes
        (set_link spec.interface "down" (delete_routes spec.interface spec.peer.allowed_ips k))
        (λ n k1. ((n, none), k1))

  -- An interface that was not there before does not match.
  unfoldable pub matched : WireGuardSpec → Option Reply → K → Bool × K
  unfolding semantic_match
  matched spec none k = (false, k)
  matched spec (some link) k = semantic_match spec link k

  unfoldable pub configure_unless : WireGuardSpec → ℕ → Bool × K → (ℕ × Option String) × K
  unfolding configure
  configure_unless spec changes (true, k) = ((changes, none), k)
  configure_unless spec changes (false, k) = configure spec changes k

  -- Once the interface exists; `link` is what was shown of it, if it was there before
  unfoldable pub with_interface : WireGuardSpec → Option Reply → ℕ → K → (ℕ × Option String) × K
  unfolding take_down configure_unless matched
  with_interface spec link changes k =
      if not spec.up
      then take_down spec changes k
      else configure_unless spec changes (matched spec link k)

  -- `Reconcile`
  unfoldable pub reconcile : WireGuardSpec → K → (ℕ × Option String) × K
  unfolding with_interface link_missing counted
  reconcile spec k =
      let shown = run r k "ip" ("link" ∷ "show" ∷ "dev" ∷ spec.interface ∷ []) in
      let added =
        counted 0
          (run r shown.1 "ip" ("link" ∷ "add" ∷ "dev" ∷ spec.interface ∷ "type" ∷ "wireguard" ∷ []))
          (with_interface spec none) in
      if not spec.managed
      then ((0, none), k)
      else if link_missing shown.0
      then added
      else with_interface spec (some shown.0) 0 shown.1

  -- `SetDown`
  unfoldable pub set_down : String → K → Option String × K
  set_down iface k = let (reply, k1) = set_link iface "down" k in (reply.error, k1)

  -- `Clear`
  unfoldable pub clear : String → K → Option String × K
  unfolding contains_text error_text is_none
  clear iface k =
      let (reply, k1) = run r k "ip" ("link" ∷ "del" ∷ "dev" ∷ iface ∷ []) in
      if not (is_none reply.error) && contains_text (error_text reply.error) "Cannot find"
      then (none, k1)
      else (reply.error, k1)
