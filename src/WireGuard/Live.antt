-- ===== src/WireGuard/Live.antt =====
-- internal/wireguard/config.go: the dump of an interface, and whether it is the wanted one.
use go_run.Prelude.{
  ℤ, pos, int_eq, int_less, String, Bool, false, not, ◌&&◌, ◌||◌, Option, none, some, List, [], ◌∷◌,
  map, str_eq, if◌then◌else◌,
}
use go_run.Strings.{trim_space, split}
use go_run.Strings.Keys.{insert_key, same_keys}
use go_run.Strings.Numbers.{atoi}
use go_run.Netip.Text.{prefix_text}
use go_run.Policy.{WireGuardSpec}
use go_run.Linux.Nftables.Match.{keys_of}

pub record LiveWg : Type 0 where
  pub private_key : String
  pub listen_port : ℤ
  pub peer_public_key : String
  pub endpoint : String
  pub allowed_ips : List String
  pub keepalive : ℤ

unfoldable pub insert_ips : List String → List String → List String
unfolding trim_space
insert_ips ips [] = ips
insert_ips ips (text ∷ texts) =
    let ip = trim_space text in
    insert_ips (if str_eq ip "" || str_eq ip "(none)" then ips else insert_key ip ips) texts

-- The eighth field of a peer, after the first four
unfoldable pub keepalive_of : List String → ℤ
unfolding atoi
keepalive_of (received ∷ sent ∷ handshake ∷ keepalive ∷ rest) = atoi keepalive
keepalive_of _ = pos 0

abbrev pub no_peer : String → ℤ → LiveWg
no_peer private_key port = record {
  private_key = private_key;
  listen_port = port;
  peer_public_key = "";
  endpoint = "";
  allowed_ips = [];
  keepalive = pos 0;
}

unfoldable pub with_peer : LiveWg → List String → Option LiveWg
unfolding insert_ips keepalive_of split
with_peer live (key ∷ psk ∷ endpoint ∷ ips ∷ rest) = some (record live {
  peer_public_key = key;
  endpoint = if str_eq endpoint "(none)" then "" else endpoint;
  allowed_ips = insert_ips [] (split "," ips);
  keepalive = keepalive_of rest;
})
with_peer live _ = none

unfoldable pub with_lines : LiveWg → List String → Option LiveWg
unfolding with_peer split
with_lines live [] = some live
with_lines live (peer ∷ lines) = with_peer live (split "\t" peer)

unfoldable pub of_interface : List String → List String → Option LiveWg
unfolding with_lines atoi
of_interface (private_key ∷ public_key ∷ port ∷ rest) lines =
    with_lines (no_peer private_key (atoi port)) lines
of_interface _ lines = none

unfoldable pub of_lines : List String → Option LiveWg
unfolding of_interface split
of_lines [] = none
of_lines (interface ∷ lines) = of_interface (split "\t" interface) lines

-- `parseWGDump`
unfoldable pub parse_wg_dump : String → Option LiveWg
unfolding of_lines trim_space split
parse_wg_dump out = of_lines (split "\n" (trim_space out))

-- The part of `semanticMatch` that reads the dump
unfoldable pub is_wanted : WireGuardSpec → Option LiveWg → Bool
unfolding keys_of prefix_text
is_wanted spec none = false
is_wanted spec (some live) =
    str_eq live.private_key spec.private_key
    && (not (int_less (pos 0) spec.listen_port) || int_eq live.listen_port spec.listen_port)
    && str_eq live.peer_public_key spec.peer.public_key
    && str_eq live.endpoint spec.peer.endpoint
    && int_eq live.keepalive spec.peer.persistent_keepalive
    && same_keys live.allowed_ips (keys_of (map prefix_text spec.peer.allowed_ips))
