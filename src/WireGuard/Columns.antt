-- ===== src/WireGuard/Columns.antt =====
-- What the columns of a dump hold, as the manual of wg(8) has them.
use mathlib.Core.Option.{some_inj}
use go_run.Prelude.{
  pos, ◌≡◌, refl, sym, ap, ◌∙◌, String, Bool, false, not, ◌&&◌, ◌||◌, none, some, List, [], ◌∷◌,
  str_eq, any, get_elem?, Bool-cases, inl, inr, arith, if◌then◌else◌,
}
use go_run.Strings.{split, trim_space}
use go_run.Strings.Keys.{has_key, insert_key, has_key-insert_key}
use go_run.Strings.Numbers.{atoi}
use go_run.WireGuard.Live.{LiveWg, insert_ips, keepalive_of, with_peer}

-- One of the allowed addresses of a peer; none are shown as `(none)`.
abbrev pub is_allowed : String → String → Bool
is_allowed k text =
    let ip = trim_space text in not (str_eq ip "" || str_eq ip "(none)") && str_eq k ip

-- The first line of a dump has the private key in its first and the port in its third column.
pub record OwnColumns (fields : List String) (live : LiveWg) : Type 0 where
  pub private_key : get_elem? fields 0 ≡ some live.private_key
  pub port : String
  pub port_column : get_elem? fields 2 ≡ some port
  pub listen_port : live.listen_port ≡ atoi port

-- A line of a peer has its public key, its endpoint, its allowed addresses and the keepalive in the
-- first, third, fourth and eighth column. The last one may be missing.
pub record PeerColumns (fields : List String) (live : LiveWg) : Type 0 where
  pub public_key : get_elem? fields 0 ≡ some live.peer_public_key
  pub shown : String
  pub endpoint_column : get_elem? fields 2 ≡ some shown
  pub endpoint : live.endpoint ≡ (if str_eq shown "(none)" then "" else shown)
  pub ips : String
  pub ips_column : get_elem? fields 3 ≡ some ips
  pub allowed_ips : (k : String) → has_key k live.allowed_ips ≡ any (is_allowed k) (split "," ips)
  pub keepalive : live.keepalive ≡ elim (get_elem? fields 7) [ none ↦ pos 0 | some s ↦ atoi s ]

pub record NoPeer (live : LiveWg) : Type 0 where
  pub public_key : live.peer_public_key ≡ ""
  pub endpoint : live.endpoint ≡ ""
  pub allowed_ips : (k : String) → has_key k live.allowed_ips ≡ false
  pub keepalive : live.keepalive ≡ pos 0

-- The lines after the first one; only the first peer is read.
abbrev pub FirstPeer : List String → LiveWg → Type 0
FirstPeer [] live = NoPeer live
FirstPeer (peer ∷ lines) live = PeerColumns (split "\t" peer) live

abbrev pub Reads : List String → LiveWg → Type 0
Reads [] live = ⊥
Reads (interface ∷ lines) live = OwnColumns (split "\t" interface) live × FirstPeer lines live

-- Two readings that differ at most in the order of the allowed addresses
pub record Agree (a b : LiveWg) : Type 0 where
  pub private_key : a.private_key ≡ b.private_key
  pub listen_port : a.listen_port ≡ b.listen_port
  pub public_key : a.peer_public_key ≡ b.peer_public_key
  pub endpoint : a.endpoint ≡ b.endpoint
  pub keepalive : a.keepalive ≡ b.keepalive
  pub allowed_ips : (k : String) → has_key k a.allowed_ips ≡ has_key k b.allowed_ips

has_key-insert_ips :
    (k : String) (texts ips : List String)
    → has_key k (insert_ips ips texts) ≡ (has_key k ips || any (is_allowed k) texts)
unfolding insert_ips
has_key-insert_ips k [] ips = ground arith
has_key-insert_ips k (text ∷ texts) ips =
    elim (Bool-cases (str_eq (trim_space text) "" || str_eq (trim_space text) "(none)")) [
      | inl e ↦ rw e (has_key-insert_ips k texts ips)
      | inr e ↦
          let ih = has_key-insert_ips k texts (insert_key (trim_space text) ips) in
          let put = has_key-insert_key k (trim_space text) ips in rw e (ground (arith, ih, put))
    ]

keepalive-column :
    (rest : List String)
    → keepalive_of rest ≡ elim (get_elem? rest 3) [ none ↦ pos 0 | some s ↦ atoi s ]
unfolding keepalive_of
keepalive-column [] = refl
keepalive-column (a ∷ []) = refl
keepalive-column (a ∷ b ∷ []) = refl
keepalive-column (a ∷ b ∷ c ∷ []) = refl
keepalive-column (a ∷ b ∷ c ∷ d ∷ rest) = refl

-- The reading of a peer's line keeps what was read before it.
pub with_peer-PeerColumns :
    (before found : LiveWg) (fields : List String)
    → with_peer before fields ≡ some found
    → PeerColumns fields found
      × (found.private_key ≡ before.private_key)
      × (found.listen_port ≡ before.listen_port)
unfolding with_peer
with_peer-PeerColumns before found [] e = cc
with_peer-PeerColumns before found (a ∷ []) e = cc
with_peer-PeerColumns before found (a ∷ b ∷ []) e = cc
with_peer-PeerColumns before found (a ∷ b ∷ c ∷ []) e = cc
with_peer-PeerColumns before found (a ∷ b ∷ c ∷ ips ∷ rest) e = (
  record {
    public_key = ap (λ l. some l.peer_public_key) (some_inj.0 e);
    shown = c;
    endpoint_column = refl;
    endpoint = ap (λ l. l.endpoint) (sym (some_inj.0 e));
    ips = ips;
    ips_column = refl;
    allowed_ips = λ k.
        ap (λ l. has_key k l.allowed_ips) (sym (some_inj.0 e))
        ∙ has_key-insert_ips k (split "," ips) [];
    keepalive = ap (λ l. l.keepalive) (sym (some_inj.0 e)) ∙ keepalive-column rest;
  },
  ap (λ l. l.private_key) (sym (some_inj.0 e)),
  ap (λ l. l.listen_port) (sym (some_inj.0 e)),
)

-- A line with the columns of `live` is read.
pub PeerColumns-with_peer :
    (before live : LiveWg) (fields : List String)
    → PeerColumns fields live
    → (found : LiveWg) × (with_peer before fields ≡ some found)
unfolding with_peer
PeerColumns-with_peer before live [] h = cc h.public_key
PeerColumns-with_peer before live (a ∷ []) h = cc h.ips_column
PeerColumns-with_peer before live (a ∷ b ∷ []) h = cc h.ips_column
PeerColumns-with_peer before live (a ∷ b ∷ c ∷ []) h = cc h.ips_column
PeerColumns-with_peer before live (a ∷ b ∷ c ∷ ips ∷ rest) h = (_, refl)
