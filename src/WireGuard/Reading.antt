-- ===== src/WireGuard/Reading.antt =====
-- The lines of a dump are read by their columns, which determine what is read.
use mathlib.Core.Option.{some_inj}
use go_run.Prelude.{
  ◌≡◌, refl, sym, ap, ◌∙◌, String, some, List, [], ◌∷◌, str_eq, any, if◌then◌else◌,
}
use go_run.Strings.{split}
use go_run.Strings.Keys.{has_key}
use go_run.Strings.Numbers.{atoi}
use go_run.WireGuard.Live.{LiveWg, no_peer, with_lines, of_interface, of_lines}
use go_run.WireGuard.Columns.{
  OwnColumns, FirstPeer, Reads, Agree, is_allowed, with_peer-PeerColumns, PeerColumns-with_peer,
}

of_interface-Reads :
    (fields lines : List String) (found : LiveWg)
    → of_interface fields lines ≡ some found
    → OwnColumns fields found × FirstPeer lines found
unfolding of_interface with_lines
of_interface-Reads [] lines found e = cc
of_interface-Reads (a ∷ []) lines found e = cc
of_interface-Reads (a ∷ b ∷ []) lines found e = cc
of_interface-Reads (a ∷ b ∷ port ∷ rest) [] found e =
    let same = sym (some_inj.0 e) in
    (
      record {
        private_key = ap (λ l. some l.private_key) (some_inj.0 e);
        port = port;
        port_column = refl;
        listen_port = ap (λ l. l.listen_port) same;
      },
      record {
        public_key = ap (λ l. l.peer_public_key) same;
        endpoint = ap (λ l. l.endpoint) same;
        allowed_ips = λ k. ap (λ l. has_key k l.allowed_ips) same;
        keepalive = ap (λ l. l.keepalive) same;
      },
    )
of_interface-Reads (a ∷ b ∷ port ∷ rest) (peer ∷ lines) found e =
    let (columns, key, listens) =
      with_peer-PeerColumns (no_peer a (atoi port)) found (split "\t" peer) e in
    (
      record {
        private_key = ap some (sym key);
        port = port;
        port_column = refl;
        listen_port = listens;
      },
      columns,
    )

-- What is read from the lines of a dump are its columns.
pub of_lines-Reads :
    (lines : List String) (found : LiveWg) → of_lines lines ≡ some found → Reads lines found
unfolding of_lines
of_lines-Reads [] found e = cc
of_lines-Reads (interface ∷ lines) found e = of_interface-Reads (split "\t" interface) lines found e

of_interface-found :
    (fields lines : List String) (live : LiveWg)
    → OwnColumns fields live
    → FirstPeer lines live
    → (found : LiveWg) × (of_interface fields lines ≡ some found)
unfolding of_interface with_lines
of_interface-found [] lines live h p = cc h.port_column
of_interface-found (a ∷ []) lines live h p = cc h.port_column
of_interface-found (a ∷ b ∷ []) lines live h p = cc h.port_column
of_interface-found (a ∷ b ∷ port ∷ rest) [] live h p = (_, refl)
of_interface-found (a ∷ b ∷ port ∷ rest) (peer ∷ lines) live h p =
    PeerColumns-with_peer (no_peer a (atoi port)) live (split "\t" peer) p

-- Lines that have columns are read.
pub of_lines-found :
    (lines : List String) (live : LiveWg)
    → Reads lines live
    → (found : LiveWg) × (of_lines lines ≡ some found)
unfolding of_lines
of_lines-found [] live h = absurd h
of_lines-found (interface ∷ lines) live (h, p) =
    of_interface-found (split "\t" interface) lines live h p

FirstPeer-Agree :
    (lines : List String) (a b : LiveWg)
    → a.private_key ≡ b.private_key
    → a.listen_port ≡ b.listen_port
    → FirstPeer lines a
    → FirstPeer lines b
    → Agree a b
FirstPeer-Agree [] a b key port p q = record {
  private_key = key;
  listen_port = port;
  public_key = p.public_key ∙ sym q.public_key;
  endpoint = p.endpoint ∙ sym q.endpoint;
  keepalive = p.keepalive ∙ sym q.keepalive;
  allowed_ips = λ k. p.allowed_ips k ∙ sym (q.allowed_ips k);
}
FirstPeer-Agree (peer ∷ lines) a b key port p q =
    let shown = some_inj.0 (sym p.endpoint_column ∙ q.endpoint_column) in
    let ips = some_inj.0 (sym p.ips_column ∙ q.ips_column) in
    record {
      private_key = key;
      listen_port = port;
      public_key = some_inj.0 (sym p.public_key ∙ q.public_key);
      endpoint = p.endpoint ∙ ap (λ s. if str_eq s "(none)" then "" else s) shown ∙ sym q.endpoint;
      keepalive = p.keepalive ∙ sym q.keepalive;
      allowed_ips = λ k.
          p.allowed_ips k ∙ ap (λ s. any (is_allowed k) (split "," s)) ips ∙ sym (q.allowed_ips k);
    }

-- The columns determine the reading.
pub Reads-Agree : (lines : List String) (a b : LiveWg) → Reads lines a → Reads lines b → Agree a b
Reads-Agree [] a b p q = absurd p
Reads-Agree (interface ∷ lines) a b (own, p) (owned, q) =
    let port = some_inj.0 (sym own.port_column ∙ owned.port_column) in
    FirstPeer-Agree lines a b (some_inj.0 (sym own.private_key ∙ owned.private_key))
      (own.listen_port ∙ ap atoi port ∙ sym owned.listen_port) p q
