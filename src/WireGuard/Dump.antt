-- ===== src/WireGuard/Dump.antt =====
-- What it means that the dump of an interface is as wanted.
use go_run.Prelude.{
  ◌≡◌, ◌↔◌, refl, sym, ◌∙◌, pos, int_eq, int_eq_iff, int_less, String, true, true≢false, not, ◌||◌,
  Option, none, some, List, [], ◌∷◌, map, str_eq, eq_iff, Bool-cases, inl, inr, arith,
}
use go_run.Strings.{split, trim_space}
use go_run.Strings.Keys.{has_key, Unique, insert_key-Unique, same_keys_iff}
use go_run.Strings.Numbers.{atoi}
use go_run.Netip.Text.{prefix_text}
use go_run.Policy.{WireGuardSpec}
use go_run.Linux.Nftables.Match.{keys_of}
use go_run.Linux.Nftables.Match.Comments.{keys_of-Unique, has_key-keys_of}
use go_run.WireGuard.Columns.{Agree, Reads}
use go_run.WireGuard.Reading.{of_lines-Reads, of_lines-found, Reads-Agree}
use go_run.WireGuard.Live.{
  LiveWg, no_peer, insert_ips, with_peer, with_lines, of_interface, of_lines, parse_wg_dump,
  is_wanted,
}

insert_ips-Unique : (texts ips : List String) → Unique ips → Unique (insert_ips ips texts)
unfolding insert_ips
insert_ips-Unique [] ips u = u
insert_ips-Unique (text ∷ texts) ips u =
    elim (Bool-cases (str_eq (trim_space text) "" || str_eq (trim_space text) "(none)")) [
      | inl e ↦ rw e (insert_ips-Unique texts ips u)
      | inr e ↦ rw e (insert_ips-Unique texts _ (insert_key-Unique (trim_space text) ips u))
    ]

abbrev IsDumped : Option LiveWg → Type 0
IsDumped none = Unit
IsDumped (some live) = Unique live.allowed_ips

with_peer-IsDumped : (live : LiveWg) (fields : List String) → IsDumped (with_peer live fields)
unfolding with_peer
with_peer-IsDumped live [] = tt
with_peer-IsDumped live (key ∷ []) = tt
with_peer-IsDumped live (key ∷ psk ∷ []) = tt
with_peer-IsDumped live (key ∷ psk ∷ endpoint ∷ []) = tt
with_peer-IsDumped live (key ∷ psk ∷ endpoint ∷ ips ∷ rest) =
    insert_ips-Unique (split "," ips) [] tt

of_interface-IsDumped : (fields lines : List String) → IsDumped (of_interface fields lines)
unfolding of_interface with_lines
of_interface-IsDumped [] lines = tt
of_interface-IsDumped (key ∷ []) lines = tt
of_interface-IsDumped (key ∷ public ∷ []) lines = tt
of_interface-IsDumped (key ∷ public ∷ port ∷ rest) [] = tt
of_interface-IsDumped (key ∷ public ∷ port ∷ rest) (peer ∷ lines) =
    with_peer-IsDumped (no_peer key (atoi port)) (split "\t" peer)

parse_wg_dump-IsDumped : (out : String) → IsDumped (parse_wg_dump out)
unfolding parse_wg_dump
parse_wg_dump-IsDumped out = of_split (split "\n" (trim_space out))
  where
    of_split : (lines : List String) → IsDumped (of_lines lines)
    of_split [] = tt
    of_split (interface ∷ lines) = of_interface-IsDumped (split "\t" interface) lines

-- The live interface is the wanted one. A port of zero or below is not compared; the allowed
-- addresses are compared as sets of texts.
pub record IsLiveSpec (spec : WireGuardSpec) (live : LiveWg) : Type 0 where
  pub private_key : live.private_key ≡ spec.private_key
  pub listen_port : int_less (pos 0) spec.listen_port ≡ true → live.listen_port ≡ spec.listen_port
  pub public_key : live.peer_public_key ≡ spec.peer.public_key
  pub endpoint : live.endpoint ≡ spec.peer.endpoint
  pub keepalive : live.keepalive ≡ spec.peer.persistent_keepalive
  pub allowed_ips :
      (k : String) → has_key k live.allowed_ips ≡ has_key k (map prefix_text spec.peer.allowed_ips)

module _ (spec : WireGuardSpec) where
  is_wanted-some_iff :
      (live : LiveWg)
      → Unique live.allowed_ips
      → (is_wanted spec (some live) ≡ true) ↔ IsLiveSpec spec live
  unfolding is_wanted
  is_wanted-some_iff live u =
      let texts = map prefix_text spec.peer.allowed_ips in
      let same = same_keys_iff live.allowed_ips (keys_of texts) u (keys_of-Unique texts) in
      (
        λ e. record {
          private_key = (eq_iff live.private_key spec.private_key).0 (ground (arith, e));
          listen_port =
              λ p. (int_eq_iff live.listen_port spec.listen_port).0 (ground (arith, e, p));
          public_key = (eq_iff live.peer_public_key spec.peer.public_key).0 (ground (arith, e));
          endpoint = (eq_iff live.endpoint spec.peer.endpoint).0 (ground (arith, e));
          keepalive =
              (int_eq_iff live.keepalive spec.peer.persistent_keepalive).0 (ground (arith, e));
          allowed_ips = λ k. same.0 (ground (arith, e)) k ∙ has_key-keys_of k texts;
        },
        λ h.
            let a = (eq_iff live.private_key spec.private_key).1 h.private_key in
            let b = (eq_iff live.peer_public_key spec.peer.public_key).1 h.public_key in
            let c = (eq_iff live.endpoint spec.peer.endpoint).1 h.endpoint in
            let d = (int_eq_iff live.keepalive spec.peer.persistent_keepalive).1 h.keepalive in
            let f = same.1 (λ k. h.allowed_ips k ∙ sym (has_key-keys_of k texts)) in
            rw (a, port h.listen_port, b, c, d, f) refl,
      )
    where
      port :
          (int_less (pos 0) spec.listen_port ≡ true → live.listen_port ≡ spec.listen_port)
          → (not (int_less (pos 0) spec.listen_port) || int_eq live.listen_port spec.listen_port)
            ≡ true
      port h = elim (Bool-cases (int_less (pos 0) spec.listen_port)) [
        | inl e ↦ rw e ((int_eq_iff live.listen_port spec.listen_port).1 (h e))
        | inr e ↦ rw e refl
      ]

  of_Agree : (a b : LiveWg) → Agree a b → IsLiveSpec spec b → IsLiveSpec spec a
  of_Agree a b same h = record {
    private_key = same.private_key ∙ h.private_key;
    listen_port = λ p. same.listen_port ∙ h.listen_port p;
    public_key = same.public_key ∙ h.public_key;
    endpoint = same.endpoint ∙ h.endpoint;
    keepalive = same.keepalive ∙ h.keepalive;
    allowed_ips = λ k. same.allowed_ips k ∙ h.allowed_ips k;
  }

  -- The dump of an interface is taken as wanted exactly when its columns are the wanted settings: the
  -- first line has the wanted private key and, if a port is wanted, this port; the line of the first
  -- peer has the wanted public key, endpoint and keepalive, and the texts of the wanted allowed
  -- addresses and no others. Without a line of a peer these are blank. Further peers are not read.
  pub is_wanted-parse_wg_dump_iff :
      (out : String)
      → (is_wanted spec (parse_wg_dump out) ≡ true)
        ↔ ((live : LiveWg) × Reads (split "\n" (trim_space out)) live × IsLiveSpec spec live)
  unfolding is_wanted parse_wg_dump
  is_wanted-parse_wg_dump_iff out =
      of_dump (split "\n" (trim_space out)) (parse_wg_dump out) refl (parse_wg_dump-IsDumped out)
    where
      of_dump :
          (lines : List String) (o : Option LiveWg)
          → of_lines lines ≡ o
          → IsDumped o
          → (is_wanted spec o ≡ true) ↔ ((live : LiveWg) × Reads lines live × IsLiveSpec spec live)
      of_dump lines none e u = (
        λ h. absurd (true≢false (sym h)),
        λ (live, reads, t). let (found, same) = of_lines-found lines live reads in cc (same, e),
      )
      of_dump lines (some found) e u = (
        λ h. (found, of_lines-Reads lines found e, (is_wanted-some_iff found u).0 h),
        λ (live, reads, t).
            let agree = Reads-Agree lines found live (of_lines-Reads lines found e) reads in
            (is_wanted-some_iff found u).1 (of_Agree found live agree t),
      )
