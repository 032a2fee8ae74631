-- ===== src/Dns/Command/Marked.antt =====
-- The sockets of the DNS forwarder beside the routes of the gateway.
use go_run.Prelude.{
  ℕ, ℤ, ◌^◌, ◌<◌, ◌≡◌, refl, String, Bool, false, not, ◌&&◌, ◌==◌, Option, none, some, arith,
  if◌then◌else◌,
}
use go_run.Prelude.Result.{ok}
use go_run.Strings.{◌<>◌, hex, same_char, has_prefix}
use go_run.Strings.Hex.{
  in_uint32, hex_value-hex, hex-IsSolid, zero_x-IsSolid, zero_x, trim_space-solid,
}
use go_run.Policy.{Policy, DesiredKernelState}
use go_run.Policy.Compile.{compile, policy_mark, policy_iface}
use go_run.Policy.Datapath.{direct, tunnel, blackholed, route_marked}
use go_run.Netip.{v4}
use go_run.Policy.Gateway.{before_main, compile-eq, marked, unmarked, policy_mark-ne-zero}
use go_run.Dns.Forward.{Exchanger, Forwarder}
use go_run.Dns.Suffix.{default_ru_suffixes}
use go_run.Dns.Dial.{
  DialConfig, Dialer, Upstream, or_three_seconds, new_direct_dialer, new_exit_dialer, new_forwarder,
}
use go_run.Dns.Command.{parse_mark, with_mark, forwarder_for}

-- A mark in hexadecimal is read back.
pub parse_mark-hex : (n : ℕ) → n < 2 ^ 32 → parse_mark ("0x" <> hex n) ≡ some n
unfolding parse_mark in_uint32 has_prefix same_char
parse_mark-hex n h =
    let text = String.◌∷◌ "0" (String.◌∷◌ "x" (hex n)) in
    rw
      (
        zero_x (hex n),
        trim_space-solid text (zero_x-IsSolid (hex n) (hex-IsSolid n)),
        hex_value-hex n,
      )
      (ground arith)

-- The mark of the packets that leave by a socket of a dialer; 0 is no mark.
abbrev pub mark_of : Option ℕ → ℕ
mark_of none = 0
mark_of (some n) = n

module _ {Rest W : Type 0} (client : Dialer → ℤ → Exchanger Rest W) (canonical : String → String)
    (upstreams : Upstream) (timeout : ℤ) where
  -- If a policy compiles and its mark fits 32 bits, then gotun-dns, started with the mark of the
  -- policy in hexadecimal, has a forwarder. Its clients of the direct and of the exit path each dial
  -- with a dialer of their own. By the rules and routes of the compiled state, what leaves by a
  -- socket of the direct dialer goes by the main table, whatever its IPv4 destination. What leaves by
  -- a socket of the exit dialer goes into the tunnel while the policy has it up and its device is up,
  -- and is blackholed otherwise, unless the policy names a rule priority of 32766 or more, so that
  -- its rule comes after the one of the main table: then it goes by the main table.
  pub forwarder_for-marks :
      (p : Policy) (st : DesiredKernelState) (up : String → Bool) (x : ℕ)
      → compile p ≡ ok st
      → x < 2 ^ 32
      → policy_mark p < 2 ^ 32
      → (f : Forwarder Rest W) × (direct_dialer : Dialer) × (exit_dialer : Dialer) × (forwarder_for
            client canonical upstreams
            ("0x" <> hex (policy_mark p))
            timeout
          ≡ some f)
        × (f.direct_ex ≡ client direct_dialer (or_three_seconds timeout))
        × (f.exit_ex ≡ client exit_dialer (or_three_seconds timeout))
        × (route_marked up st.ip_rules st.routes (mark_of direct_dialer.so_mark) (v4 x) ≡ direct)
        × (route_marked up st.ip_rules st.routes (mark_of exit_dialer.so_mark) (v4 x) ≡ (
            if not (before_main p)
            then direct
            else if p.tunnel_up && up (policy_iface p)
            then tunnel (policy_iface p)
            else blackholed))
  unfolding forwarder_for with_mark new_forwarder new_direct_dialer new_exit_dialer
  forwarder_for-marks p st up x h address small =
      let cfg : DialConfig = record { timeout = timeout; mark = policy_mark p } in
      let same = compile-eq p h in
      let nonzero : (policy_mark p == 0) ≡ false = ground (arith, policy_mark-ne-zero p) in
      (
        new_forwarder client canonical default_ru_suffixes upstreams cfg,
        new_direct_dialer cfg,
        new_exit_dialer cfg,
        rw (parse_mark-hex (policy_mark p) small) refl,
        refl,
        refl,
        rw same (unmarked p up (v4 x)),
        rw (same, nonzero) (marked p up x address),
      )
