-- ===== src/Dns/Command/Tests.antt =====
-- The default flags beside a policy, and texts of marks.
use go_run.Prelude.{
  ℕ, ℤ, pos, ◌≡◌, refl, String, Bool, true, not, ◌+◌, ◌*◌, ◌^◌, ◌&&◌, none, some, arith,
  if◌then◌else◌,
}
use go_run.Strings.{◌<>◌, hex}
use go_run.Policy.Compile.{desired_state, policy_mark, policy_iface}
use go_run.Policy.Datapath.{direct, tunnel, blackholed, route_marked}
use go_run.Netip.{v4}
use go_run.Policy.Gateway.{before_main}
use go_run.Policy.Tests.{sample, compile-sample}
use go_run.Dns.Forward.{Exchanger, Forwarder}
use go_run.Dns.Dial.{Dialer, Upstream, or_three_seconds}
use go_run.Dns.Command.{parse_mark, forwarder_for}
use go_run.Dns.Command.Marked.{mark_of, forwarder_for-marks}

-- A client that is never answered; its world is the mark of the last socket.
abbrev silent : Dialer → ℤ → Exchanger (Unit {0}) ℕ
silent d timeout w m network address =
    (record { reply = none; error = some "timeout"; left = none }, mark_of d.so_mark)

abbrev canonical : String → String
canonical s = s

abbrev upstreams : Upstream
upstreams = record { direct_address = "77.88.8.8:53"; exit_address = "1.1.1.1:53" }

abbrev all_up : String → Bool
all_up name = true

forwarder_for-marks_example :
    (f : Forwarder (Unit {0}) ℕ) × (direct_dialer : Dialer) × (exit_dialer : Dialer)
    × (forwarder_for silent canonical upstreams ("0x" <> hex (policy_mark sample)) (pos 0) ≡ some f)
    × (f.direct_ex ≡ silent direct_dialer (or_three_seconds (pos 0)))
    × (f.exit_ex ≡ silent exit_dialer (or_three_seconds (pos 0)))
    × (route_marked all_up
          (desired_state sample).ip_rules
          (desired_state sample).routes
          (mark_of direct_dialer.so_mark)
          (v4 (77 * 2 ^ 24 + 88))
        ≡ direct)
    × (route_marked all_up
          (desired_state sample).ip_rules
          (desired_state sample).routes
          (mark_of exit_dialer.so_mark)
          (v4 (77 * 2 ^ 24 + 88))
        ≡ (if not (before_main sample)
            then direct
            else if sample.tunnel_up && all_up (policy_iface sample)
            then tunnel (policy_iface sample)
            else blackholed))
unfolding policy_mark
forwarder_for-marks_example =
    forwarder_for-marks silent canonical upstreams (pos 0) sample (desired_state sample) all_up
      (77 * 2 ^ 24 + 88) compile-sample (omega arith) (omega arith)

upper_case : parse_mark " 0X1f\n" ≡ some 31
unfolding parse_mark
upper_case = refl

too_wide : parse_mark "4294967296" ≡ none
unfolding parse_mark
too_wide = refl

no_digits : parse_mark "0x" ≡ none
unfolding parse_mark
no_digits = refl
