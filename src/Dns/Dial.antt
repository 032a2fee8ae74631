-- ===== src/Dns/Dial.antt =====
-- dial.go and dial_linux.go: how the sockets of the two paths are opened, on Linux; and `NewForwarder`
-- of forward.go, which gives each path its client.
use go_run.Prelude.{
  ℕ, suc, zero, ℤ, pos, negsuc, String, Option, none, some, List, ◌==◌, if◌then◌else◌,
}
use go_run.Dns.Forward.{Exchanger, Forwarder}

pub record DialConfig : Type 0 where
  pub timeout : ℤ
  pub mark : ℕ

-- A `net.Dialer`: its timeout in nanoseconds, and the mark that its `Control` gives a socket
pub record Dialer : Type 0 where
  pub timeout : ℤ
  pub so_mark : Option ℕ

-- A timeout that is not positive is three seconds.
unfoldable pub or_three_seconds : ℤ → ℤ
or_three_seconds (pos zero) = pos 3000000000
or_three_seconds (pos (suc n)) = pos (suc n)
or_three_seconds (negsuc n) = pos 3000000000

unfoldable pub new_direct_dialer : DialConfig → Dialer
unfolding or_three_seconds
new_direct_dialer cfg = record { timeout = or_three_seconds cfg.timeout; so_mark = none }

-- `applySOMark`
abbrev pub apply_so_mark : Dialer → ℕ → Dialer
apply_so_mark d mark = record d { so_mark = some mark }

unfoldable pub new_exit_dialer : DialConfig → Dialer
unfolding or_three_seconds
new_exit_dialer cfg =
    let d : Dialer = record { timeout = or_three_seconds cfg.timeout; so_mark = none } in
    if cfg.mark == 0 then d else apply_so_mark d cfg.mark

pub record Upstream : Type 0 where
  pub direct_address : String
  pub exit_address : String

-- `NewForwarder`. `client` is a client of the DNS library with a dialer and a timeout; the classifier
-- is given by its suffixes and by what makes names canonical.
unfoldable pub new_forwarder :
    {Rest W : Type 0}
    → (Dialer → ℤ → Exchanger Rest W)
    → (String → String)
    → List String
    → Upstream
    → DialConfig
    → Forwarder Rest W
unfolding new_direct_dialer new_exit_dialer or_three_seconds
new_forwarder client canonical suffixes up dial =
    let timeout = or_three_seconds dial.timeout in
    record {
      canonical = canonical;
      suffixes = suffixes;
      direct_upstream = up.direct_address;
      exit_upstream = up.exit_address;
      direct_ex = client (new_direct_dialer dial) timeout;
      exit_ex = client (new_exit_dialer dial) timeout;
    }
