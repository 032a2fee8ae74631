-- ===== src/Dns/Listen/Tests.antt =====
-- A server that is shut down, and one whose TCP listener fails.
use go_run.Prelude.{ℕ, ◌≡◌, refl, false, Option, none, some, List, [], ◌∷◌, ◌++◌, any}
use go_run.Prelude.Result.{err}
use go_run.Dns.Listen.{
  NetError, timeout, closed, other, Event, packet_read, read_failed, accepted, accept_failed,
  shutdown, error_received, started, listen, run_events, result,
}
use go_run.Dns.Listen.Loops.{is_fatal_event}
use go_run.Dns.Listen.Ends.{result-shutdown}
use go_run.Dns.Listen.Serves.{packets_read, connections_accepted, result-serves}

abbrev busy : List (Event ℕ ℕ)
busy = packet_read 1 ∷ read_failed timeout ∷ accepted 7 ∷ packet_read 2 ∷ []

abbrev late : List (Event ℕ ℕ)
late = packet_read 3 ∷ read_failed timeout ∷ accept_failed closed ∷ []

result-shutdown_example :
    (r : Option NetError) × (result
        (run_events started (busy ++ (shutdown ∷ (late ++ error_received ∷ []))))
      ≡ some r)
    × (any is_fatal_event busy ≡ false → r ≡ none)
result-shutdown_example = result-shutdown busy late refl refl

result-serves_example :
    (result (run_events started busy) ≡ none)
    × ((run_events started busy).packets ≡ packets_read busy)
    × ((run_events started busy).connections ≡ connections_accepted busy)
result-serves_example = result-serves busy refl

-- The first error is the result, and the other loop ends by the cancelled context.
tcp_fails :
    result (
      run_events {P = ℕ} {C = ℕ} started
        (accept_failed (other "limit") ∷ error_received ∷ read_failed closed ∷ []))
    ≡ some (some (other "limit"))
unfolding result run_events
tcp_fails = refl

-- Until the other loop has returned, the call waits.
tcp_waits :
    result
      (run_events {P = ℕ} {C = ℕ} started (accept_failed (other "limit") ∷ error_received ∷ []))
    ≡ none
unfolding result run_events
tcp_waits = refl

port_taken : listen {P = ℕ} {C = ℕ} none (some (other "in use")) ≡ err (other "in use")
unfolding listen
port_taken = refl
