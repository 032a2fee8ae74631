-- ===== src/Dns/Listen.antt =====
-- server.go: `ListenAndServe`, its two loops over the listeners, and `Shutdown`, one event at a time.
-- A packet or a connection that is handed to a handler is recorded; the handlers run beside the loops.
pub mod Loops
pub mod Ends
pub mod Serves
mod Tests
use go_run.Prelude.{
  ℕ, Bool, true, false, ◌&&◌, Option, none, some, List, [], ◌∷◌, ◌++◌, String, if◌then◌else◌,
}
use go_run.Prelude.Result.{Result, ok, err}
use go_run.Dns.Forward.{Forwarder}
use go_run.Dns.Server.{DnsLibrary, process_query}

-- The errors that the code tells apart: a passed deadline, a closed socket, and the error of a
-- cancelled context
pub data NetError : Type 0 where
  timeout closed canceled : NetError
  other : String → NetError

-- What happens, with packets `P` and connections `C`: a read or an error on either listener, a call
-- of `Shutdown`, and the goroutine of `ListenAndServe` taking an error out of the channel
pub data Event (P C : Type 0) : Type 0 where
  packet_read : P → Event P C
  read_failed : NetError → Event P C
  accepted : C → Event P C
  accept_failed : NetError → Event P C
  shutdown : Event P C
  error_received : Event P C

-- `udp` and `tcp` are what the loops returned, once they have; `sent` is the channel of errors,
-- `first` what was taken out of it.
pub record Serving (P C : Type 0) : Type 0 where
  pub cancelled : Bool
  pub udp : Option NetError
  pub tcp : Option NetError
  pub sent : List NetError
  pub first : Option NetError
  pub packets : List P
  pub connections : List C

unfoldable pub returned : Option NetError → Bool
returned none = false
returned (some e) = true

-- What a loop does with an error of its listener: `none` is to go on
unfoldable pub loop_end : Bool → NetError → Option NetError
loop_end true e = some canceled
loop_end false timeout = none
loop_end false e = some e

unfoldable pub to_send : Option NetError → List NetError
to_send none = []
to_send (some e) = e ∷ []

unfoldable pub or_first : Option NetError → List NetError → Option NetError
or_first none (e ∷ sent) = some e
or_first first sent = first

module _ {P C : Type 0} where
  abbrev pub started : Serving P C
  started = record {
    cancelled = false;
    udp = none;
    tcp = none;
    sent = [];
    first = none;
    packets = [];
    connections = [];
  }

  -- `ListenAndServe` up to its goroutines, from what opening the two listeners gave
  unfoldable pub listen : Option NetError → Option NetError → Result NetError (Serving P C)
  listen (some e) tcp = err e
  listen none (some e) = err e
  listen none none = ok started

  -- `ListenAndServe` takes one error out of the channel; then it cancels the context.
  unfoldable pub take_first : Serving P C → Option NetError → List NetError → Serving P C
  take_first s none (e ∷ sent) = record s { cancelled = true; first = some e; sent = sent }
  take_first s none [] = s
  take_first s (some e) sent = s

  -- `serveUDP` and `serveTCP`, from one read to the next
  unfoldable pub udp_step : Serving P C → Event P C → Serving P C
  unfolding loop_end to_send
  udp_step s (packet_read p) = record s { packets = s.packets ++ p ∷ [] }
  udp_step s (read_failed e) =
      let end = loop_end s.cancelled e in record s { udp = end; sent = s.sent ++ to_send end }
  udp_step s other_event = s

  unfoldable pub tcp_step : Serving P C → Event P C → Serving P C
  unfolding loop_end to_send
  tcp_step s (accepted c) = record s { connections = s.connections ++ c ∷ [] }
  tcp_step s (accept_failed e) =
      let end = loop_end s.cancelled e in record s { tcp = end; sent = s.sent ++ to_send end }
  tcp_step s other_event = s

  -- `Shutdown` once the server runs, and the receive
  unfoldable pub main_step : Serving P C → Event P C → Serving P C
  unfolding take_first
  main_step s shutdown = record s { cancelled = true }
  main_step s error_received = take_first s s.first s.sent
  main_step s other_event = s

  -- A loop that has returned takes no event.
  unfoldable pub step : Serving P C → Event P C → Serving P C
  unfolding returned udp_step tcp_step main_step
  step s e =
      let s1 = if returned s.udp then s else udp_step s e in
      let s2 = if returned s.tcp then s1 else tcp_step s1 e in main_step s2 e

  unfoldable pub run_events : Serving P C → List (Event P C) → Serving P C
  unfolding step
  run_events s [] = s
  run_events s (e ∷ es) = run_events (step s e) es

-- `ListenAndServe` returns nil for a closed socket and for a cancelled context.
unfoldable pub result_of : NetError → Option NetError
result_of closed = none
result_of canceled = none
result_of e = some e

unfoldable pub result_when : Bool → Option NetError → Option (Option NetError)
unfolding result_of
result_when true (some e) = some (result_of e)
result_when _ _ = none

-- What `ListenAndServe` has returned, once it has: it waits for both loops.
unfoldable pub result : {P C : Type 0} → Serving P C → Option (Option NetError)
unfolding returned result_when
result s = result_when (returned s.udp && returned s.tcp) s.first

-- What `handlePacket` sends back to the address that a packet came from
unfoldable pub addressed : {A W : Type 0} → A → Option (List ℕ) × W → Option (List ℕ × A) × W
addressed a (none, w) = (none, w)
addressed a (some out, w) = (some (out, a), w)

-- `handlePacket`
unfoldable pub handle_packet :
    {Rest W A : Type 0}
    → DnsLibrary Rest
    → Forwarder Rest W
    → W
    → A × List ℕ
    → Option (List ℕ × A) × W
unfolding process_query addressed
handle_packet lib f w (a, raw) = addressed a (process_query lib f w raw)
