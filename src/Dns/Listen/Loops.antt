-- ===== src/Dns/Listen/Loops.antt =====
-- What one event, and a sequence of events, does to the loops of the listeners.
use go_run.Prelude.{◌≡◌, refl, ◌∙◌, Bool, true, false, not, ◌||◌, List, [], ◌∷◌, ◌++◌, any, arith}
use go_run.Dns.Listen.{
  NetError, timeout, Event, packet_read, read_failed, accepted, accept_failed, shutdown,
  error_received, Serving, returned, loop_end, to_send, step, run_events,
}

-- An error that is no passed deadline
abbrev pub is_fatal : NetError → Bool
is_fatal timeout = false
is_fatal e = true

abbrev pub is_fatal_event : {P C : Type 0} → Event P C → Bool
is_fatal_event (read_failed e) = is_fatal e
is_fatal_event (accept_failed e) = is_fatal e
is_fatal_event e = false

abbrev pub is_read_failed : {P C : Type 0} → Event P C → Bool
is_read_failed (read_failed e) = true
is_read_failed e = false

abbrev pub is_accept_failed : {P C : Type 0} → Event P C → Bool
is_accept_failed (accept_failed e) = true
is_accept_failed e = false

abbrev pub is_shutdown : {P C : Type 0} → Event P C → Bool
is_shutdown shutdown = true
is_shutdown e = false

unfoldable pub has_error : List NetError → Bool
has_error [] = false
has_error (e ∷ es) = true

-- A loop that returned has sent its error.
abbrev pub has_sent : {P C : Type 0} → Serving P C → Bool
has_sent s = not (returned s.udp || returned s.tcp) || returned s.first || has_error s.sent

has_error-append : (xs ys : List NetError) → has_error (xs ++ ys) ≡ (has_error xs || has_error ys)
unfolding has_error
has_error-append [] ys = refl
has_error-append (x ∷ xs) ys = refl

module _ {P C : Type 0} where
  pub run_events-append :
      (s : Serving P C) (xs ys : List (Event P C))
      → run_events s (xs ++ ys) ≡ run_events (run_events s xs) ys
  unfolding run_events
  run_events-append s [] ys = refl
  run_events-append s (x ∷ xs) ys = run_events-append (step s x) xs ys

  pub step-cancelled :
      (s : Serving P C) (e : Event P C) → s.cancelled ≡ true → (step s e).cancelled ≡ true
  unfolding step
  step-cancelled s (packet_read p) h = ground arith
  step-cancelled s (read_failed e) h = ground arith
  step-cancelled s (accepted c) h = ground arith
  step-cancelled s (accept_failed e) h = ground arith
  step-cancelled s shutdown h = refl
  step-cancelled s error_received h = ground arith

  step-udp :
      (s : Serving P C) (e : Event P C)
      → s.cancelled ≡ true
      → returned (step s e).udp ≡ (returned s.udp || is_read_failed e)
  unfolding step
  step-udp s (packet_read p) h = ground arith
  step-udp s (read_failed e) h = ground arith
  step-udp s (accepted c) h = ground arith
  step-udp s (accept_failed e) h = ground arith
  step-udp s shutdown h = ground arith
  step-udp s error_received h = ground arith

  step-tcp :
      (s : Serving P C) (e : Event P C)
      → s.cancelled ≡ true
      → returned (step s e).tcp ≡ (returned s.tcp || is_accept_failed e)
  unfolding step
  step-tcp s (packet_read p) h = ground arith
  step-tcp s (read_failed e) h = ground arith
  step-tcp s (accepted c) h = ground arith
  step-tcp s (accept_failed e) h = ground arith
  step-tcp s shutdown h = ground arith
  step-tcp s error_received h = ground arith

  pub run_events-udp :
      (s : Serving P C) (es : List (Event P C))
      → s.cancelled ≡ true
      → returned (run_events s es).udp ≡ (returned s.udp || any is_read_failed es)
  unfolding run_events
  run_events-udp s [] h = ground arith
  run_events-udp s (e ∷ es) h =
      run_events-udp (step s e) es (step-cancelled s e h) ∙ ground (arith, step-udp s e h)

  pub run_events-tcp :
      (s : Serving P C) (es : List (Event P C))
      → s.cancelled ≡ true
      → returned (run_events s es).tcp ≡ (returned s.tcp || any is_accept_failed es)
  unfolding run_events
  run_events-tcp s [] h = ground arith
  run_events-tcp s (e ∷ es) h =
      run_events-tcp (step s e) es (step-cancelled s e h) ∙ ground (arith, step-tcp s e h)

  pub step-has_sent :
      (s : Serving P C) (e : Event P C) → has_sent s ≡ true → has_sent (step s e) ≡ true
  unfolding step has_error
  step-has_sent s (packet_read p) h = ground arith
  step-has_sent s (read_failed e) h =
      ground (arith, has_error-append s.sent (to_send (loop_end s.cancelled e)))
  step-has_sent s (accepted c) h = ground arith
  step-has_sent s (accept_failed e) h =
      ground (arith, has_error-append s.sent (to_send (loop_end s.cancelled e)))
  step-has_sent s shutdown h = ground arith
  step-has_sent s error_received h = ground arith

  pub run_events-has_sent :
      (s : Serving P C) (es : List (Event P C))
      → has_sent s ≡ true
      → has_sent (run_events s es) ≡ true
  unfolding run_events
  run_events-has_sent s [] h = h
  run_events-has_sent s (e ∷ es) h = run_events-has_sent (step s e) es (step-has_sent s e h)
