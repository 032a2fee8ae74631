-- ===== src/Dns/Listen/Serves.antt =====
-- What the listeners do before anything ends them.
use go_run.Prelude.{
  ◌≡◌, refl, sym, ap, ◌∙◌, true≢false, Bool, false, ◌||◌, none, List, [], ◌∷◌, ◌++◌, any, arith,
}
use mathlib.Core.List.{append-nil, append_assoc}
use go_run.Dns.Listen.{
  Event, packet_read, read_failed, accepted, accept_failed, shutdown, error_received, Serving,
  started, step, run_events, result,
}
use go_run.Dns.Listen.Loops.{is_fatal_event, is_shutdown}

-- A call of `Shutdown`, or an error of a listener other than a passed deadline
abbrev pub ends_service : {P C : Type 0} → Event P C → Bool
ends_service e = is_shutdown e || is_fatal_event e

-- The packets and the connections that the listeners yield, in order
pub packets_read : {P C : Type 0} → List (Event P C) → List P
packets_read [] = []
packets_read (packet_read p ∷ es) = p ∷ packets_read es
packets_read (e ∷ es) = packets_read es

pub connections_accepted : {P C : Type 0} → List (Event P C) → List C
connections_accepted [] = []
connections_accepted (accepted c ∷ es) = c ∷ connections_accepted es
connections_accepted (e ∷ es) = connections_accepted es

-- Neither `Shutdown` nor an error has reached the loops.
record IsIdle {P C : Type 0} (s : Serving P C) : Type 0 where
  running : s.cancelled ≡ false
  no_udp : s.udp ≡ none
  no_tcp : s.tcp ≡ none
  unsent : s.sent ≡ []
  no_first : s.first ≡ none

module _ {P C : Type 0} where
  step-IsIdle :
      (s : Serving P C) (e : Event P C)
      → IsIdle s
      → (is_shutdown e || is_fatal_event e) ≡ false
      → IsIdle (step s e)
  unfolding step
  step-IsIdle s (packet_read p) i h = ground arith
  step-IsIdle s (read_failed e) i h = ground arith
  step-IsIdle s (accepted c) i h = ground arith
  step-IsIdle s (accept_failed e) i h = ground arith
  step-IsIdle s shutdown i h = absurd (true≢false h)
  step-IsIdle s error_received i h = ground arith

  run_events-IsIdle :
      (s : Serving P C) (es : List (Event P C))
      → IsIdle s
      → any ends_service es ≡ false
      → IsIdle (run_events s es)
  unfolding run_events
  run_events-IsIdle s [] i h = i
  run_events-IsIdle s (e ∷ es) i h =
      run_events-IsIdle (step s e) es (step-IsIdle s e i (ground arith)) (ground arith)

  result-idle : (s : Serving P C) → IsIdle s → result s ≡ none
  unfolding result
  result-idle s i = rw (i.no_udp) refl

  packets_read-cons :
      (e : Event P C) (es : List (Event P C))
      → packets_read (e ∷ []) ++ packets_read es ≡ packets_read (e ∷ es)
  unfolding packets_read
  packets_read-cons (packet_read p) es = refl
  packets_read-cons (read_failed e) es = refl
  packets_read-cons (accepted c) es = refl
  packets_read-cons (accept_failed e) es = refl
  packets_read-cons shutdown es = refl
  packets_read-cons error_received es = refl

  connections_accepted-cons :
      (e : Event P C) (es : List (Event P C))
      → connections_accepted (e ∷ []) ++ connections_accepted es ≡ connections_accepted (e ∷ es)
  unfolding connections_accepted
  connections_accepted-cons (packet_read p) es = refl
  connections_accepted-cons (read_failed e) es = refl
  connections_accepted-cons (accepted c) es = refl
  connections_accepted-cons (accept_failed e) es = refl
  connections_accepted-cons shutdown es = refl
  connections_accepted-cons error_received es = refl

  step-packets :
      (s : Serving P C) (e : Event P C)
      → IsIdle s
      → (step s e).packets ≡ s.packets ++ packets_read (e ∷ [])
  unfolding step packets_read
  step-packets s (packet_read p) i = ground arith
  step-packets s (read_failed e) i = ground (arith, append-nil s.packets)
  step-packets s (accepted c) i = ground (arith, append-nil s.packets)
  step-packets s (accept_failed e) i = ground (arith, append-nil s.packets)
  step-packets s shutdown i = ground (arith, append-nil s.packets)
  step-packets s error_received i = ground (arith, append-nil s.packets)

  step-connections :
      (s : Serving P C) (e : Event P C)
      → IsIdle s
      → (step s e).connections ≡ s.connections ++ connections_accepted (e ∷ [])
  unfolding step connections_accepted
  step-connections s (packet_read p) i = ground (arith, append-nil s.connections)
  step-connections s (read_failed e) i = ground (arith, append-nil s.connections)
  step-connections s (accepted c) i = ground arith
  step-connections s (accept_failed e) i = ground (arith, append-nil s.connections)
  step-connections s shutdown i = ground (arith, append-nil s.connections)
  step-connections s error_received i = ground (arith, append-nil s.connections)

  run_events-packets :
      (s : Serving P C) (es : List (Event P C))
      → IsIdle s
      → any ends_service es ≡ false
      → (run_events s es).packets ≡ s.packets ++ packets_read es
  unfolding run_events packets_read
  run_events-packets s [] i h = sym (append-nil s.packets)
  run_events-packets s (e ∷ es) i h =
      run_events-packets (step s e) es (step-IsIdle s e i (ground arith)) (ground arith)
      ∙ ap (λ l. l ++ packets_read es) (step-packets s e i)
      ∙ append_assoc s.packets (packets_read (e ∷ [])) (packets_read es)
      ∙ ap (λ l. s.packets ++ l) (packets_read-cons e es)

  run_events-connections :
      (s : Serving P C) (es : List (Event P C))
      → IsIdle s
      → any ends_service es ≡ false
      → (run_events s es).connections ≡ s.connections ++ connections_accepted es
  unfolding run_events connections_accepted
  run_events-connections s [] i h = sym (append-nil s.connections)
  run_events-connections s (e ∷ es) i h =
      run_events-connections (step s e) es (step-IsIdle s e i (ground arith)) (ground arith)
      ∙ ap (λ l. l ++ connections_accepted es) (step-connections s e i)
      ∙ append_assoc s.connections (connections_accepted (e ∷ [])) (connections_accepted es)
      ∙ ap (λ l. s.connections ++ l) (connections_accepted-cons e es)

  -- As long as `Shutdown` is not called and no listener fails but by a passed deadline,
  -- `ListenAndServe` does not return, and what was handed to the handlers is every packet and every
  -- connection that the listeners yielded, in order.
  pub result-serves :
      (es : List (Event P C))
      → any ends_service es ≡ false
      → (result (run_events started es) ≡ none)
        × ((run_events started es).packets ≡ packets_read es)
        × ((run_events started es).connections ≡ connections_accepted es)
  result-serves es h =
      let idle : IsIdle (started {P = P} {C = C}) = record {
        running = refl;
        no_udp = refl;
        no_tcp = refl;
        unsent = refl;
        no_first = refl;
      } in
      (
        result-idle (run_events started es) (run_events-IsIdle started es idle h),
        run_events-packets started es idle h,
        run_events-connections started es idle h,
      )
