-- ===== src/Dns/Listen/Ends.antt =====
-- When `ListenAndServe` returns, and what.
use go_run.Prelude.{
  ◌≡◌, refl, sym, ap, ◌∙◌, true≢false, Bool, true, false, not, ◌&&◌, ◌||◌, Option, none, some, List,
  [], ◌∷◌, ◌++◌, any, arith,
}
use go_run.Dns.Listen.{
  NetError, timeout, closed, canceled, Event, packet_read, read_failed, accepted, accept_failed,
  shutdown, error_received, Serving, returned, loop_end, to_send, started, take_first, step,
  run_events, result_of, result,
}
use go_run.Dns.Listen.Loops.{
  is_fatal_event, is_read_failed, is_accept_failed, has_error, has_sent, run_events-append,
  step-cancelled, run_events-udp, run_events-tcp, run_events-has_sent,
}

-- An error for which `ListenAndServe` returns nil
abbrev is_quiet : NetError → Bool
is_quiet closed = true
is_quiet canceled = true
is_quiet e = false

abbrev quiet_first : Option NetError → Bool
quiet_first none = true
quiet_first (some e) = is_quiet e

all_quiet : List NetError → Bool
all_quiet [] = true
all_quiet (e ∷ es) = is_quiet e && all_quiet es

abbrev Quiet : {P C : Type 0} → Serving P C → Type 0
Quiet s = (quiet_first s.first && all_quiet s.sent) ≡ true

all_quiet-append : (xs ys : List NetError) → all_quiet (xs ++ ys) ≡ (all_quiet xs && all_quiet ys)
unfolding all_quiet
all_quiet-append [] ys = refl
all_quiet-append (x ∷ xs) ys = ground (arith, all_quiet-append xs ys)

quiet-nil : (e : NetError) → is_quiet e ≡ true → result_of e ≡ none
unfolding result_of
quiet-nil closed h = refl
quiet-nil canceled h = refl
quiet-nil timeout h = absurd (true≢false (sym h))
quiet-nil (NetError.other s) h = absurd (true≢false (sym h))

started-has_sent : (P C : Type 0) → has_sent (started {P = P} {C = C}) ≡ true
unfolding returned
started-has_sent P C = refl

started-Quiet : (P C : Type 0) → Quiet (started {P = P} {C = C})
unfolding all_quiet
started-Quiet P C = refl

module _ {P C : Type 0} where
  step-Quiet :
      (s : Serving P C) (e : Event P C)
      → Quiet s
      → (s.cancelled || not (is_fatal_event e)) ≡ true
      → Quiet (step s e)
  unfolding step all_quiet
  step-Quiet s (packet_read p) q h = ground arith
  step-Quiet s (read_failed e) q h =
      ground (arith, all_quiet-append s.sent (to_send (loop_end s.cancelled e)))
  step-Quiet s (accepted c) q h = ground arith
  step-Quiet s (accept_failed e) q h =
      ground (arith, all_quiet-append s.sent (to_send (loop_end s.cancelled e)))
  step-Quiet s shutdown q h = ground arith
  step-Quiet s error_received q h = ground arith

  run_events-Quiet :
      (s : Serving P C) (es : List (Event P C))
      → Quiet s
      → any is_fatal_event es ≡ false
      → Quiet (run_events s es)
  unfolding run_events
  run_events-Quiet s [] q h = q
  run_events-Quiet s (e ∷ es) q h =
      run_events-Quiet (step s e) es (step-Quiet s e q (ground arith)) (ground arith)

  run_events-Quiet_cancelled :
      (s : Serving P C) (es : List (Event P C))
      → Quiet s
      → s.cancelled ≡ true
      → Quiet (run_events s es)
  unfolding run_events
  run_events-Quiet_cancelled s [] q h = q
  run_events-Quiet_cancelled s (e ∷ es) q h =
      run_events-Quiet_cancelled (step s e) es (step-Quiet s e q (ground arith))
        (step-cancelled s e h)

  -- Once both loops have returned, the receive ends the call.
  received :
      (s : Serving P C) (first : Option NetError) (sent : List NetError)
      → returned s.udp ≡ true
      → returned s.tcp ≡ true
      → s.first ≡ first
      → (returned first || has_error sent) ≡ true
      → (r : Option NetError) × (result (take_first s first sent) ≡ some r)
        × ((quiet_first first && all_quiet sent) ≡ true → r ≡ none)
  unfolding result take_first has_error all_quiet
  received s (some e) sent u t f h =
      (result_of e, rw (u, t, f) refl, λ q. quiet-nil e (ground arith))
  received s none (e ∷ sent) u t f h =
      (result_of e, rw (u, t) refl, λ q. quiet-nil e (ground arith))
  received s none [] u t f h = absurd (true≢false (sym h))

  step-shutdown : (s : Serving P C) → step s shutdown ≡ record s { cancelled = true }
  unfolding step
  step-shutdown s = ground arith

  step-error_received : (s : Serving P C) → step s error_received ≡ take_first s s.first s.sent
  unfolding step
  step-error_received s = ground arith

  to_receive :
      (s : Serving P C) (after : List (Event P C))
      → run_events s (shutdown ∷ (after ++ error_received ∷ []))
        ≡ (let t = run_events (record s { cancelled = true }) after in take_first t t.first t.sent)
  unfolding run_events
  to_receive s after =
      run_events-append (step s shutdown) after (error_received ∷ [])
      ∙ ap (λ t. step (run_events t after) error_received) (step-shutdown s)
      ∙ step-error_received (run_events (record s { cancelled = true }) after)

  sent_of_returned :
      (s : Serving P C)
      → returned s.udp ≡ true
      → has_sent s ≡ true
      → (returned s.first || has_error s.sent) ≡ true
  sent_of_returned s u h = ground arith

  -- Whatever happened before: once `Shutdown` has been called, and after it a read has failed on each
  -- listener, be it by a passed deadline, `ListenAndServe` returns as soon as it takes an error out
  -- of the channel. It returns nil if no listener failed before the call but by a passed deadline.
  pub result-shutdown :
      (before after : List (Event P C))
      → any is_read_failed after ≡ true
      → any is_accept_failed after ≡ true
      → (r : Option NetError) × (result
            (run_events started (before ++ (shutdown ∷ (after ++ error_received ∷ []))))
          ≡ some r)
        × (any is_fatal_event before ≡ false → r ≡ none)
  result-shutdown before after reads accepts =
      let s1 = run_events started before in
      let s2 = record s1 { cancelled = true } in
      let s3 = run_events s2 after in
      let whole = run_events-append started before (shutdown ∷ (after ++ error_received ∷ [])) in
      let no_udp = run_events-udp s2 after refl ∙ ground (arith, reads) in
      let no_tcp = run_events-tcp s2 after refl ∙ ground (arith, accepts) in
      let kept =
        run_events-has_sent s2 after (run_events-has_sent started before (started-has_sent P C)) in
      let (r, ends, nil) =
        received s3 s3.first s3.sent no_udp no_tcp refl (sent_of_returned s3 no_udp kept) in
      (
        r,
        ap result (whole ∙ to_receive s1 after) ∙ ends,
        λ quiet. nil (
            run_events-Quiet_cancelled s2 after
              (run_events-Quiet started before (started-Quiet P C) quiet) refl),
      )
