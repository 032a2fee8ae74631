-- ===== src/Dns/Forward/Origin.antt =====
-- Where the reply of `Forward` comes from.
use go_run.Prelude.{
  ◌≡◌, ◌≢◌, refl, sym, ap, ◌∙◌, ◌⊎◌, inl, inr, ◌↔◌, String, true, false, Option, none, some, [],
  ◌∷◌, str_eq, eq_iff, Bool-cases, true≢false,
}
use go_run.Dns.Suffix.{DnsPath, classify}
use go_run.Dns.Forward.{
  Msg, Exchanged, Forwarder, Forwarded, Exchanger, udp, tcp, exchange_error, exchange_on,
  exchanger_for, upstream_for, is_truncated, forward, forward_on, forward_questions, clear,
}

-- A reply without an error
abbrev pub Succeeds : {Rest : Type 0} → Exchanged Rest → Msg Rest → Type 0
Succeeds x r = (x.error ≡ none) × (x.reply ≡ some r)

-- `Forward` returns `r` and no error.
abbrev pub Delivers : {Rest : Type 0} → Forwarded Rest → Msg Rest → Type 0
Delivers x r = (x.error ≡ none) × (x.reply ≡ some r)

error_iff : (e : Option String) → (exchange_error e ≡ none) ↔ (e ≡ none)
error_iff none = (λ h. refl, λ h. refl)
error_iff (some x) = (λ h. cc, λ h. cc)

module _ {Rest W : Type 0} where
  -- The UDP exchange succeeds with `r`, which is complete.
  abbrev pub ByUdp : Exchanger Rest W → String → W → Msg Rest → Msg Rest → Type 0
  ByUdp ex address w m r =
      let first = ex w (clear m) udp address in Succeeds first.0 r × (r.truncated ≡ false)

  -- The UDP exchange brings a truncated reply, and the same query, sent over TCP to the same
  -- address, succeeds with `r`.
  abbrev pub ByTcp : Exchanger Rest W → String → W → Msg Rest → Msg Rest → Type 0
  ByTcp ex address w m r =
      let first = ex w (clear m) udp address in
      (is_truncated first.0.reply ≡ true) × Succeeds (ex first.1 (clear m) tcp address).0 r

  exchange_on_iff :
      (ex : Exchanger Rest W) (address : String) (path : DnsPath) (w : W) (m r : Msg Rest)
      → Delivers (exchange_on ex address path w m).0 r
        ↔ (ByUdp ex address w m r ⊎ ByTcp ex address w m r)
  unfolding exchange_on
  exchange_on_iff ex address path w m r =
      let first = ex w (clear m) udp address in
      let second = ex first.1 (clear m) tcp address in
      elim (Bool-cases (is_truncated first.0.reply)) [
        | inl cut ↦ rw cut (
          λ (ok, got). inr (refl, ((error_iff second.0.error).0 ok, got)),
          λ h. elim h [
            | inl ((ok, got), whole) ↦ absurd (true≢false (sym cut ∙ ap is_truncated got ∙ whole))
            | inr (t, (ok, got)) ↦ ((error_iff second.0.error).1 ok, got)
          ],
        )
        | inr whole ↦ rw whole (
          λ (ok, got).
              inl (((error_iff first.0.error).0 ok, got), sym (ap is_truncated got) ∙ whole),
          λ h. elim h [
            | inl ((ok, got), t) ↦ ((error_iff first.0.error).1 ok, got)
            | inr (cut, rest) ↦ absurd (true≢false (sym cut))
          ],
        )
      ]

  -- For a query with one question whose path has a resolver, `Forward` returns a reply without an
  -- error exactly when either the UDP exchange with that path's resolver succeeds with a complete
  -- reply, and this is it; or the UDP reply is truncated, and the same query sent over TCP to the
  -- same resolver succeeds with this reply, whether it is truncated or not.
  pub forward_iff :
      (f : Forwarder Rest W) (w : W) (m r : Msg Rest) (name : String) (path : DnsPath)
      → m.questions ≡ name ∷ []
      → classify f.canonical f.suffixes name ≡ path
      → upstream_for f path ≢ ""
      → Delivers (forward f w m).0 r ↔ (
          ByUdp (exchanger_for f path) (upstream_for f path) w m r
          ⊎ ByTcp (exchanger_for f path) (upstream_for f path) w m r)
  unfolding forward forward_questions forward_on
  forward_iff f w m r name path asked classified known =
      elim (Bool-cases (str_eq (upstream_for f path) "")) [
        | inl none_set ↦ absurd (known ((eq_iff (upstream_for f path) "").0 none_set))
        | inr set ↦
            let taken : (forward f w m).0
                ≡ (exchange_on (exchanger_for f path) (upstream_for f path) path w m).0 =
              ap (λ qs. (forward_questions f qs w m).0) asked
              ∙ ap (λ p. (forward_on f p w m).0) classified
              ∙ rw set refl in
            rw taken (exchange_on_iff (exchanger_for f path) (upstream_for f path) path w m r)
      ]
