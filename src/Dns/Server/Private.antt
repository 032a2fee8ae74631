-- ===== src/Dns/Server/Private.antt =====
-- Which resolver can see, and which can influence, the answer to a packet.
use go_run.Prelude.{ℕ, ◌≡◌, refl, ap, ◌∙◌, String, some, List, [], ◌∷◌}
use go_run.Strings.{trim_space}
use go_run.Dns.Suffix.{DnsPath, direct, exit, classify, InSomeZone, classify_iff}
use go_run.Dns.Forward.{Msg, Forwarder, Exchanger, forward, forward_on, forward_questions, clear}
use go_run.Dns.Server.{DnsLibrary, process_query, process_unpacked, process_questions, answer}

not-direct : (p : DnsPath) → ¬ (p ≡ direct) → p ≡ exit
not-direct direct h = absurd (h refl)
not-direct exit h = refl

-- The packet asks for one name, and that name satisfies `P`.
abbrev pub AsksFor : {Rest : Type 0} → DnsLibrary Rest → (String → Type 0) → List ℕ → Type 0
AsksFor {Rest} lib P raw =
    (req : Msg Rest) × (name : String) × (lib.unpack raw ≡ some req)
    × (req.questions ≡ name ∷ [])
    × P name

module _ {Rest W : Type 0} where
  -- The forwarder with another direct resolver
  abbrev pub with_direct : Exchanger Rest W → String → Forwarder Rest W → Forwarder Rest W
  with_direct ex address f = record f { direct_ex = ex; direct_upstream = address }

  -- The forwarder with another resolver behind the tunnel
  abbrev pub with_exit : Exchanger Rest W → String → Forwarder Rest W → Forwarder Rest W
  with_exit ex address f = record f { exit_ex = ex; exit_upstream = address }

  -- The name, made canonical as the forwarder does, lies in a configured zone.
  abbrev pub IsDomestic : Forwarder Rest W → String → Type 0
  IsDomestic f name = InSomeZone f.canonical f.suffixes (f.canonical (trim_space name))

  process_one :
      (lib : DnsLibrary Rest) (f : Forwarder Rest W) (w : W) (raw : List ℕ) (req : Msg Rest)
      (name : String)
      → lib.unpack raw ≡ some req
      → req.questions ≡ name ∷ []
      → process_query lib f w raw ≡ (
          let sent = forward_on f (classify f.canonical f.suffixes name) w (clear (lib.copy req)) in
          (answer lib req sent.0, sent.1))
  unfolding process_query process_unpacked process_questions forward forward_questions
  process_one lib f w raw req name unpacked asked =
      ap (λ o. process_unpacked lib f o w) unpacked
      ∙ ap (λ qs. process_questions lib f qs w req) asked
      ∙ ap
          (λ qs.
            let sent = forward_questions f qs w (clear (lib.copy req)) in
            (answer lib req sent.0, sent.1))
          (lib.copy_questions req ∙ asked)

  -- A packet that asks for one name outside every configured zone gets the same answer, and
  -- leaves the world the same, whatever the direct resolver and its address are.
  pub process_query-exit :
      (lib : DnsLibrary Rest) (f : Forwarder Rest W) (w : W) (raw : List ℕ) (ex : Exchanger Rest W)
      (address : String)
      → AsksFor lib (λ name. ¬ IsDomestic f name) raw
      → process_query lib (with_direct ex address f) w raw ≡ process_query lib f w raw
  unfolding forward_on
  process_query-exit lib f w raw ex address (req, name, unpacked, asked, outside) =
      let path = not-direct _ (λ e. outside ((classify_iff f.canonical f.suffixes name).0 e)) in
      rw
        (
          process_one lib (with_direct ex address f) w raw req name unpacked asked,
          process_one lib f w raw req name unpacked asked,
          path,
        )
        refl

  -- A packet that asks for one name inside a configured zone gets the same answer, and leaves the
  -- world the same, whatever the resolver behind the tunnel and its address are.
  pub process_query-direct :
      (lib : DnsLibrary Rest) (f : Forwarder Rest W) (w : W) (raw : List ℕ) (ex : Exchanger Rest W)
      (address : String)
      → AsksFor lib (λ name. IsDomestic f name) raw
      → process_query lib (with_exit ex address f) w raw ≡ process_query lib f w raw
  unfolding forward_on
  process_query-direct lib f w raw ex address (req, name, unpacked, asked, inside) =
      let path = (classify_iff f.canonical f.suffixes name).1 inside in
      rw
        (
          process_one lib (with_exit ex address f) w raw req name unpacked asked,
          process_one lib f w raw req name unpacked asked,
          path,
        )
        refl
