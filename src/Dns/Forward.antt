-- ===== src/Dns/Forward.antt =====
-- forward.go: `Forward`. An `Exchanger` is a parameter: it answers a message and moves the world.
pub mod Origin
use go_run.Prelude.{
  ℕ, ◌≡◌, refl, ◌⊎◌, inl, inr, String, Bool, true, false, Option, none, some, List, [], ◌∷◌, length,
  str_eq, if◌then◌else◌,
}
use go_run.Dns.Suffix.{DnsPath, direct, exit, classify}

-- The fields of `dns.Msg` that the program uses (`packed` is `Data`); `rest` is all else the
-- library keeps in it.
pub record Msg (Rest : Type 0) : Type 0 where
  pub id : ℕ
  pub questions : List String
  pub truncated : Bool
  pub rcode : ℕ
  pub packed : Option (List ℕ)
  pub rest : Rest

pub data Network : Type 0 where
  udp tcp : Network

-- What an exchange returns, and the packed form it leaves in the query's `Data`
pub record Exchanged (Rest : Type 0) : Type 0 where
  pub reply : Option (Msg Rest)
  pub error : Option String
  pub left : Option (List ℕ)

abbrev pub Exchanger : Type 0 → Type 0 → Type 0
Exchanger Rest W = W → Msg Rest → Network → String → Exchanged Rest × W

pub record Forwarder (Rest W : Type 0) : Type 0 where
  pub canonical : String → String
  pub suffixes : List String
  pub direct_upstream : String
  pub exit_upstream : String
  pub direct_ex : Exchanger Rest W
  pub exit_ex : Exchanger Rest W

pub data ForwardError : Type 0 where
  question_count : ℕ → ForwardError
  empty_upstream : DnsPath → ForwardError
  exchange_failed : String → ForwardError

pub record Forwarded (Rest : Type 0) : Type 0 where
  pub reply : Option (Msg Rest)
  pub path : DnsPath
  pub error : Option ForwardError

module _ {Rest : Type 0} where
  -- `m.Data = nil`
  abbrev pub clear : Msg Rest → Msg Rest
  clear m = record m { packed = none }

  unfoldable pub is_truncated : Option (Msg Rest) → Bool
  is_truncated none = false
  is_truncated (some r) = r.truncated

  abbrev pub refused : DnsPath → ForwardError → Forwarded Rest
  refused path e = record { reply = none; path = path; error = some e }

abbrev pub exchange_error : Option String → Option ForwardError
exchange_error none = none
exchange_error (some e) = some (exchange_failed e)

abbrev pub forwarded : {Rest : Type 0} → DnsPath → Exchanged Rest → Forwarded Rest
forwarded path x = record { reply = x.reply; path = path; error = exchange_error x.error }

module _ {Rest W : Type 0} where
  -- The two attempts on one path; the second sees the message as the first one left it, cleared.
  unfoldable pub exchange_on :
      Exchanger Rest W → String → DnsPath → W → Msg Rest → Forwarded Rest × W
  unfolding is_truncated
  exchange_on ex address path w m =
      let first = ex w (clear m) udp address in
      let second = ex first.1 (clear (record m { packed = first.0.left })) tcp address in
      if is_truncated first.0.reply
      then (forwarded path second.0, second.1)
      else (forwarded path first.0, first.1)

  abbrev pub upstream_for : Forwarder Rest W → DnsPath → String
  upstream_for f direct = f.direct_upstream
  upstream_for f exit = f.exit_upstream

  abbrev pub exchanger_for : Forwarder Rest W → DnsPath → Exchanger Rest W
  exchanger_for f direct = f.direct_ex
  exchanger_for f exit = f.exit_ex

  unfoldable pub forward_on : Forwarder Rest W → DnsPath → W → Msg Rest → Forwarded Rest × W
  unfolding exchange_on
  forward_on f path w m =
      if str_eq (upstream_for f path) ""
      then (refused path (empty_upstream path), w)
      else exchange_on (exchanger_for f path) (upstream_for f path) path w m

  unfoldable pub forward_questions :
      Forwarder Rest W → List String → W → Msg Rest → Forwarded Rest × W
  unfolding forward_on
  forward_questions f (name ∷ []) w m = forward_on f (classify f.canonical f.suffixes name) w m
  forward_questions f names w m = (refused exit (question_count (length names)), w)

  -- `Forwarder.Forward`
  unfoldable pub forward : Forwarder Rest W → W → Msg Rest → Forwarded Rest × W
  unfolding forward_questions
  forward f w m = forward_questions f m.questions w m
