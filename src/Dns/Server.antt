-- ===== src/Dns/Server.antt =====
-- server.go: one packet in, one packet out, and the length prefix of DNS over TCP.
pub mod Private
pub mod Answers
pub mod Framing
use go_run.Prelude.{
  ℕ, zero, suc, ◌+◌, ◌*◌, ◌/◌, ◌%◌, ◌≤◌, ◌<◌, ◌≡◌, Bool, true, false, ◌||◌, Option, none, some,
  List, [], ◌∷◌, ◌++◌, length, ltb, leb, if◌then◌else◌, String, map,
}
use go_run.Dns.Forward.{Msg, Forwarder, Forwarded, ForwardError, forward, clear}

-- What the program takes from the DNS library: `Unpack`, `Pack`, `Copy`, and `SetReply` on a new
-- message, with the documented facts the program relies on.
pub record DnsLibrary (Rest : Type 0) : Type 0 where
  pub unpack : List ℕ → Option (Msg Rest)
  pub pack : Msg Rest → Option (List ℕ)
  pub copy : Msg Rest → Msg Rest
  pub set_reply : Msg Rest → Msg Rest
  pub copy_questions : (m : Msg Rest) → (copy m).questions ≡ m.questions
  pub set_reply_id : (m : Msg Rest) → (set_reply m).id ≡ m.id

abbrev pub rcode_format_error : ℕ
rcode_format_error = 1

abbrev pub rcode_server_failure : ℕ
rcode_server_failure = 2

abbrev pub max_dns_packet : ℕ
max_dns_packet = 65535

-- `packRcode`
unfoldable pub pack_rcode : {Rest : Type 0} → DnsLibrary Rest → Msg Rest → ℕ → Option (List ℕ)
pack_rcode lib req rcode = lib.pack (record (lib.set_reply req) { rcode = rcode; packed = none })

unfoldable pub or_failure :
    {Rest : Type 0} → DnsLibrary Rest → Msg Rest → Option (List ℕ) → Option (List ℕ)
unfolding pack_rcode
or_failure lib req none = pack_rcode lib req rcode_server_failure
or_failure lib req (some out) = some out

-- A reply under the id of the request, or SERVFAIL if it does not pack
unfoldable pub pack_reply :
    {Rest : Type 0} → DnsLibrary Rest → Msg Rest → Msg Rest → Option (List ℕ)
unfolding or_failure
pack_reply lib req resp = or_failure lib req (lib.pack (record resp { id = req.id; packed = none }))

-- The reply to the client, from the error and the reply of `Forward`
unfoldable pub answer_with :
    {Rest : Type 0}
    → DnsLibrary Rest
    → Msg Rest
    → Option ForwardError
    → Option (Msg Rest)
    → Option (List ℕ)
unfolding pack_reply
answer_with lib req (some e) reply = pack_rcode lib req rcode_server_failure
answer_with lib req none none = pack_rcode lib req rcode_server_failure
answer_with lib req none (some resp) = pack_reply lib req resp

unfoldable pub answer :
    {Rest : Type 0} → DnsLibrary Rest → Msg Rest → Forwarded Rest → Option (List ℕ)
unfolding answer_with
answer lib req x = answer_with lib req x.error x.reply

module _ {Rest W : Type 0} where
  unfoldable pub process_questions :
      DnsLibrary Rest → Forwarder Rest W → List String → W → Msg Rest → Option (List ℕ) × W
  unfolding forward answer
  process_questions lib f (name ∷ []) w req =
      let sent = forward f w (clear (lib.copy req)) in (answer lib req sent.0, sent.1)
  process_questions lib f names w req = (pack_rcode lib req rcode_format_error, w)

  unfoldable pub process_unpacked :
      DnsLibrary Rest → Forwarder Rest W → Option (Msg Rest) → W → Option (List ℕ) × W
  unfolding process_questions
  process_unpacked lib f none w = (none, w)
  process_unpacked lib f (some req) w = process_questions lib f req.questions w req

  -- `Server.processQuery`; `none` is the nil slice
  unfoldable pub process_query :
      DnsLibrary Rest → Forwarder Rest W → W → List ℕ → Option (List ℕ) × W
  unfolding process_unpacked
  process_query lib f w raw = process_unpacked lib f (lib.unpack raw) w

-- `io.ReadFull` of `n` bytes: what is read and what stays, or nothing if the input ends before
unfoldable pub read_full : ℕ → List ℕ → Option (List ℕ × List ℕ)
read_full zero input = some ([], input)
read_full (suc n) [] = none
read_full (suc n) (b ∷ input) = elim (read_full n input) [
  | none ↦ none
  | some (bytes, left) ↦ some (b ∷ bytes, left)
]

-- The two bytes of the length prefix, most significant first
abbrev pub length_prefix : ℕ → List ℕ
length_prefix l = (l / 256) % 256 ∷ l % 256 ∷ []

abbrev pub frame : List ℕ → List ℕ
frame out = length_prefix (length out) ++ out

unfoldable pub reply_frame : {W : Type 0} → Option (List ℕ) × W → List ℕ × W
reply_frame (none, w) = ([], w)
reply_frame (some out, w) = (frame out, w)

module _ {Rest W : Type 0} where
  unfoldable pub handle_read :
      DnsLibrary Rest → Forwarder Rest W → W → Option (List ℕ × List ℕ) → List ℕ × W
  unfolding process_query reply_frame
  handle_read lib f w none = ([], w)
  handle_read lib f w (some (raw, left)) = reply_frame (process_query lib f w raw)

  unfoldable pub handle_length : DnsLibrary Rest → Forwarder Rest W → W → ℕ → List ℕ → List ℕ × W
  unfolding handle_read read_full
  handle_length lib f w l input =
      if leb l 0 || ltb max_dns_packet l then ([], w) else handle_read lib f w (read_full l input)

  -- `Server.handleTCP`: from what the client sends to what is written back
  unfoldable pub handle_tcp : DnsLibrary Rest → Forwarder Rest W → W → List ℕ → List ℕ × W
  unfolding handle_length
  handle_tcp lib f w (high ∷ low ∷ input) = handle_length lib f w (high * 256 + low) input
  handle_tcp lib f w short = ([], w)
