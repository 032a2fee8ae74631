-- ===== src/Dns/Server/Answers.antt =====
-- What the answers to packets are, and which resolver's reply they carry.
use go_run.Prelude.{ℕ, ◌≡◌, refl, ap, ◌∙◌, ◌↔◌, String, Option, none, some, List, [], ◌∷◌}
use go_run.Dns.Forward.{Msg, ForwardError, Forwarder}
use go_run.Dns.Server.{
  DnsLibrary, process_query, process_unpacked, process_questions, answer, answer_with, or_failure,
  pack_rcode, pack_reply, rcode_server_failure, rcode_format_error,
}

module _ {Rest : Type 0} where
  -- The packet is a message under the id of `req`, packed.
  abbrev pub Answers : DnsLibrary Rest → Msg Rest → List ℕ → Type 0
  Answers lib req out = (m : Msg Rest) × (lib.pack m ≡ some out) × (m.id ≡ req.id)

  -- The empty reply to `req` that reports the failure `rcode` packs.
  abbrev FailurePacks : DnsLibrary Rest → Msg Rest → ℕ → Type 0
  FailurePacks lib req rcode =
      (out : List ℕ) × (lib.pack (record (lib.set_reply req) { rcode = rcode; packed = none })
        ≡ some out)

  -- The replies to `req` pack that report a format error (1) and a failure of the server (2).
  pub record FailuresPack (lib : DnsLibrary Rest) (req : Msg Rest) : Type 0 where
    pub format_error : FailurePacks lib req 1
    pub server_failure : FailurePacks lib req 2

  pack_rcode-Answers :
      (lib : DnsLibrary Rest) (req : Msg Rest) (rcode : ℕ) (out : List ℕ)
      → pack_rcode lib req rcode ≡ some out
      → Answers lib req out
  unfolding pack_rcode
  pack_rcode-Answers lib req rcode out e =
      (record (lib.set_reply req) { rcode = rcode; packed = none }, e, lib.set_reply_id req)

  or_failure-Answers :
      (lib : DnsLibrary Rest) (req m : Msg Rest) (o : Option (List ℕ)) (out : List ℕ)
      → m.id ≡ req.id
      → lib.pack m ≡ o
      → or_failure lib req o ≡ some out
      → Answers lib req out
  unfolding or_failure
  or_failure-Answers lib req m none out same packs e =
      pack_rcode-Answers lib req rcode_server_failure out e
  or_failure-Answers lib req m (some bytes) out same packs e = (m, packs ∙ e, same)

  answer_with-Answers :
      (lib : DnsLibrary Rest) (req : Msg Rest) (error : Option ForwardError)
      (reply : Option (Msg Rest)) (out : List ℕ)
      → answer_with lib req error reply ≡ some out
      → Answers lib req out
  unfolding answer_with pack_reply
  answer_with-Answers lib req (some x) reply out e =
      pack_rcode-Answers lib req rcode_server_failure out e
  answer_with-Answers lib req none none out e =
      pack_rcode-Answers lib req rcode_server_failure out e
  answer_with-Answers lib req none (some resp) out e =
      let m = record resp { id = req.id; packed = none } in
      or_failure-Answers lib req m (lib.pack m) out refl refl e

  or_failure-some :
      (lib : DnsLibrary Rest) (req : Msg Rest) (o : Option (List ℕ))
      → FailuresPack lib req
      → (out : List ℕ) × (or_failure lib req o ≡ some out)
  unfolding or_failure pack_rcode
  or_failure-some lib req none packs = packs.server_failure
  or_failure-some lib req (some out) packs = (out, refl)

  answer_with-some :
      (lib : DnsLibrary Rest) (req : Msg Rest) (error : Option ForwardError)
      (reply : Option (Msg Rest))
      → FailuresPack lib req
      → (out : List ℕ) × (answer_with lib req error reply ≡ some out)
  unfolding answer_with pack_reply pack_rcode
  answer_with-some lib req (some x) reply packs = packs.server_failure
  answer_with-some lib req none none packs = packs.server_failure
  answer_with-some lib req none (some resp) packs = or_failure-some lib req _ packs

module _ {Rest W : Type 0} where
  process_questions-Answers :
      (lib : DnsLibrary Rest) (f : Forwarder Rest W) (qs : List String) (w : W) (req : Msg Rest)
      (out : List ℕ)
      → (process_questions lib f qs w req).0 ≡ some out
      → Answers lib req out
  unfolding process_questions answer
  process_questions-Answers lib f (name ∷ []) w req out e = answer_with-Answers lib req _ _ out e
  process_questions-Answers lib f [] w req out e =
      pack_rcode-Answers lib req rcode_format_error out e
  process_questions-Answers lib f (name ∷ second ∷ qs) w req out e =
      pack_rcode-Answers lib req rcode_format_error out e

  process_questions-some :
      (lib : DnsLibrary Rest) (f : Forwarder Rest W) (qs : List String) (w : W) (req : Msg Rest)
      → FailuresPack lib req
      → (out : List ℕ) × ((process_questions lib f qs w req).0 ≡ some out)
  unfolding process_questions answer pack_rcode
  process_questions-some lib f (name ∷ []) w req packs = answer_with-some lib req _ _ packs
  process_questions-some lib f [] w req packs = packs.format_error
  process_questions-some lib f (name ∷ second ∷ qs) w req packs = packs.format_error

  process_unpacked-Answers :
      (lib : DnsLibrary Rest) (f : Forwarder Rest W) (w : W) (o : Option (Msg Rest)) (out : List ℕ)
      → (process_unpacked lib f o w).0 ≡ some out
      → (req : Msg Rest) × (o ≡ some req) × Answers lib req out
  unfolding process_unpacked
  process_unpacked-Answers lib f w none out e = cc
  process_unpacked-Answers lib f w (some req) out e =
      (req, refl, process_questions-Answers lib f req.questions w req out e)

  -- What is sent back to a client is always a message under the id of the request it answers: the
  -- bytes unpack to a request, and the answer is the packed form of a message with that id.
  pub process_query-Answers :
      (lib : DnsLibrary Rest) (f : Forwarder Rest W) (w : W) (raw out : List ℕ)
      → (process_query lib f w raw).0 ≡ some out
      → (req : Msg Rest) × (lib.unpack raw ≡ some req) × Answers lib req out
  unfolding process_query
  process_query-Answers lib f w raw out e = process_unpacked-Answers lib f w (lib.unpack raw) out e

  -- Take a packet such that, if it unpacks to a request, the two empty replies to this request pack
  -- that report a format error and a failure of the server. It is answered exactly if it unpacks,
  -- whatever the resolvers do and whether or not their reply packs.
  pub process_query-answers_iff :
      (lib : DnsLibrary Rest) (f : Forwarder Rest W) (w : W) (raw : List ℕ)
      → ((req : Msg Rest) → lib.unpack raw ≡ some req → FailuresPack lib req)
      → ((out : List ℕ) × ((process_query lib f w raw).0 ≡ some out))
        ↔ ((req : Msg Rest) × (lib.unpack raw ≡ some req))
  unfolding process_query process_unpacked
  process_query-answers_iff lib f w raw packs = (
    λ (out, e).
        let (req, unpacked, rest) = process_query-Answers lib f w raw out e in (req, unpacked),
    λ (req, unpacked).
        let (out, e) = process_questions-some lib f req.questions w req (packs req unpacked) in
        (out, ap (λ o. (process_unpacked lib f o w).0) unpacked ∙ e),
  )
