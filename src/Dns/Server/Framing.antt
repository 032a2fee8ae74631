-- ===== src/Dns/Server/Framing.antt =====
-- The length prefix of DNS over TCP.
use mathlib.Core.List.{append-nil}
use go_run.Prelude.{
  ℕ, ◌+◌, ◌*◌, ◌/◌, ◌%◌, ◌<◌, ◌≡◌, refl, sym, ap, ◌∙◌, false, ◌||◌, Option, none, some, List, [],
  ◌∷◌, ◌++◌, length, ltb, leb, arith,
}
use go_run.Dns.Forward.{Forwarder}
use go_run.Dns.Server.{
  DnsLibrary, process_query, handle_tcp, handle_length, handle_read, read_full, reply_frame, frame,
}

-- What a client reads from the connection: the bytes of one message, and what follows them
unfoldable pub unframe : List ℕ → Option (List ℕ × List ℕ)
unframe (high ∷ low ∷ input) = read_full (high * 256 + low) input
unframe short = none

read_full-append :
    (bytes left : List ℕ) → read_full (length bytes) (bytes ++ left) ≡ some (bytes, left)
unfolding read_full
read_full-append [] left = refl
read_full-append (b ∷ bytes) left = rw (read_full-append bytes left) refl

prefix_value : (l : ℕ) → l < 65536 → (l / 256) % 256 * 256 + l % 256 ≡ l
prefix_value l small = omega arith

unframe-frame :
    (out left : List ℕ) → length out < 65536 → unframe (frame out ++ left) ≡ some (out, left)
unfolding unframe
unframe-frame out left small = rw (prefix_value (length out) small) (read_full-append out left)

unframe_whole : (out : List ℕ) → length out < 65536 → unframe (frame out) ≡ some (out, [])
unframe_whole out small = ap unframe (sym (append-nil (frame out))) ∙ unframe-frame out [] small

in_range : (l : ℕ) → 0 < l → l < 65536 → (leb l 0 || ltb 65535 l) ≡ false
in_range l long short = ground arith

module _ {Rest W : Type 0} where
  handle_tcp-process_query :
      (lib : DnsLibrary Rest) (f : Forwarder Rest W) (w : W) (raw left : List ℕ)
      → 0 < length raw
      → length raw < 65536
      → handle_tcp lib f w (frame raw ++ left) ≡ reply_frame (process_query lib f w raw)
  unfolding handle_tcp handle_length handle_read
  handle_tcp-process_query lib f w raw left long short =
      rw (prefix_value (length raw) short, in_range (length raw) long short)
        (ap (handle_read lib f w) (read_full-append raw left))

  -- A query of 1 to 65535 bytes in its frame is served as the packet itself is, whatever follows
  -- it on the connection; and when the answer is shorter than 65536 bytes, what is written is
  -- one frame that a client reads back as that answer.
  pub handle_tcp-frame :
      (lib : DnsLibrary Rest) (f : Forwarder Rest W) (w w' : W) (raw left out : List ℕ)
      → 0 < length raw
      → length raw < 65536
      → process_query lib f w raw ≡ (some out, w')
      → length out < 65536
      → ((handle_tcp lib f w (frame raw ++ left)).1 ≡ w')
        × (unframe (handle_tcp lib f w (frame raw ++ left)).0 ≡ some (out, []))
  unfolding reply_frame
  handle_tcp-frame lib f w w' raw left out long short served fits =
      let written : handle_tcp lib f w (frame raw ++ left) ≡ (frame out, w') =
        handle_tcp-process_query lib f w raw left long short ∙ ap reply_frame served in
      (ap (λ r. r.1) written, ap (λ r. unframe r.0) written ∙ unframe_whole out fits)
