-- ===== src/Transport/Connection.antt =====
-- transport/transport.go: the loop that reads a connection, and what is sent on it.
use key_value_store.Prelude.{
  Option, some, ℕ, zero, suc, ◌≤◌, ◌<◌, ◌≡◌, refl, sym, ap, ◌∙◌, List, [], ◌∷◌, ◌++◌, append_assoc,
  append-nil, none, All, length, length-append, arith, Outcome, ok,
}
use key_value_store.Bytes.{le, block, length-block}
use key_value_store.Wal.Replay.{Source, source, read_full}
use key_value_store.Raft.Types.{Message}
use key_value_store.Transport.Codec.{encode_message, decode_message}
use key_value_store.Transport.Codec.RoundTrip.{FitsMessage, decode_message-encode_message}
use key_value_store.Transport.Framing.{
  Writer, write_to, write, write_framed, read_framed, framed_prefix, read_framed-block,
  max_message_size,
}

-- Send, on a connection that is there.
unfoldable pub send_message : Message → Writer → Writer × Outcome (Unit {0})
send_message m w = write_framed (encode_message m) w

-- One round of the loop of handleConn: a message, or an error, which closes the connection.
unfoldable pub with_message : Source → Outcome Message → Option (Message × Source)
with_message r (ok m) = some (m, r)
with_message r _ = none

unfoldable pub with_frame : Outcome (List ℕ × Source) → Option (Message × Source)
unfolding with_message
with_frame (ok (payload, r)) = with_message r (decode_message payload)
with_frame _ = none

unfoldable pub receive_one : Source → Option (Message × Source)
unfolding with_frame
receive_one r = with_frame (read_framed r)

-- The messages that the loop delivers.
unfoldable pub handle_connection : ℕ → Source → List Message
handle_connection zero r = []
handle_connection (suc fuel) r = elim (receive_one r) [
  | none ↦ []
  | some (m, r') ↦ m ∷ handle_connection fuel r'
]

-- Every round of the loop reads four bytes at least, so that a round for each byte is enough.
unfoldable pub received : Source → List Message
received r = handle_connection (suc (length r.unread)) r

-- Messages that are sent one after another.
unfoldable pub send_all : List Message → Writer → Writer
send_all [] w = w
send_all (m ∷ ms) w = send_all ms (send_message m w).0

-- A message that the codec carries, in a frame that the receiver accepts.
abbrev pub Sendable : Message → Type 0
Sendable m = FitsMessage m × (length (encode_message m) ≤ max_message_size)

abbrev frames : List Message → List ℕ
frames [] = []
frames (m ∷ ms) = block (encode_message m) ++ frames ms

abbrev open_writer : List ℕ → Writer
open_writer bytes = record { written = bytes; fault = none }

send_all-frames :
    (ms : List Message) (bytes : List ℕ)
    → send_all ms (open_writer bytes) ≡ open_writer (bytes ++ frames ms)
unfolding send_all send_message write_framed write write_to block
send_all-frames [] bytes = rw append-nil refl
send_all-frames (m ∷ ms) bytes =
    let p = encode_message m in
    send_all-frames ms ((bytes ++ le 4 (length p)) ++ p)
    ∙ ap open_writer (
        append_assoc (bytes ++ le 4 (length p)) p (frames ms)
        ∙ append_assoc bytes (le 4 (length p)) (p ++ frames ms)
        ∙ ap (λ b. bytes ++ b) (sym (append_assoc (le 4 (length p)) p (frames ms))))

receive_one_end : receive_one (source []) ≡ none
unfolding receive_one read_framed framed_prefix read_full with_frame
receive_one_end = refl

receive_one-block :
    (m : Message) (rest : List ℕ)
    → Sendable m
    → receive_one (source (block (encode_message m) ++ rest)) ≡ some (m, source rest)
unfolding receive_one
receive_one-block m rest (f, small) =
    rw (read_framed-block (encode_message m) rest small)
      (unfold with_frame with_message in rw (decode_message-encode_message m f) refl)

handle_connection-frames :
    (fuel : ℕ) (ms : List Message)
    → All Sendable ms
    → length ms < fuel
    → handle_connection fuel (source (frames ms)) ≡ ms
unfolding handle_connection
handle_connection-frames zero ms h lt = absurd (omega arith)
handle_connection-frames (suc fuel) [] h lt = rw (receive_one_end, handle_connection) refl
handle_connection-frames (suc fuel) (m ∷ ms) (f, h) lt =
    rw (receive_one-block m (frames ms) f, handle_connection)
      (ap (λ t. m ∷ t) (handle_connection-frames fuel ms h (omega arith)))

length-frames : (ms : List Message) → length ms ≤ length (frames ms)
length-frames [] = omega arith
length-frames (m ∷ ms) = omega (
  arith,
  length-append (block (encode_message m)) (frames ms),
  length-block (encode_message m),
  length-frames ms,
)

-- Messages that are sent on one connection, and whose writes do not fail, are received in the same
-- order, each as it was sent, and nothing else is. The codec carries each of them, in at most 64 MiB.
pub received-send_all :
    (ms : List Message)
    → All Sendable ms
    → received (source (send_all ms (record { written = []; fault = none })).written) ≡ ms
unfolding received
received-send_all ms h =
    ap (λ w. handle_connection (suc (length w.written)) (source w.written)) (send_all-frames ms [])
    ∙ handle_connection-frames (suc (length (frames ms))) ms h (omega (arith, length-frames ms))
