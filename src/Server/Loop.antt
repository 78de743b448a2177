-- ===== src/Server/Loop.antt =====
-- pkg/server/server.go: the loops of `HandleRawRequest`, over any handler of one message. `S` is
-- all that the handler works on. The handler does not touch the message buffer, which stands
-- beside `S`.
pub mod Fragments
pub mod Messages
pub mod Invariant
use ssnproj.Base.{ℕ, zero, suc, ◌+◌, List, [], ◌∷◌, length, Bool, true, false, if◌then◌else◌}
use ssnproj.Base.{Result, Error, Option, none, some, ok, err, insufficient_data, incomplete_payload}
use ssnproj.Bytes.BigEndian.{Bytes}
use ssnproj.Protocol.Types.{Message}
use ssnproj.Protocol.Buffer.{MessageBuffer, add_data, try_deserialize}
use ssnproj.Effects.{Process}

-- How the loop stands: it waits for data; it has closed the connection after an error; the
-- process has ended; or the model ran out of fuel.
pub data Status (S : Type 0) : Type 0 where
  waiting : MessageBuffer → S → Status S
  closed : Error → S → Status S
  ended : Status S
  stuck : Status S

-- `err == ErrInsufficientData || err == ErrIncompletePayload`
abbrev pub is_not_ready : Error → Bool
is_not_ready insufficient_data = true
is_not_ready incomplete_payload = true
is_not_ready _ = false

-- The fuel for one inner loop: each message takes five bytes of the buffer at least.
abbrev pub rounds : MessageBuffer → ℕ
rounds mb = suc (length mb.buffer)

module _ {S : Type 0} where
  -- What follows the handling of a message, with the rest of the inner loop.
  abbrev pub after :
      (MessageBuffer → S → Status S) → MessageBuffer → Option (Result (Unit {0}) × S) → Status S
  after rest mb none = ended
  after rest mb (some (err e, s)) = closed e s
  after rest mb (some (ok _, s)) = rest mb s

  abbrev pub on_taken :
      (Message → Process S (Unit {0}))
      → (MessageBuffer → S → Status S)
      → S
      → Result Message × MessageBuffer
      → Status S
  on_taken handle_message rest s (ok message, mb) = after rest mb (handle_message message s)
  on_taken handle_message rest s (err e, mb) = if is_not_ready e then waiting mb s else closed e s

  -- The outer loop goes on where the inner loop waits.
  abbrev pub on_status : (MessageBuffer → S → Status S) → Status S → Status S
  on_status rest (waiting mb s) = rest mb s
  on_status rest (closed e s) = closed e s
  on_status rest ended = ended
  on_status rest stuck = stuck

module _ {S : Type 0} (handle_message : Message → Process S (Unit {0})) where
  -- The inner loop: messages are taken off the buffer and handled until one is not complete.
  unfoldable pub drain : ℕ → MessageBuffer → S → Status S
  drain zero mb s = stuck
  drain (suc fuel) mb s = on_taken handle_message (drain fuel) s (try_deserialize mb)

  -- The outer loop, over what the calls of `Read` return, up to the last of them.
  unfoldable pub serve : List Bytes → MessageBuffer → S → Status S
  serve [] mb s = waiting mb s
  serve (read ∷ reads) mb s =
      on_status (serve reads) (drain (rounds (add_data read mb)) (add_data read mb) s)
