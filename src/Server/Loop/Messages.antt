-- ===== src/Server/Loop/Messages.antt =====
-- The messages that a client serialized are handled in order, each once.
use ssnproj.Base.{
  ℕ, zero, suc, ◌^◌, ◌<◌, ◌≡◌, refl, ap, ◌∙◌, List, [], ◌∷◌, ◌++◌, length, length-append, arith,
  All,
}
use ssnproj.Base.{Result, Option, none, some, ok, err, insufficient_data}
use ssnproj.Bytes.BigEndian.{Bytes}
use ssnproj.Protocol.Types.{Message}
use ssnproj.Protocol.Message.{serialize}
use ssnproj.Protocol.Message.RoundTrip.{length-serialize}
use ssnproj.Protocol.Buffer.{MessageBuffer, new_message_buffer, try_deserialize}
use ssnproj.Protocol.Buffer.Stream.{try_deserialize-serialize}
use ssnproj.Effects.{Process}
use ssnproj.Server.Loop.{Status, waiting, closed, ended, stuck, after, on_status, drain, serve}
use ssnproj.Server.Loop.Fragments.{join_reads, drain_message, drain_partial, serve_joined}

-- A message that the reader can read back.
abbrev pub IsSendable : Message → Type 0
IsSendable m = (0 < length m.payload) × (length m.payload < 2 ^ 32)

abbrev pub stream : List Message → Bytes
stream [] = []
stream (m ∷ ms) = serialize m ++ stream ms

module _ {S : Type 0} (handle_message : Message → Process S (Unit {0})) where
  -- One message after the other, with no bytes in between: what the loops are to do.
  abbrev pub handle_all : List Message → S → Status S
  handle_all [] s = waiting new_message_buffer s
  handle_all (m ∷ ms) s = after (λ _. handle_all ms) new_message_buffer (handle_message m s)

  after-handle_all :
      (f : ℕ) (ms : List Message) (mb : MessageBuffer) (o : Option (Result (Unit {0}) × S))
      → ((s : S) → drain handle_message f mb s ≡ handle_all ms s)
      → after (drain handle_message f) mb o ≡ after (λ _. handle_all ms) new_message_buffer o
  after-handle_all f ms mb none h = refl
  after-handle_all f ms mb (some (ok tt, s)) h = h s
  after-handle_all f ms mb (some (err e, s)) h = refl

  drain-stream :
      (ms : List Message) (f : ℕ) (s : S)
      → All IsSendable ms
      → length (stream ms) < f
      → drain handle_message f (record { buffer = stream ms }) s ≡ handle_all ms s
  drain-stream ms zero s h fuel = absurd (omega arith)
  drain-stream [] (suc f) s h fuel =
      drain_partial handle_message f new_message_buffer insufficient_data s
        (unfold try_deserialize in refl) refl
  drain-stream (m ∷ ms) (suc f) s ((some_payload, fits), h) fuel =
      drain_message handle_message f _ (record { buffer = stream ms }) m s
        (try_deserialize-serialize m (stream ms) some_payload fits)
      ∙ after-handle_all f ms (record { buffer = stream ms }) (handle_message m s)
          (λ s'.
            drain-stream ms f s' h
              (omega (arith, length-append (serialize m) (stream ms), length-serialize m)))

  on_status-nil : (t : Status S) → on_status (serve handle_message []) t ≡ t
  unfolding serve
  on_status-nil (waiting mb s) = refl
  on_status-nil (closed e s) = refl
  on_status-nil ended = refl
  on_status-nil stuck = refl

  serve_one :
      (read : Bytes) (s : S)
      → serve handle_message (read ∷ []) new_message_buffer s
        ≡ drain handle_message (suc (length read)) (record { buffer = read }) s
  serve_one read s = opened ∙ on_status-nil _
    where
      opened :
          serve handle_message (read ∷ []) new_message_buffer s
          ≡ on_status
              (serve handle_message [])
              (drain handle_message (suc (length read)) (record { buffer = read }) s)
      opened = unfold serve in refl

  -- However the stream of serialized messages is cut into reads, a new connection handles exactly
  -- these messages, in order, up to the first whose handling fails.
  pub serve-stream :
      (ms : List Message) (read : Bytes) (reads : List Bytes) (s : S)
      → All IsSendable ms
      → join_reads (read ∷ reads) ≡ stream ms
      → serve handle_message (read ∷ reads) new_message_buffer s ≡ handle_all ms s
  serve-stream ms read reads s h same =
      serve_joined handle_message read reads new_message_buffer s
      ∙ ap (λ (b : Bytes). serve handle_message (b ∷ []) new_message_buffer s) same
      ∙ serve_one (stream ms) s
      ∙ drain-stream ms (suc (length (stream ms))) s h (omega arith)
