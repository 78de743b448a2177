-- ===== src/Server/Connection/Tampered.antt =====
-- A message that cannot be decrypted, on a connection after its handshake.
use ssnproj.Base.{◌≡◌, ◌≢◌, ap, ◌∙◌, ◌∷◌, List, All, arith, some, Error, ok, err}
use ssnproj.Bytes.BigEndian.{Bytes}
use ssnproj.Protocol.Types.{Message, new_message, message_type_handshake, message_type_response}
use ssnproj.Protocol.Message.{serialize}
use ssnproj.Protocol.Buffer.{new_message_buffer}
use ssnproj.Crypto.{CryptoLib, decrypt}
use ssnproj.Effects.{Action}
use ssnproj.Server.World.{Os, text}
use ssnproj.Server.Loop.{closed, after}
use ssnproj.Server.Loop.Fragments.{join_reads}
use ssnproj.Server.Loop.Messages.{IsSendable, stream, handle_all, serve-stream}
use ssnproj.Server.Connection.{handle_message, handle_raw_request}
use ssnproj.Server.Connection.Commands.{ready, shaken}

module _ {W : Type 0} (os : Os W) (lib : CryptoLib W) (write : Bytes → Action W (Unit {0}))
    (sha256 : Bytes → Bytes) where
  rejected :
      (root_dir key : Bytes) (m : Message) (e : Error) (u : W)
      → m.kind ≢ message_type_handshake
      → decrypt lib m.payload key ≡ err e
      → handle_message os lib write sha256 m (ready root_dir key, u)
        ≡ some (err e, (ready root_dir key, u))
  unfolding handle_message
  rejected root_dir key m e u other bad = ground (arith, other, bad)

  -- After a handshake, a message of another type that cannot be decrypted under the key of the
  -- connection closes the connection with the error of the decryption. The world is as the handshake
  -- left it, and nothing behind the message is handled, however the stream is cut into reads. The
  -- server decrypts the key and can confirm it, and no message is empty or of `2 ^ 32` bytes or more.
  pub handle_raw_request_tampered :
      (root_dir sealed_key key : Bytes) (m : Message) (e : Error) (ms : List Message) (read : Bytes)
      (reads : List Bytes) (w v u : W)
      → m.kind ≢ message_type_handshake
      → lib.decrypt_oaep sealed_key w ≡ (ok key, v)
      → write (serialize (new_message message_type_response (text "handshake complete"))) v
        ≡ (ok tt, u)
      → decrypt lib m.payload key ≡ err e
      → All IsSendable (new_message message_type_handshake sealed_key ∷ m ∷ ms)
      → join_reads (read ∷ reads) ≡ stream (new_message message_type_handshake sealed_key ∷ m ∷ ms)
      → handle_raw_request os lib write sha256 root_dir (read ∷ reads) w
        ≡ closed e (ready root_dir key, u)
  unfolding handle_raw_request
  handle_raw_request_tampered root_dir sealed_key key m e ms read reads w v u other opened
        confirmed_to bad sendable same =
      let all = handle_all (handle_message os lib write sha256) in
      serve-stream (handle_message os lib write sha256)
        (new_message message_type_handshake sealed_key ∷ m ∷ ms) read reads _ sendable same
      ∙ ap (after (λ _. all (m ∷ ms)) new_message_buffer)
          (shaken os lib write sha256 root_dir sealed_key key w v u opened confirmed_to)
      ∙ ap (after (λ _. all ms) new_message_buffer) (rejected root_dir key m e u other bad)
