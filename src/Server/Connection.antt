-- ===== src/Server/Connection.antt =====
-- pkg/server/server.go: `ConnectionHandler` and the handling of one message. The message buffer
-- belongs to the loops of `ssnproj.Server.Loop`.
pub mod States
pub mod Commands
pub mod Frame
pub mod Tampered
use ssnproj.Base.{
  ℕ, [], ◌∷◌, List, ◌==◌, if◌then◌else◌, Option, none, some, Result, Error, ok, err, wrap,
}
use ssnproj.Base.{unexpected_type, before_handshake, send_handshake}
use ssnproj.Bytes.BigEndian.{Bytes}
use ssnproj.Protocol.Types.{
  Message, CommandMessage, new_message, message_type_handshake, message_type_command,
}
use ssnproj.Protocol.Types.{message_type_response}
use ssnproj.Protocol.Message.{serialize}
use ssnproj.Protocol.Buffer.{MessageBuffer, new_message_buffer}
use ssnproj.Protocol.Command.{deserialize_command}
use ssnproj.Protocol.Decrypt.{decrypt_message}
use ssnproj.Crypto.{CryptoLib, encrypt, decrypt, decrypt_with_private_key}
use ssnproj.Effects.{Action, Process, ◌>>=◌, ◌>>◌, wrapping}
use ssnproj.Server.World.{Os, ConnectionSender, CommandHandler, text}
use ssnproj.Server.Handlers.{handle}
use ssnproj.Server.Loop.{Status, serve}

pub data ConnectionState : Type 0 where
  new handshake authenticated closed : ConnectionState

-- The struct without its connection, its key pair, its logger and its buffer. A nil key or command
-- handler is `none`.
pub record ConnectionHandler : Type 0 where
  pub state : ConnectionState
  pub aes_key : Option Bytes
  pub cmd_handler : Option CommandHandler
  pub root_dir : Bytes

abbrev pub new_connection_handler : Bytes → ConnectionHandler
new_connection_handler root_dir = record {
  state = new;
  aes_key = none;
  cmd_handler = none;
  root_dir = root_dir;
}

-- What a handler works on: itself and the world.
abbrev pub Session : Type 0 → Type 0
Session W = ConnectionHandler × W

-- The bytes of a key that may be nil.
abbrev pub key_bytes : Option Bytes → Bytes
key_bytes none = []
key_bytes (some key) = key

-- The result of a process that does not touch the connection handler.
abbrev pub beside :
    {W A : Type 0} → ConnectionHandler → Option (Result A × W) → Option (Result A × Session W)
beside h none = none
beside h (some (r, w)) = some (r, (h, w))

module _ {W : Type 0} (os : Os W) (lib : CryptoLib W) (write : Bytes → Action W (Unit {0}))
    (sha256 : Bytes → Bytes) where
  -- `ConnectionHandler.SendSecureMessage`
  unfoldable pub send_secure_message : Option Bytes → Message → Action W (Unit {0})
  send_secure_message aes_key message = do
    encrypted_payload ← encrypt lib message.payload (key_bytes aes_key)
    write (serialize (new_message message.kind encrypted_payload))

  -- The interface that the command handler gets.
  abbrev pub secure_sender : Option Bytes → ConnectionSender W
  secure_sender aes_key = record { send_secure_message = send_secure_message aes_key }

  -- What the handshake ends with, after the confirmation was written or not.
  abbrev confirmed :
      ConnectionHandler → Result (Unit {0}) × W → Option (Result (Unit {0}) × Session W)
  confirmed h (ok _, w) = some (ok tt, (record h { state = authenticated }, w))
  confirmed h (err e, w) = some (err (wrap send_handshake e), (h, w))

  -- The handler gets the key and a command handler with it, and confirms.
  abbrev with_key : ConnectionHandler → Option (Bytes × W) → Option (Result (Unit {0}) × Session W)
  with_key h none = none
  with_key h (some (aes_key, w)) =
      confirmed
        (record h {
          aes_key = some aes_key;
          cmd_handler = some (record { root_dir = h.root_dir; aes_key = some aes_key });
        })
        (write (serialize (new_message message_type_response (text "handshake complete"))) w)

  unfoldable pub handle_handshake : Message → Process (Session W) (Unit {0})
  handle_handshake m (h, w) =
      with_key (record h { state = handshake }) (decrypt_with_private_key lib m.payload w)

  -- Without a command handler the call ends in a nil dereference.
  abbrev run_command :
      ConnectionHandler
      → W
      → Option CommandHandler
      → CommandMessage
      → Option (Result (Unit {0}) × Session W)
  run_command h w none command = none
  run_command h w (some cmd_handler) command =
      beside h (handle os (secure_sender h.aes_key) sha256 cmd_handler command w)

  abbrev on_command :
      ConnectionHandler → W → Result CommandMessage → Option (Result (Unit {0}) × Session W)
  on_command h w (err e) = some (err e, (h, w))
  on_command h w (ok command) = run_command h w h.cmd_handler command

  unfoldable pub handle_command : Message → Process (Session W) (Unit {0})
  handle_command message (h, w) = on_command h w (deserialize_command message.payload)

  abbrev on_decrypted : Result Message → Process (Session W) (Unit {0})
  on_decrypted (err e) s = some (err e, s)
  on_decrypted (ok message) s =
      if message.kind == message_type_command
      then handle_command message s
      else some (err (unexpected_type message.kind), s)

  -- Only a handshake is accepted while there is no key.
  abbrev on_secure : Message → Option Bytes → Process (Session W) (Unit {0})
  on_secure message none s = some (err before_handshake, s)
  on_secure message (some aes_key) s = on_decrypted (decrypt_message lib aes_key message) s

  unfoldable pub handle_message : Message → Process (Session W) (Unit {0})
  handle_message message (h, w) =
      if message.kind == message_type_handshake
      then handle_handshake message (h, w)
      else on_secure message h.aes_key (h, w)

  -- `NewConnectionHandler` and `HandleRawRequest`, over what the calls of `Read` return.
  unfoldable pub handle_raw_request : Bytes → List Bytes → W → Status (Session W)
  handle_raw_request root_dir reads w =
      serve handle_message reads new_message_buffer (new_connection_handler root_dir, w)
