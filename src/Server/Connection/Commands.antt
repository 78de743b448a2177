-- ===== src/Server/Connection/Commands.antt =====
-- A connection after its handshake: what a client encrypts is what the server runs.
use ssnproj.Base.{
  ℕ, ◌%◌, ◌^◌, ◌<◌, ◌≡◌, ap, ◌∙◌, [], ◌∷◌, List, All, length, take, drop, take_all, drop_all, arith,
}
use ssnproj.Base.{some, ok}
use ssnproj.Bytes.BigEndian.{Bytes}
use ssnproj.Protocol.Types.{
  Message, new_message, message_type_handshake, message_type_command, message_type_response,
}
use ssnproj.Protocol.Message.{serialize}
use ssnproj.Protocol.Buffer.{new_message_buffer}
use ssnproj.Protocol.Command.{serialize_command, deserialize_command}
use ssnproj.Protocol.Command.RoundTrip.{deserialize_command-serialize_command}
use ssnproj.Crypto.{CryptoLib, encrypt, decrypt_with_private_key, or_fatal}
use ssnproj.Crypto.RoundTrip.{Documented, decrypt-encrypt}
use ssnproj.Effects.{Action}
use ssnproj.Base.{◌>>=◌}
use ssnproj.Server.World.{Os, text}
use ssnproj.Server.Handlers.{handle}
use ssnproj.Server.Loop.{after}
use ssnproj.Server.Loop.Fragments.{join_reads}
use ssnproj.Server.Loop.Messages.{IsSendable, stream, handle_all, serve-stream}
use ssnproj.Server.Connection.{
  handshake, authenticated, ConnectionHandler, new_connection_handler, beside, secure_sender,
  with_key, confirmed, on_command, on_decrypted, handle_handshake, handle_command, handle_message,
  handle_raw_request,
}

-- A command whose name fits its length field is read back whole.
command_read :
    (cmd : ℕ) (filename contents : Bytes)
    → length filename < 2 ^ 16
    → deserialize_command (serialize_command cmd filename contents)
      ≡ ok (record { command = cmd; filename = filename; contents = contents })
command_read cmd filename contents named =
    let n : ℕ = length filename % 2 ^ 16 in
    let front : take n filename ≡ filename = take_all n filename (omega arith) in
    let back : drop n filename ≡ [] = drop_all n filename (omega arith) in
    deserialize_command-serialize_command cmd filename contents ∙ rw (front, back)

-- The connection handler after a handshake.
abbrev pub ready : Bytes → Bytes → ConnectionHandler
ready root_dir key = record {
  state = authenticated;
  aes_key = some key;
  cmd_handler = some (record { root_dir = root_dir; aes_key = some key });
  root_dir = root_dir;
}

module _ {W : Type 0} (os : Os W) (lib : CryptoLib W) (write : Bytes → Action W (Unit {0}))
    (sha256 : Bytes → Bytes) where
  key_decrypted :
      (sealed_key key : Bytes) (w v : W)
      → lib.decrypt_oaep sealed_key w ≡ (ok key, v)
      → decrypt_with_private_key lib sealed_key w ≡ some (key, v)
  unfolding decrypt_with_private_key or_fatal
  key_decrypted sealed_key key w v opened = ground (arith, opened)

  -- A handshake on a new connection.
  pub shaken :
      (root_dir sealed_key key : Bytes) (w v u : W)
      → lib.decrypt_oaep sealed_key w ≡ (ok key, v)
      → write (serialize (new_message message_type_response (text "handshake complete"))) v
        ≡ (ok tt, u)
      → handle_message os lib write sha256
          (new_message message_type_handshake sealed_key)
          (new_connection_handler root_dir, w)
        ≡ some (ok tt, (ready root_dir key, u))
  unfolding handle_message handle_handshake
  shaken root_dir sealed_key key w v u opened confirmed_to =
      ap
        (with_key os lib write sha256
          (record (new_connection_handler root_dir) { state = handshake }))
        (key_decrypted sealed_key key w v opened)
      ∙ ap (confirmed os lib write sha256 (record (ready root_dir key) { state = handshake }))
          confirmed_to

  pub commanded :
      (root_dir key ciphertext : Bytes) (cmd : ℕ) (filename contents : Bytes) (u a a' : W)
      → Documented lib
      → encrypt lib (serialize_command cmd filename contents) key a ≡ (ok ciphertext, a')
      → length filename < 2 ^ 16
      → handle_message os lib write sha256
          (new_message message_type_command ciphertext)
          (ready root_dir key, u)
        ≡ beside (ready root_dir key) (
            handle os
              (secure_sender os lib write sha256 (some key))
              sha256
              (record { root_dir = root_dir; aes_key = some key })
              (record { command = cmd; filename = filename; contents = contents })
              u)
  unfolding handle_message handle_command
  commanded root_dir key ciphertext cmd filename contents u a a' documented sealed named =
      ap
        (λ r.
          on_decrypted os lib write sha256
            (r >>= λ payload. ok (new_message message_type_command payload))
            (ready root_dir key, u))
        (decrypt-encrypt lib documented _ key ciphertext a a' sealed)
      ∙ ap (on_command os lib write sha256 (ready root_dir key) u)
          (command_read cmd filename contents named)

  -- A client shakes hands and sends a command, encrypted under the key that it sent. However the
  -- stream is cut into reads, the server runs exactly this command for this key, once, on the disk
  -- as the handshake left it, and then handles the messages behind it. The library is as documented,
  -- the server decrypts the key and can confirm it, the command's name is shorter than `2 ^ 16`
  -- bytes, and no message is empty or of `2 ^ 32` bytes or more.
  pub handle_raw_request_session :
      (root_dir sealed_key key ciphertext : Bytes) (cmd : ℕ) (filename contents : Bytes)
      (ms : List Message) (read : Bytes) (reads : List Bytes) (w v u a a' : W)
      → Documented lib
      → lib.decrypt_oaep sealed_key w ≡ (ok key, v)
      → write (serialize (new_message message_type_response (text "handshake complete"))) v
        ≡ (ok tt, u)
      → encrypt lib (serialize_command cmd filename contents) key a ≡ (ok ciphertext, a')
      → length filename < 2 ^ 16
      → let messages =
          new_message message_type_handshake sealed_key
          ∷ new_message message_type_command ciphertext
          ∷ ms in
        All IsSendable messages
        → join_reads (read ∷ reads) ≡ stream messages
        → handle_raw_request os lib write sha256 root_dir (read ∷ reads) w
          ≡ after
              (λ _. handle_all (handle_message os lib write sha256) ms)
              new_message_buffer
              (beside (ready root_dir key) (
                handle os
                  (secure_sender os lib write sha256 (some key))
                  sha256
                  (record { root_dir = root_dir; aes_key = some key })
                  (record { command = cmd; filename = filename; contents = contents })
                  u))
  unfolding handle_raw_request
  handle_raw_request_session root_dir sealed_key key ciphertext cmd filename contents ms read reads
        w v u a a' documented opened confirmed_to sealed named sendable same =
      let all = handle_all (handle_message os lib write sha256) in
      let command = new_message message_type_command ciphertext in
      serve-stream (handle_message os lib write sha256)
        (new_message message_type_handshake sealed_key ∷ command ∷ ms) read reads _ sendable same
      ∙ ap (after (λ _. all (command ∷ ms)) new_message_buffer)
          (shaken root_dir sealed_key key w v u opened confirmed_to)
      ∙ ap (after (λ _. all ms) new_message_buffer)
          (commanded root_dir key ciphertext cmd filename contents u a a' documented sealed named)
