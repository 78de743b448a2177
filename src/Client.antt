-- ===== src/Client.antt =====
-- pkg/client/client.go: the client's messages, the handshake and the four requests.
pub mod Download
pub mod Receive
pub mod Dial
use ssnproj.Base.{ℕ, ◌-◌, ◌*◌, ◌==◌, ltb, if◌then◌else◌, [], take, drop, length}
use ssnproj.Base.{Option, none, some, Result, Error, Context, ok, err, wrap}
use ssnproj.Base.{payload_too_large, unexpected_response, unexpected_type}
use ssnproj.Base.{upload_failed, download_failed, list_failed, delete_failed}
use ssnproj.Base.{
  send_message as sending_message, read_header, read_payload, encrypt_payload, decrypt_payload,
}
use ssnproj.Base.{generate_aes_key, send_aes_key, receive_confirmation, read_local_file}
use ssnproj.Base.{
  send_upload, send_download, send_list, send_delete, receive_response, parse_response,
  create_output,
}
use ssnproj.Bytes.BigEndian.{Bytes, from_be}
use ssnproj.Protocol.Types.{
  Message, ResponseMessage, new_message, message_type_handshake, message_type_command,
  message_type_response, command_upload, command_download, command_list, command_delete,
}
use ssnproj.Protocol.Message.{serialize}
use ssnproj.Protocol.Command.{serialize_command}
use ssnproj.Protocol.Response.{deserialize_response}
use ssnproj.Paths.{base}
use ssnproj.Crypto.{CryptoLib, encrypt, decrypt, generate_key, encrypt_with_public_key}
use ssnproj.Effects.{Action, Process, pure, raise, gets, wrapping, ◌>>=◌, ◌>>◌}
use ssnproj.Base.{connect, close_connection, ◌∷◌, ◌++◌}
use ssnproj.Client.Download.{ClientOs, receive_file_chunks}

-- The calls on the connection: `Write`, and `io.ReadFull` of a number of bytes.
pub record Conn (W : Type 0) : Type 0 where
  pub write : Bytes → Action W (Unit {0})
  pub read_full : ℕ → Action W Bytes

abbrev max_payload_size : ℕ
max_payload_size = 4 * 1024 * 1024 * 1024 - 1

-- What a client works on: its key, nil before the handshake, and the world.
abbrev pub ClientState : Type 0 → Type 0
ClientState W = Option Bytes × W

module _ {W : Type 0} (lib : CryptoLib W) (conn : Conn W) where
  unfoldable pub send_message : Message → Action W (Unit {0})
  send_message msg = wrapping sending_message (conn.write (serialize msg))

  -- The payload of the length in the header.
  abbrev receive_payload : ℕ → Action W Bytes
  receive_payload payload_len =
      if ltb max_payload_size payload_len
      then raise (payload_too_large payload_len)
      else (if ltb 0 payload_len
          then wrapping read_payload (conn.read_full payload_len)
          else pure [])

  unfoldable pub receive_message : Action W Message
  receive_message = do
    header ← wrapping read_header (conn.read_full 5)
    payload ← receive_payload (from_be 0 (take 4 (drop 1 header)))
    pure (new_message (from_be 0 (take 1 header)) payload)

  unfoldable pub client_send_secure : Bytes → Message → Action W (Unit {0})
  client_send_secure aes_key msg = do
    encrypted_payload ← wrapping encrypt_payload (encrypt lib msg.payload aes_key)
    send_message (new_message msg.kind encrypted_payload)

  unfoldable pub receive_secure_message : Bytes → Action W Message
  receive_secure_message aes_key = do
    encrypted_msg ← receive_message
    payload ← wrapping decrypt_payload (gets (λ _. decrypt lib encrypted_msg.payload aes_key))
    pure (new_message encrypted_msg.kind payload)

  -- The handshake from its first message on.
  abbrev pub exchange_key : Bytes → Action W (Unit {0})
  exchange_key encrypted_aes_key = do
    wrapping send_aes_key (send_message (new_message message_type_handshake encrypted_aes_key))
    response ← wrapping receive_confirmation receive_message
    if response.kind == message_type_response
        then pure tt
        else raise (unexpected_type response.kind)

  -- The rest of the handshake with the new key, which the client keeps even if the rest fails.
  abbrev pub with_encrypted :
      Bytes → Option (Bytes × W) → Option (Result (Unit {0}) × ClientState W)
  with_encrypted aes_key none = none
  with_encrypted aes_key (some (encrypted_aes_key, w)) =
      let (r, w') = exchange_key encrypted_aes_key w in some (r, (some aes_key, w'))

  abbrev pub with_generated :
      Option Bytes → Result Bytes × W → Option (Result (Unit {0}) × ClientState W)
  with_generated old (err e, w) = some (err (wrap generate_aes_key e), (old, w))
  with_generated old (ok aes_key, w) =
      with_encrypted aes_key (encrypt_with_public_key lib aes_key w)

  unfoldable pub perform_handshake : Process (ClientState W) (Unit {0})
  perform_handshake (old, w) = with_generated old (generate_key lib w)

  -- A command and the response to it, as all four requests have it.
  unfoldable pub request :
      Bytes → Context → (Bytes → Error) → ℕ → Bytes → Bytes → Action W ResponseMessage
  request aes_key sending failed cmd filename contents = do
    let msg = new_message message_type_command (serialize_command cmd filename contents)
    wrapping sending (client_send_secure aes_key msg)
    response ← wrapping receive_response (receive_secure_message aes_key)
    if response.kind == message_type_response
        then pure tt
        else raise (unexpected_response response.kind)
    resp_msg ← wrapping parse_response (gets (λ _. deserialize_response response.payload))
    if resp_msg.success then pure resp_msg else raise (failed resp_msg.message)

  unfoldable pub upload_file : ClientOs W → Bytes → Bytes → Action W (Unit {0})
  upload_file os aes_key filename = do
    file_data ← wrapping read_local_file (gets (os.read_local filename))
    request aes_key send_upload upload_failed command_upload (base filename) file_data
    pure tt

  unfoldable pub download_file : ClientOs W → Bytes → Bytes → Bytes → Action W (Unit {0})
  download_file os aes_key filename output_path = do
    request aes_key send_download download_failed command_download filename []
    receive_file_chunks os (receive_secure_message aes_key) filename output_path

  unfoldable pub list_files : Bytes → Action W Bytes
  list_files aes_key = do
    resp_msg ← request aes_key send_list list_failed command_list [] []
    pure resp_msg.message

  unfoldable pub delete_file : Bytes → Bytes → Action W (Unit {0})
  delete_file aes_key filename = do
    request aes_key send_delete delete_failed command_delete filename []
    pure tt

module _ {W : Type 0} where
  -- `NewClient`, over the call that connects to an address.
  unfoldable pub new_client : (Bytes → Action W (Unit {0})) → Bytes → Bytes → Action W (Unit {0})
  new_client dial host port = wrapping connect (dial (host ++ (b':' ∷ port)))

  -- `Client.Close`, with a connection that is not nil.
  unfoldable pub close_client : Action W (Unit {0}) → Action W (Unit {0})
  close_client close = wrapping close_connection close
