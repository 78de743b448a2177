-- ===== src/Tests/Sessions.antt =====
-- Streams of messages cut into reads, and a connection that begins well or badly.
use ssnproj.Base.{◌++◌, replicate, take, drop}
use ssnproj.Bytes.BigEndian.{put_uint16}
use ssnproj.Protocol.Types.{command_upload}
use ssnproj.Protocol.Command.{serialize_command}
use ssnproj.Crypto.{encrypt, decrypt}
use ssnproj.Base.{err, ciphertext_too_short}
use ssnproj.Server.Connection.Tampered.{handle_raw_request_tampered}
use ssnproj.Effects.{check}
use ssnproj.Server.Handlers.{handle}
use ssnproj.Server.Loop.{after}
use ssnproj.Server.Connection.{beside, secure_sender, handle_message}
use ssnproj.Server.Connection.Commands.{ready, handle_raw_request_session}
use ssnproj.Tests.Disk.{plain-Documented}
use ssnproj.Base.{◌≡◌, refl, [], ◌∷◌, List, All, arith, some, ok, before_handshake, eof}
use ssnproj.Bytes.BigEndian.{Bytes, put_uint32}
use ssnproj.Protocol.Types.{
  Message, new_message, message_type_handshake, message_type_command, message_type_data,
}
use ssnproj.Protocol.Message.{serialize}
use ssnproj.Protocol.Buffer.{new_message_buffer}
use ssnproj.Effects.{Action, Process}
use ssnproj.Server.World.{text}
use ssnproj.Server.Loop.{closed, ended, serve}
use ssnproj.Server.Loop.Fragments.{join_reads, serve_joined}
use ssnproj.Server.Loop.Messages.{IsSendable, stream, handle_all, serve-stream}
use ssnproj.Server.Loop.Invariant.{Stands}
use ssnproj.Server.Connection.{Session, new_connection_handler, handle_raw_request}
use ssnproj.Server.Connection.States.{
  IsConsistent, handle_raw_request_first, handle_raw_request_fatal, handle_raw_request-Stands,
}
use ssnproj.Tests.Disk.{Disk, empty_disk, disk_os, plain_lib, failing_lib, plain_hash}

-- A handler that keeps the messages, the last one first.
abbrev keep_message : Message → Process (List Message) (Unit {0})
keep_message m ms = some (ok tt, m ∷ ms)

abbrev first_message : Message
first_message = new_message message_type_data (1 ∷ 2 ∷ [])

abbrev second_message : Message
second_message = new_message message_type_command (3 ∷ [])

abbrev both : List Message
both = first_message ∷ second_message ∷ []

abbrev first_read : Bytes
first_read = 3 ∷ 0 ∷ 0 ∷ []

abbrev later_reads : List Bytes
later_reads = (0 ∷ 2 ∷ 1 ∷ 2 ∷ 2 ∷ 0 ∷ 0 ∷ []) ∷ (0 ∷ 1 ∷ 3 ∷ []) ∷ []

cut_stream : join_reads (first_read ∷ later_reads) ≡ stream both
unfolding serialize put_uint32
cut_stream = refl

both-IsSendable : All IsSendable both
both-IsSendable = ((omega arith, omega arith), ((omega arith, omega arith), tt))

serve-stream_example :
    serve keep_message (first_read ∷ later_reads) new_message_buffer []
    ≡ handle_all keep_message both []
serve-stream_example =
    serve-stream keep_message both first_read later_reads [] both-IsSendable cut_stream

serve_joined_example :
    serve keep_message (first_read ∷ later_reads) new_message_buffer []
    ≡ serve keep_message (join_reads (first_read ∷ later_reads) ∷ []) new_message_buffer []
serve_joined_example = serve_joined keep_message first_read later_reads new_message_buffer []

abbrev discard : Bytes → Action Disk (Unit {0})
discard bytes w = (ok tt, w)

handle_raw_request_first_example :
    handle_raw_request disk_os plain_lib discard plain_hash
      (text "/srv")
      (first_read ∷ later_reads)
      empty_disk
    ≡ closed before_handshake (new_connection_handler (text "/srv"), empty_disk)
handle_raw_request_first_example =
    handle_raw_request_first disk_os plain_lib discard plain_hash (text "/srv") first_message
      (second_message ∷ []) first_read later_reads empty_disk (λ e. absurd (omega arith))
      both-IsSendable cut_stream

abbrev hello : Message
hello = new_message message_type_handshake (9 ∷ [])

hello-stream : join_reads ((1 ∷ 0 ∷ 0 ∷ 0 ∷ 1 ∷ 9 ∷ []) ∷ []) ≡ stream (hello ∷ [])
unfolding serialize put_uint32
hello-stream = refl

handle_raw_request_fatal_example :
    handle_raw_request disk_os failing_lib discard plain_hash
      (text "/srv")
      ((1 ∷ 0 ∷ 0 ∷ 0 ∷ 1 ∷ 9 ∷ []) ∷ [])
      empty_disk
    ≡ ended
handle_raw_request_fatal_example =
    handle_raw_request_fatal disk_os failing_lib discard plain_hash (text "/srv") hello []
      (1 ∷ 0 ∷ 0 ∷ 0 ∷ 1 ∷ 9 ∷ []) [] empty_disk refl eof refl ((omega arith, omega arith), tt)
      hello-stream

handle_raw_request-Stands_example :
    Stands
      (λ (s : Session Disk). IsConsistent (text "/srv") s.0)
      (handle_raw_request disk_os plain_lib discard plain_hash
        (text "/srv")
        (first_read ∷ later_reads)
        empty_disk)
handle_raw_request-Stands_example =
    handle_raw_request-Stands disk_os plain_lib discard plain_hash (text "/srv")
      (first_read ∷ later_reads) empty_disk

-- A client with the key `a` uploads a file of one byte.
abbrev session_key : Bytes
session_key = text "a"

abbrev sealed_command : Bytes
sealed_command = replicate 12 0 ++ serialize_command command_upload (text "notes") (1 ∷ [])

encrypted_command :
    encrypt plain_lib
      (serialize_command command_upload (text "notes") (1 ∷ []))
      session_key
      empty_disk
    ≡ (ok sealed_command, empty_disk)
unfolding encrypt check
encrypted_command = refl

abbrev session : List Message
session =
    new_message message_type_handshake session_key
    ∷ new_message message_type_command sealed_command
    ∷ []

session-IsSendable : All IsSendable session
unfolding serialize_command put_uint16
session-IsSendable = ((omega arith, omega arith), ((omega arith, omega arith), tt))

session_cut : join_reads (take 8 (stream session) ∷ drop 8 (stream session) ∷ []) ≡ stream session
unfolding serialize serialize_command put_uint16 put_uint32
session_cut = refl

handle_raw_request_session_example :
    handle_raw_request disk_os plain_lib discard plain_hash
      (text "/srv")
      (take 8 (stream session) ∷ drop 8 (stream session) ∷ [])
      empty_disk
    ≡ after
        (λ _. handle_all (handle_message disk_os plain_lib discard plain_hash) [])
        new_message_buffer
        (beside (ready (text "/srv") session_key) (
          handle disk_os
            (secure_sender disk_os plain_lib discard plain_hash (some session_key))
            plain_hash
            (record { root_dir = text "/srv"; aes_key = some session_key })
            (record { command = command_upload; filename = text "notes"; contents = 1 ∷ [] })
            empty_disk))
handle_raw_request_session_example =
    handle_raw_request_session disk_os plain_lib discard plain_hash (text "/srv") session_key
      session_key sealed_command command_upload (text "notes") (1 ∷ []) [] (take 8 (stream session))
      (drop 8 (stream session) ∷ []) empty_disk empty_disk empty_disk empty_disk empty_disk
      plain-Documented refl refl encrypted_command (omega arith) session-IsSendable session_cut

-- A message that is too short to be decrypted, with another behind the handshake.
abbrev short_session : List Message
short_session = new_message message_type_handshake session_key ∷ first_message ∷ second_message ∷ []

short_stream :
    join_reads (take 8 (stream short_session) ∷ drop 8 (stream short_session) ∷ [])
    ≡ stream short_session
unfolding serialize put_uint32
short_stream = refl

too_short : decrypt {W = Disk} plain_lib (1 ∷ 2 ∷ []) session_key ≡ err ciphertext_too_short
unfolding decrypt
too_short = refl

handle_raw_request_tampered_example :
    handle_raw_request disk_os plain_lib discard plain_hash
      (text "/srv")
      (take 8 (stream short_session) ∷ drop 8 (stream short_session) ∷ [])
      empty_disk
    ≡ closed ciphertext_too_short (ready (text "/srv") session_key, empty_disk)
handle_raw_request_tampered_example =
    handle_raw_request_tampered disk_os plain_lib discard plain_hash (text "/srv") session_key
      session_key first_message ciphertext_too_short (second_message ∷ [])
      (take 8 (stream short_session)) (drop 8 (stream short_session) ∷ []) empty_disk empty_disk
      empty_disk (λ e. absurd (omega arith)) refl refl too_short
      ((omega arith, omega arith), both-IsSendable) short_stream
