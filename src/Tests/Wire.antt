-- ===== src/Tests/Wire.antt =====
-- Messages, commands, responses and chunks on the wire, and texts under a key.
use ssnproj.Base.{◌%◌, ◌^◌, ◌≡◌, ◌<◌, refl, [], ◌∷◌, ◌++◌, length, take, drop, true, arith}
use ssnproj.Base.{ok, err, eof, incomplete_payload}
use ssnproj.Bytes.BigEndian.{Bytes, put_uint32}
use ssnproj.Protocol.Types.{
  Message, ChunkDataMessage, new_message, message_type_data, command_upload,
}
use ssnproj.Protocol.Message.{serialize}
use ssnproj.Protocol.Buffer.{MessageBuffer, try_deserialize}
use ssnproj.Protocol.Buffer.Stream.{
  try_deserialize-serialize, try_deserialize_partial, try_deserialize-serialize_empty,
}
use ssnproj.Protocol.Command.{serialize_command, deserialize_command}
use ssnproj.Protocol.Command.RoundTrip.{deserialize_command-serialize_command}
use ssnproj.Protocol.Response.{serialize_response, deserialize_response}
use ssnproj.Protocol.Response.RoundTrip.{deserialize_response-serialize_response}
use ssnproj.Protocol.Chunk.{serialize_chunk_data, deserialize_chunk_data}
use ssnproj.Protocol.Chunk.RoundTrip.{deserialize_chunk_data-serialize_chunk_data}
use ssnproj.Crypto.{encrypt, decrypt}
use ssnproj.Crypto.RoundTrip.{decrypt-encrypt}
use ssnproj.Server.World.{text}
use ssnproj.Effects.{check}
use ssnproj.Tests.Disk.{Disk, empty_disk, plain_lib, plain-Documented}

abbrev data_message : Message
data_message = new_message message_type_data (7 ∷ 8 ∷ 9 ∷ [])

abbrev empty_message : Message
empty_message = new_message message_type_data []

abbrev two_chunks : ChunkDataMessage
two_chunks = record {
  filename = text "a.txt";
  chunk_index = 1;
  total_chunks = 2;
  chunk_size = 3;
  total_size = 65539;
  contents = 1 ∷ 2 ∷ 3 ∷ [];
}

abbrev one_and_a_byte : MessageBuffer
one_and_a_byte = record { buffer = serialize data_message ++ (3 ∷ []) }

abbrev rest_of_it : MessageBuffer
rest_of_it = record { buffer = 3 ∷ [] }

try_deserialize-serialize_example : try_deserialize one_and_a_byte ≡ (ok data_message, rest_of_it)
try_deserialize-serialize_example =
    try_deserialize-serialize data_message (3 ∷ []) (omega arith) (omega arith)

abbrev cut : MessageBuffer
cut = record { buffer = take 6 (serialize data_message) }

shorter : 6 < length (serialize data_message)
unfolding serialize put_uint32
shorter = omega arith

try_deserialize_partial_example : try_deserialize cut ≡ (err incomplete_payload, cut)
try_deserialize_partial_example = try_deserialize_partial data_message 6 shorter (omega arith)

abbrev empty_and_a_byte : MessageBuffer
empty_and_a_byte = record { buffer = serialize empty_message ++ (3 ∷ []) }

try_deserialize-serialize_empty_example :
    try_deserialize empty_and_a_byte ≡ (err eof, empty_and_a_byte)
try_deserialize-serialize_empty_example = try_deserialize-serialize_empty message_type_data (3 ∷ [])

refused_empty : try_deserialize empty_and_a_byte ≡ (err eof, empty_and_a_byte)
refused_empty = try_deserialize-serialize_empty message_type_data (3 ∷ [])

deserialize_command-serialize_command_example :
    let n = length (text "a.txt") % 2 ^ 16 in
    deserialize_command (serialize_command command_upload (text "a.txt") (1 ∷ 2 ∷ []))
    ≡ ok (record {
      command = command_upload;
      filename = take n (text "a.txt");
      contents = drop n (text "a.txt") ++ (1 ∷ 2 ∷ []);
    })
deserialize_command-serialize_command_example =
    deserialize_command-serialize_command command_upload (text "a.txt") (1 ∷ 2 ∷ [])

deserialize_response-serialize_response_example :
    let n = length (text "done") % 2 ^ 16 in
    deserialize_response (serialize_response true (text "done") (5 ∷ []))
    ≡ ok (record {
      success = true;
      message = take n (text "done");
      contents = drop n (text "done") ++ (5 ∷ []);
    })
deserialize_response-serialize_response_example =
    deserialize_response-serialize_response true (text "done") (5 ∷ [])

deserialize_chunk_data-serialize_chunk_data_example :
    deserialize_chunk_data (serialize_chunk_data two_chunks) ≡ ok two_chunks
deserialize_chunk_data-serialize_chunk_data_example =
    deserialize_chunk_data-serialize_chunk_data two_chunks (record {
      filename_fits = omega arith;
      index_fits = omega arith;
      total_fits = omega arith;
      size_fits = omega arith;
      total_size_fits = omega arith;
    })

abbrev sealed_text : Bytes
sealed_text = 0 ∷ 0 ∷ 0 ∷ 0 ∷ 0 ∷ 0 ∷ 0 ∷ 0 ∷ 0 ∷ 0 ∷ 0 ∷ 0 ∷ 1 ∷ 2 ∷ []

encrypted : encrypt plain_lib (1 ∷ 2 ∷ []) (9 ∷ []) empty_disk ≡ (ok sealed_text, empty_disk)
unfolding encrypt check
encrypted = refl

decrypt-encrypt_example : decrypt {W = Disk} plain_lib sealed_text (9 ∷ []) ≡ ok (1 ∷ 2 ∷ [])
decrypt-encrypt_example =
    decrypt-encrypt plain_lib plain-Documented (1 ∷ 2 ∷ []) (9 ∷ []) sealed_text empty_disk
      empty_disk encrypted
