-- ===== src/Client/Download.antt =====
-- pkg/client/client.go: `receiveFileChunks`, over the call that receives a message.
pub mod Whole
pub mod FileChunks
pub mod Kept
use ssnproj.Base.{
  ℕ, zero, suc, ◌-◌, Bool, true, false, ◌&&◌, ◌==◌, if◌then◌else◌, Option, none, some, length,
}
use ssnproj.Base.{
  Result, Error, ok, err, unexpected_type, filename_mismatch, incomplete_download, size_mismatch,
}
use ssnproj.Base.{create_output, receive_chunk, parse_chunk, write_chunk, file_info}
use ssnproj.Bytes.BigEndian.{Bytes}
use ssnproj.Protocol.Types.{
  Message, ResponseMessage, ChunkDataMessage, message_type_data, message_type_response,
}
use ssnproj.Protocol.Response.{deserialize_response}
use ssnproj.Protocol.Chunk.{deserialize_chunk_data}
use ssnproj.Paths.{bytes_eq}
use ssnproj.Effects.{Action, pure, raise, gets, wrapping, ◌>>=◌, ◌>>◌}

-- The calls of package `os`. An open file is a number: `Create` returns one, `Write` puts bytes
-- behind those that the file has, `Stat` is for the size.
pub record ClientOs (W : Type 0) : Type 0 where
  pub read_local : Bytes → W → Result Bytes
  pub create : Bytes → Action W ℕ
  pub append : ℕ → Bytes → Action W (Unit {0})
  pub size : ℕ → W → Result ℕ
  pub close : ℕ → Action W (Unit {0})

-- What the loop keeps: how many chunks there are, and what the first of them said.
pub record Progress : Type 0 where
  pub count : ℕ
  pub total_chunks : ℕ
  pub total_size : ℕ

abbrev pub no_chunks : Progress
no_chunks = record { count = 0; total_chunks = 0; total_size = 0 }

-- Whether a response says that the download is complete.
abbrev is_completion : Result ResponseMessage → Bool
is_completion (ok resp_msg) = resp_msg.success
is_completion (err e) = false

module _ {W : Type 0} (os : ClientOs W) (receive : Action W Message) where
  -- A message of the transfer: a chunk of the file, or `none` for a response that ends it.
  unfoldable pub next_chunk : Bytes → Action W (Option ChunkDataMessage)
  next_chunk filename = do
    chunk_msg ← wrapping receive_chunk receive
    if chunk_msg.kind == message_type_data
        then (do
          chunk ← wrapping parse_chunk (gets (λ _. deserialize_chunk_data chunk_msg.payload))
          if bytes_eq chunk.filename filename then pure (some chunk) else raise filename_mismatch)
        else (if (chunk_msg.kind == message_type_response)
              && is_completion (deserialize_response chunk_msg.payload)
            then pure none
            else raise (unexpected_type chunk_msg.kind))

  -- The data of a chunk goes to the file, and the loop goes on.
  abbrev on_chunk :
      ℕ
      → Progress
      → (ChunkDataMessage → Action W Progress)
      → Option ChunkDataMessage
      → Action W Progress
  on_chunk file progress go none = pure progress
  on_chunk file progress go (some chunk) = do
    wrapping write_chunk (os.append file chunk.contents)
    go chunk

  -- The rounds behind the first chunk, with the number of chunks that are still to come.
  unfoldable pub receive_rest : Bytes → ℕ → ℕ → Progress → Action W Progress
  receive_rest filename file zero progress = pure progress
  receive_rest filename file (suc left) progress = do
    chunk ← next_chunk filename
    on_chunk file progress
        (λ _. receive_rest filename file left (record progress { count = suc progress.count }))
        chunk

  abbrev after_first : Bytes → ℕ → ChunkDataMessage → Action W Progress
  after_first filename file chunk =
      receive_rest filename file (chunk.total_chunks - 1)
        (record { count = 1; total_chunks = chunk.total_chunks; total_size = chunk.total_size })

  unfoldable pub receive_chunks : Bytes → ℕ → Action W Progress
  receive_chunks filename file = do
    chunk ← next_chunk filename
    on_chunk file no_chunks (after_first filename file) chunk

  unfoldable pub verify_download : ℕ → Progress → Action W (Unit {0})
  verify_download file progress =
      if progress.count == progress.total_chunks
      then (do
        size ← wrapping file_info (gets (os.size file))
        if size == progress.total_size then pure tt else raise size_mismatch)
      else raise incomplete_download

  -- The deferred `Close`, whose error is dropped.
  unfoldable pub closing : {A : Type 0} → ℕ → Action W A → Action W A
  closing file m w = let (r, w') = m w in (r, (os.close file w').1)

  unfoldable pub receive_file_chunks : Bytes → Bytes → Action W (Unit {0})
  receive_file_chunks filename output_path = do
    file ← wrapping create_output (os.create output_path)
    closing file (receive_chunks filename file >>= verify_download file)
