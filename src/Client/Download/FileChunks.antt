-- ===== src/Client/Download/FileChunks.antt =====
-- The chunks that `sendFileInChunks` makes of a file, received by the client.
use ssnproj.Base.{
  ℕ, zero, suc, ◌+◌, ◌*◌, ◌^◌, ◌<◌, ◌≤◌, ◌≡◌, refl, sym, ap, ◌∙◌, List, ◌++◌, map, length,
  length-take, drop, All, arith, ok,
}
use ssnproj.Bytes.BigEndian.{Bytes}
use ssnproj.Protocol.Types.{Message}
use ssnproj.Effects.{Action}
use ssnproj.Server.Transfer.{chunk_message, chunk_size_of, total_chunks_of}
use ssnproj.Server.Transfer.Chunks.{
  chunk_at, chunks_from, file_chunks, joined, joined-file_chunks, length-chunks_from, chunk_size_le,
  chunks_reach_end,
}
use ssnproj.Client.Download.{ClientOs, receive_file_chunks}
use ssnproj.Client.Download.Whole.{Channel, IsOf, saved}

total_chunks_fit : (total : ℕ) → total_chunks_of total < 2 ^ 32
unfolding total_chunks_of
total_chunks_fit total = omega arith

chunk_at-IsOf :
    (filename file_data : Bytes) (i : ℕ)
    → length filename < 2 ^ 16
    → length file_data < 2 ^ 64
    → i < 2 ^ 32
    → IsOf filename (chunk_at filename file_data i)
chunk_at-IsOf filename file_data i named sized h = (
  record {
    filename_fits = named;
    index_fits = h;
    total_fits = total_chunks_fit (length file_data);
    size_fits = omega (
      arith,
      length-take (chunk_size_of (length file_data))
          (drop (i * chunk_size_of (length file_data)) file_data),
      chunk_size_le (length file_data),
    );
    total_size_fits = sized;
  },
  refl,
)

chunks_from-IsOf :
    (filename file_data : Bytes) (n i : ℕ)
    → length filename < 2 ^ 16
    → length file_data < 2 ^ 64
    → i + n ≤ 2 ^ 32
    → All (IsOf filename) (chunks_from filename file_data n i)
chunks_from-IsOf filename file_data zero i named sized h = tt
chunks_from-IsOf filename file_data (suc n) i named sized h = (
  chunk_at-IsOf filename file_data i named sized (omega arith),
  chunks_from-IsOf filename file_data n (suc i) named sized (omega arith),
)

some_chunk : (total : ℕ) → 0 < total → total < 2 ^ 32 → 0 < total_chunks_of total
some_chunk total some_bytes fits = grind (arith, chunks_reach_end total fits)

module _ {W : Type 0} (os : ClientOs W) (receive : Action W Message)
    (Inbox : W → List Message → Type 0) (held : ℕ → W → Bytes)
    (channel : Channel os receive Inbox held) where
  saved_chunks :
      (filename output_path file_data : Bytes) (n : ℕ) (ms : List Message) (w : W)
      → n ≡ total_chunks_of (length file_data)
      → length filename < 2 ^ 16
      → 0 < length file_data
      → length file_data < 2 ^ 32
      → joined (chunks_from filename file_data n 0) ≡ file_data
      → Inbox w (map chunk_message (chunks_from filename file_data n 0) ++ ms)
      → (f : ℕ) × (v : W) × ((os.create output_path w).0 ≡ ok f)
        × (receive_file_chunks os receive filename output_path w ≡ (ok tt, v))
        × (held f v ≡ joined (chunks_from filename file_data n 0))
        × Inbox v ms
  saved_chunks filename output_path file_data zero ms w same named some_bytes fits all e =
      absurd (omega (arith, some_chunk (length file_data) some_bytes fits))
  saved_chunks filename output_path file_data (suc n) ms w same named some_bytes fits all e =
      saved os receive Inbox held channel filename output_path (chunk_at filename file_data 0)
        (chunks_from filename file_data n 1) ms w
        (chunks_from-IsOf filename file_data (suc n) 0 named (omega arith)
          (omega (arith, total_chunks_fit (length file_data))))
        (sym same ∙ ap suc (sym (length-chunks_from filename file_data n 1))) (ap length (sym all))
        e

  -- If the chunks of a file of 1 to `2 ^ 32 - 1` bytes arrive in order, under the name that was
  -- asked for, of less than `2 ^ 16` bytes, the client's download succeeds, the output file holds
  -- the file, and what arrived behind the chunks is not touched. Calls on the output file are taken
  -- to succeed.
  pub receive_file_chunks-file_chunks :
      (filename output_path file_data : Bytes) (ms : List Message) (w : W)
      → length filename < 2 ^ 16
      → 0 < length file_data
      → length file_data < 2 ^ 32
      → Inbox w (map chunk_message (file_chunks filename file_data) ++ ms)
      → (f : ℕ) × (v : W) × ((os.create output_path w).0 ≡ ok f)
        × (receive_file_chunks os receive filename output_path w ≡ (ok tt, v))
        × (held f v ≡ file_data)
        × Inbox v ms
  receive_file_chunks-file_chunks filename output_path file_data ms w named some_bytes fits e =
      let all = joined-file_chunks filename file_data fits in
      let (f, v, made, got, held_v, left) =
        saved_chunks filename output_path file_data (total_chunks_of (length file_data)) ms w refl
          named some_bytes fits all e in
      (f, v, made, got, held_v ∙ all, left)
