-- ===== src/Server/Transfer/Sends.antt =====
-- What `send_file_in_chunks` sends.
use ssnproj.Base.{
  ℕ, zero, suc, ◌+◌, ◌-◌, ◌*◌, ◌%◌, ◌^◌, ◌≤◌, ◌<◌, ◌≡◌, refl, ap, sym, ◌∙◌, [], ◌∷◌, List, length,
  take, drop,
}
use ssnproj.Base.{
  Bool-cases, ltb→lt, ltb-false→ge, ge→ltb, length-take, length-drop, arith, ltb, if◌then◌else◌,
  some, send_chunk, take_all, inl, inr,
}
use ssnproj.Bytes.BigEndian.{Bytes}
use ssnproj.Protocol.Types.{ChunkDataMessage}
use ssnproj.Effects.{Action, pure, wrapping, ◌>>◌, or_crash-some}
use ssnproj.Server.World.{ConnectionSender}
use ssnproj.Effects.Laws.{then_process-eq}
use ssnproj.Effects.Keeps.{Keeps, check-Keeps, wrapping-Keeps}
use ssnproj.Protocol.Types.{Message}
use ssnproj.Server.Transfer.{
  chunk_size_of, total_chunks_of, slice, chunk_start, chunk_end, chunk_message, new_chunk,
}
use ssnproj.Server.Transfer.{send_chunks, send_file_in_chunks}
use ssnproj.Server.Transfer.Blocks.{IsTransfer, file_chunks-IsTransfer}
use ssnproj.Server.Transfer.Chunks.{chunk_at, chunks_from, file_chunks, chunk_begins, chunk_size_le}

slice_in_range :
    (xs : Bytes) (s size : ℕ)
    → length xs ≤ 2 ^ 32 - 2 ^ 18
    → s < length xs
    → size ≤ 2 ^ 18
    → slice
        (s % 2 ^ 32)
        (if ltb (length xs % 2 ^ 32) ((s % 2 ^ 32 + size) % 2 ^ 32)
          then length xs % 2 ^ 32
          else (s % 2 ^ 32 + size) % 2 ^ 32)
        xs
      ≡ some (take size (drop s xs))
unfolding slice
slice_in_range xs s size fits begins small =
    let start : s % 2 ^ 32 ≡ s = omega arith in
    let total : length xs % 2 ^ 32 ≡ length xs = omega arith in
    let end : (s + size) % 2 ^ 32 ≡ s + size = omega arith in
    let left : length (drop s xs) ≡ length xs - s = length-drop s xs in
    rw (start, total, end)
      (elim (Bool-cases (ltb (length xs) (s + size))) [
        | inl last ↦
            let short : length xs < s + size = ltb→lt _ _ last in
            rw
              (
                last,
                ge→ltb (length xs) s (omega arith),
                ge→ltb (length xs) (length xs) (omega arith),
              )
              (ap some (
                take_all (length xs - s) (drop s xs) (omega arith)
                ∙ sym (take_all size (drop s xs) (omega arith))))
        | inr full ↦
            let room : s + size ≤ length xs = ltb-false→ge _ _ full in
            let width : s + size - s ≡ size = omega arith in
            rw (full, ge→ltb (s + size) s (omega arith), full, width)
      ])

-- Up to `2 ^ 32 - 2 ^ 18` bytes the offsets do not wrap, and the slice is the block.
slice_block :
    (file_data : Bytes) (i : ℕ)
    → length file_data ≤ 2 ^ 32 - 2 ^ 18
    → i < total_chunks_of (length file_data)
    → let size = chunk_size_of (length file_data) in
      slice (chunk_start size i) (chunk_end (length file_data) size i) file_data
      ≡ some (take size (drop (i * size) file_data))
slice_block file_data i fits h =
    slice_in_range file_data _ _ fits (chunk_begins (length file_data) i (omega arith) h)
      (chunk_size_le (length file_data)).1

new_chunk-eq-chunk_at :
    (filename file_data : Bytes) (i : ℕ)
    → let size = chunk_size_of (length file_data) in
      new_chunk filename i (length file_data) (take size (drop (i * size) file_data))
      ≡ chunk_at filename file_data i
new_chunk-eq-chunk_at filename file_data i =
    let size = chunk_size_of (length file_data) in
    let block = take size (drop (i * size) file_data) in
    let small : length block % 2 ^ 32 ≡ length block =
      omega
        (arith, length-take size (drop (i * size) file_data), chunk_size_le (length file_data)) in
    ap (λ (k : ℕ). record (chunk_at filename file_data i) { chunk_size = k }) small

module _ {W : Type 0} (conn : ConnectionSender W) where
  -- One message after the other, up to the first that fails.
  abbrev pub send_all : List ChunkDataMessage → Action W (Unit {0})
  send_all [] = pure tt
  send_all (c ∷ cs) = do
    wrapping send_chunk (conn.send_secure_message (chunk_message c))
    send_all cs

  pub send_all-Keeps :
      (P : W → Type 0)
      → ((m : Message) → Keeps P (conn.send_secure_message m))
      → (cs : List ChunkDataMessage) → Keeps P (send_all cs)
  send_all-Keeps P sends [] = λ w p. p
  send_all-Keeps P sends (c ∷ cs) =
      check-Keeps P _ _ _ (wrapping-Keeps P send_chunk _ (sends (chunk_message c))) (λ e w p. p)
        (λ _ _ v _ p. send_all-Keeps P sends cs v p)

  send_chunks-eq-send_all :
      (filename file_data : Bytes) (n i : ℕ) (w : W)
      → length file_data ≤ 2 ^ 32 - 2 ^ 18
      → i + n ≤ total_chunks_of (length file_data)
      → send_chunks conn filename file_data n i w
        ≡ some (send_all (chunks_from filename file_data n i) w)
  unfolding send_chunks
  send_chunks-eq-send_all filename file_data zero i w fits h = refl
  send_chunks-eq-send_all filename file_data (suc n) i w fits h =
      rw
        (
          slice_block file_data i fits (omega arith),
          or_crash-some,
          new_chunk-eq-chunk_at filename file_data i,
        )
        (then_process-eq
          (wrapping send_chunk
            (conn.send_secure_message (chunk_message (chunk_at filename file_data i))))
          (λ _. send_chunks conn filename file_data n (suc i))
          (λ _. send_all (chunks_from filename file_data n (suc i))) w
          (λ _ v. send_chunks-eq-send_all filename file_data n (suc i) v fits (omega arith)))

  pub send_file_in_chunks-eq-file_chunks :
      (filename file_data : Bytes) (w : W)
      → length file_data ≤ 2 ^ 32 - 2 ^ 18
      → send_file_in_chunks conn filename file_data w
        ≡ some (send_all (file_chunks filename file_data) w)
  unfolding send_file_in_chunks
  send_file_in_chunks-eq-file_chunks filename file_data w fits =
      send_chunks-eq-send_all filename file_data (total_chunks_of (length file_data)) 0 w fits
        (omega arith)

  -- A file of up to `2 ^ 32 - 2 ^ 18` bytes goes out as a list of chunks in order, one message each,
  -- up to the first that cannot be sent; nothing panics. The chunks are numbered from 0, each says
  -- the name, how many they are, its own length and the length of the file; their contents together
  -- are the file; each but the last has 64 KiB, or 128 KiB from 256 KiB of file on, or 256 KiB from
  -- 5 MiB on, and the last has some bytes and no more than that.
  pub send_file_in_chunks-eq-send_all :
      (filename file_data : Bytes) (w : W)
      → length file_data ≤ 2 ^ 32 - 2 ^ 18
      → (chunks : List ChunkDataMessage) × IsTransfer filename file_data chunks
        × (send_file_in_chunks conn filename file_data w ≡ some (send_all chunks w))
  send_file_in_chunks-eq-send_all filename file_data w fits = (
    file_chunks filename file_data,
    file_chunks-IsTransfer filename file_data (omega arith),
    send_file_in_chunks-eq-file_chunks filename file_data w fits,
  )
