-- ===== src/Server/Transfer/Overflow.antt =====
-- Files whose last chunk ends at `2 ^ 32`: the end of that chunk wraps to 0.
use ssnproj.Base.{
  ℕ, zero, suc, ◌+◌, ◌-◌, ◌%◌, ◌^◌, ◌<◌, ◌≡◌, refl, ap, Bool, ◌∙◌, length, arith, ge→ltb,
}
use ssnproj.Base.{none, ok, Option-cases, inl, inr, if◌then◌else◌, send_chunk}
use ssnproj.Bytes.BigEndian.{Bytes}
use ssnproj.Protocol.Types.{Message}
use ssnproj.Effects.{wrapping, or_crash-some, or_crash-none}
use ssnproj.Server.World.{ConnectionSender}
use ssnproj.Effects.Laws.{then_process-ok}
use ssnproj.Server.Transfer.{
  chunk_size_of, total_chunks_of, slice, chunk_start, chunk_end, chunk_message, new_chunk,
}
use ssnproj.Server.Transfer.{send_chunks, send_file_in_chunks}

large_chunks :
    (total : ℕ)
    → 2 ^ 32 - 2 ^ 18 < total
    → total < 2 ^ 32
    → (chunk_size_of total ≡ 2 ^ 18) × (total_chunks_of total ≡ 2 ^ 14)
unfolding chunk_size_of total_chunks_of
large_chunks total low high = ground arith

chunk_end_wraps : (total : ℕ) → chunk_end total (2 ^ 18) (2 ^ 14 - 1) ≡ 0
chunk_end_wraps total =
    ap (λ (b : Bool). if b then total % 2 ^ 32 else 0) (ge→ltb (total % 2 ^ 32) 0 (omega arith))

slice_backwards : (xs : Bytes) → slice (chunk_start (2 ^ 18) (2 ^ 14 - 1)) 0 xs ≡ none
unfolding slice
slice_backwards xs = refl

slice_wraps :
    (file_data : Bytes)
    → 2 ^ 32 - 2 ^ 18 < length file_data
    → length file_data < 2 ^ 32
    → let size = chunk_size_of (length file_data) in
      slice
        (chunk_start size (2 ^ 14 - 1))
        (chunk_end (length file_data) size (2 ^ 14 - 1))
        file_data
      ≡ none
slice_wraps file_data low high =
    rw ((large_chunks (length file_data) low high).0, chunk_end_wraps (length file_data))
      (slice_backwards file_data)

module _ {W : Type 0} (conn : ConnectionSender W) where
  send_chunks_crash :
      (filename file_data : Bytes) (n i : ℕ) (w : W)
      → 2 ^ 32 - 2 ^ 18 < length file_data
      → length file_data < 2 ^ 32
      → i + suc n ≡ 2 ^ 14
      → ((m : Message) (v : W) → (conn.send_secure_message m v).0 ≡ ok tt)
      → send_chunks conn filename file_data (suc n) i w ≡ none
  unfolding send_chunks wrapping
  send_chunks_crash filename file_data zero i w low high h sends =
      let last : i ≡ 2 ^ 14 - 1 = omega arith in
      rw (last, slice_wraps file_data low high, or_crash-none)
  send_chunks_crash filename file_data (suc n) i w low high h sends =
      elim (Option-cases
        (slice (chunk_start size i) (chunk_end (length file_data) size i) file_data)) [
          | inl panics ↦ rw (panics, or_crash-none)
          | inr (block, found) ↦
              let message = chunk_message (new_chunk filename i (length file_data) block) in
              rw (found, or_crash-some)
                (then_process-ok (wrapping send_chunk (conn.send_secure_message message))
                    (λ _. send_chunks conn filename file_data (suc n) (suc i)) w {a = tt}
                    (ground (arith, sends message w))
                  ∙ send_chunks_crash filename file_data n (suc i) _ low high (omega arith) sends)
        ]
    where
      size : ℕ
      size = chunk_size_of (length file_data)

  -- If every message can be sent, a file of more than `2 ^ 32 - 2 ^ 18` and less than `2 ^ 32`
  -- bytes ends in a panic.
  pub send_file_in_chunks_crash :
      (filename file_data : Bytes) (w : W)
      → 2 ^ 32 - 2 ^ 18 < length file_data
      → length file_data < 2 ^ 32
      → ((m : Message) (v : W) → (conn.send_secure_message m v).0 ≡ ok tt)
      → send_file_in_chunks conn filename file_data w ≡ none
  unfolding send_file_in_chunks
  send_file_in_chunks_crash filename file_data w low high sends =
      rw ((large_chunks (length file_data) low high).1)
        (send_chunks_crash filename file_data (2 ^ 14 - 1) 0 w low high (omega arith) sends)
