-- ===== src/Client/Download/Kept.antt =====
-- What the receipt of a file keeps, once the output file is there.
use ssnproj.Base.{ℕ, zero, suc, ◌-◌, ◌≡◌, Bool, true, false, ◌==◌, if◌then◌else◌}
use ssnproj.Base.{
  Option, none, some, Result, ok, receive_chunk, parse_chunk, write_chunk, file_info, create_output,
}
use ssnproj.Bytes.BigEndian.{Bytes}
use ssnproj.Paths.{bytes_eq}
use ssnproj.Protocol.Types.{Message, ChunkDataMessage, message_type_data}
use ssnproj.Protocol.Chunk.{deserialize_chunk_data}
use ssnproj.Effects.{Action, gets, wrapping, ◌>>=◌}
use ssnproj.Effects.Laws.{>>=-ok, wrapping-ok}
use ssnproj.Effects.Keeps.{Keeps, check-Keeps, wrapping-Keeps}
use ssnproj.Client.Download.{
  ClientOs, Progress, no_chunks, next_chunk, on_chunk, receive_rest, after_first, receive_chunks,
  verify_download, closing, receive_file_chunks,
}

module _ {W : Type 0} (P : W → Type 0) where
  if-Keeps :
      {A : Type 0} (b : Bool) (m n : Action W A)
      → Keeps P m
      → Keeps P n
      → Keeps P (if b then m else n)
  if-Keeps true m n hm hn = hm
  if-Keeps false m n hm hn = hn

  gets_kept : {A : Type 0} (r : W → Result A) → Keeps P (gets r)
  gets_kept r w p = p

  pub bound-Keeps :
      {A B : Type 0} (m : Action W A) (k : A → Action W B)
      → Keeps P m
      → ((a : A) → Keeps P (k a))
      → Keeps P (m >>= k)
  bound-Keeps m k hm hk = check-Keeps P m _ k hm (λ e w p. p) (λ a _ v _ p. hk a v p)

module _ {W : Type 0} (os : ClientOs W) (receive : Action W Message) (P : W → Type 0) (f : ℕ)
    (receives : Keeps P receive) (appends : (xs : Bytes) → Keeps P (os.append f xs)) where
  next_chunk-Keeps : (filename : Bytes) → Keeps P (next_chunk os receive filename)
  unfolding next_chunk
  next_chunk-Keeps filename =
      bound-Keeps P (wrapping receive_chunk receive) _
        (wrapping-Keeps P receive_chunk receive receives)
        (λ m.
          if-Keeps P (m.kind == message_type_data) _ _
            (bound-Keeps P (wrapping parse_chunk (gets (λ _. deserialize_chunk_data m.payload))) _
              (wrapping-Keeps P parse_chunk _ (gets_kept P (λ _. deserialize_chunk_data m.payload)))
              (λ c. if-Keeps P (bytes_eq c.filename filename) _ _ (λ w p. p) (λ w p. p)))
            (if-Keeps P _ _ _ (λ w p. p) (λ w p. p)))

  on_chunk-Keeps :
      (p : Progress) (go : ChunkDataMessage → Action W Progress)
      → ((c : ChunkDataMessage) → Keeps P (go c))
      → (o : Option ChunkDataMessage) → Keeps P (on_chunk os receive f p go o)
  on_chunk-Keeps p go h none = λ w q. q
  on_chunk-Keeps p go h (some c) =
      bound-Keeps P (wrapping write_chunk (os.append f c.contents)) (λ _. go c)
        (wrapping-Keeps P write_chunk _ (appends c.contents)) (λ _. h c)

  receive_rest-Keeps :
      (filename : Bytes) (left : ℕ) (p : Progress)
      → Keeps P (receive_rest os receive filename f left p)
  unfolding receive_rest
  receive_rest-Keeps filename zero p = λ w q. q
  receive_rest-Keeps filename (suc left) p =
      bound-Keeps P (next_chunk os receive filename) _ (next_chunk-Keeps filename) (
        on_chunk-Keeps p _
          (λ _. receive_rest-Keeps filename left (record p { count = suc p.count })))

  receive_chunks-Keeps : (filename : Bytes) → Keeps P (receive_chunks os receive filename f)
  unfolding receive_chunks
  receive_chunks-Keeps filename =
      bound-Keeps P (next_chunk os receive filename) _ (next_chunk-Keeps filename) (
        on_chunk-Keeps no_chunks (after_first os receive filename f)
          (λ c. receive_rest-Keeps filename (c.total_chunks - 1) _))

  verify_download-Keeps : (p : Progress) → Keeps P (verify_download os receive f p)
  unfolding verify_download
  verify_download-Keeps p =
      if-Keeps P (p.count == p.total_chunks) _ _
        (bound-Keeps P (wrapping file_info (gets (os.size f))) _
          (wrapping-Keeps P file_info _ (gets_kept P (os.size f)))
          (λ size. if-Keeps P (size == p.total_size) _ _ (λ w q. q) (λ w q. q)))
        (λ w q. q)

  -- What holds of the file that `create` made for the output path holds in the end.
  pub receive_file_chunks_kept :
      (filename output_path : Bytes) (w u : W)
      → ((v : W) → P v → P (os.close f v).1)
      → os.create output_path w ≡ (ok f, u)
      → P u
      → P (receive_file_chunks os receive filename output_path w).1
  unfolding receive_file_chunks closing
  receive_file_chunks_kept filename output_path w u closes made p =
      rw
        (>>=-ok (wrapping create_output (os.create output_path)) _ w u
          (wrapping-ok create_output (os.create output_path) w u made))
        (closes _ (
          bound-Keeps P (receive_chunks os receive filename f) (verify_download os receive f)
            (receive_chunks-Keeps filename) verify_download-Keeps u p))
