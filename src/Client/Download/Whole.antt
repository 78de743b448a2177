-- ===== src/Client/Download/Whole.antt =====
-- A file that the server sends in chunks arrives whole.
use ssnproj.Base.{ℕ, suc, ◌+◌, ◌-◌, ◌≡◌, sym, ap, ◌∙◌, List, [], ◌∷◌, ◌++◌, map, length, All, arith}
use ssnproj.Paths.{bytes_eq}
use ssnproj.Base.{Bool, if◌then◌else◌, filename_mismatch}
use ssnproj.Base.{==_refl, append_assoc, append-nil, Result, ok, some}
use ssnproj.Bytes.BigEndian.{Bytes}
use ssnproj.Protocol.Types.{Message, ChunkDataMessage}
use ssnproj.Protocol.Chunk.RoundTrip.{Fits, deserialize_chunk_data-serialize_chunk_data}
use ssnproj.Paths.Names.{bytes_eq_refl}
use ssnproj.Effects.{Action, wrapping, pure, raise, gets, ◌>>=◌}
use ssnproj.Effects.Laws.{>>=-ok, wrapping-ok}
use ssnproj.Base.{receive_chunk, parse_chunk, write_chunk, file_info, create_output}
use ssnproj.Protocol.Chunk.{serialize_chunk_data, deserialize_chunk_data}
use ssnproj.Server.Transfer.{chunk_message}
use ssnproj.Server.Transfer.Chunks.{joined}
use ssnproj.Client.Download.{
  ClientOs, Progress, no_chunks, next_chunk, on_chunk, receive_rest, after_first, receive_chunks,
  verify_download, closing, receive_file_chunks,
}

-- A world in which the messages that `Inbox` tells of arrive one after the other, and an open file
-- holds what was written to it.
pub record Channel {W : Type 0} (os : ClientOs W) (receive : Action W Message)
    (Inbox : W → List Message → Type 0) (held : ℕ → W → Bytes) : Type 0 where
  pub received :
      (m : Message) (ms : List Message) (w : W)
      → Inbox w (m ∷ ms)
      → (v : W) × (receive w ≡ (ok m, v)) × Inbox v ms × ((f : ℕ) → held f v ≡ held f w)
  pub created :
      (path : Bytes) (ms : List Message) (w : W)
      → Inbox w ms
      → (f : ℕ) × (v : W) × (os.create path w ≡ (ok f, v)) × Inbox v ms × (held f v ≡ [])
  pub appended :
      (f : ℕ) (xs : Bytes) (ms : List Message) (w : W)
      → Inbox w ms
      → (v : W) × (os.append f xs w ≡ (ok tt, v)) × Inbox v ms × (held f v ≡ held f w ++ xs)
  pub sized : (f : ℕ) (w : W) → os.size f w ≡ ok (length (held f w))
  pub closed_kept :
      (f : ℕ) (ms : List Message) (w : W)
      → Inbox w ms
      → Inbox (os.close f w).1 ms × (held f (os.close f w).1 ≡ held f w)

-- The chunks of a transfer under a name, with fields that fit.
abbrev pub IsOf : Bytes → ChunkDataMessage → Type 0
IsOf filename c = Fits c × (c.filename ≡ filename)

module _ {W : Type 0} (os : ClientOs W) (receive : Action W Message)
    (Inbox : W → List Message → Type 0) (held : ℕ → W → Bytes)
    (channel : Channel os receive Inbox held) where
  next_chunk_lem :
      (filename : Bytes) (c : ChunkDataMessage) (ms : List Message) (w : W)
      → IsOf filename c
      → Inbox w (chunk_message c ∷ ms)
      → (v : W) × (next_chunk os receive filename w ≡ (ok (some c), v))
        × Inbox v ms
        × ((f : ℕ) → held f v ≡ held f w)
  unfolding next_chunk
  next_chunk_lem filename c ms w (fits, named) e =
      let (v, got, left, kept) = channel.received (chunk_message c) ms w e in
      let parsed = deserialize_chunk_data-serialize_chunk_data c fits in
      (
        v,
        >>=-ok (wrapping receive_chunk receive) _ w v (wrapping-ok receive_chunk receive w v got)
            ∙ >>=-ok
                (wrapping parse_chunk (gets (λ _. deserialize_chunk_data (serialize_chunk_data c))))
                _ v v
                (wrapping-ok parse_chunk _ v v
                  (ap (λ (r : Result ChunkDataMessage). (r, v)) parsed))
            ∙ ap (λ (b : Bool). (if b then pure (some c) else raise filename_mismatch) v)
                (ap (λ n. bytes_eq n filename) named ∙ bytes_eq_refl filename),
        left,
        kept,
      )

  -- A chunk that arrives is written, and the loop goes on behind it.
  chunk_written :
      (filename : Bytes) (f : ℕ) (p : Progress) (go : ChunkDataMessage → Action W Progress)
      (c : ChunkDataMessage) (ms : List Message) (w : W)
      → IsOf filename c
      → Inbox w (chunk_message c ∷ ms)
      → (v : W) × ((next_chunk os receive filename >>= on_chunk os receive f p go) w ≡ go c v)
        × Inbox v ms
        × (held f v ≡ held f w ++ c.contents)
  chunk_written filename f p go c ms w of_file e =
      let (u, got, left, kept) = next_chunk_lem filename c ms w of_file e in
      let (v, wrote, still, more) = channel.appended f c.contents ms u left in
      (
        v,
        >>=-ok (next_chunk os receive filename) (on_chunk os receive f p go) w u got
            ∙ >>=-ok (wrapping write_chunk (os.append f c.contents)) (λ _. go c) u v
                (wrapping-ok write_chunk (os.append f c.contents) u v wrote),
        still,
        more ∙ ap (λ (b : Bytes). b ++ c.contents) (kept f),
      )

  receive_rest-All :
      (filename : Bytes) (f : ℕ) (p : Progress) (cs : List ChunkDataMessage) (ms : List Message)
      (w : W)
      → All (IsOf filename) cs
      → Inbox w (map chunk_message cs ++ ms)
      → (v : W) × (receive_rest os receive filename f (length cs) p w
          ≡ (ok (record p { count = length cs + p.count }), v))
        × Inbox v ms
        × (held f v ≡ held f w ++ joined cs)
  unfolding receive_rest
  receive_rest-All filename f p [] ms w h e = (
    w,
    ap (λ (n : ℕ). (ok (record p { count = n }), w)) {x = p.count} {y = 0 + p.count} (omega arith),
    e,
    sym (append-nil (held f w)),
  )
  receive_rest-All filename f p (c ∷ cs) ms w (hc, h) e =
      let (u, went, left, held_u) =
        chunk_written filename f p
          (λ _. receive_rest os receive filename f (length cs) (record p { count = suc p.count })) c
          (map chunk_message cs ++ ms) w hc e in
      let (v, ended, rest, held_v) =
        receive_rest-All filename f (record p { count = suc p.count }) cs ms u h left in
      let counted : length cs + suc p.count ≡ suc (length cs) + p.count = omega arith in
      (
        v,
        went ∙ ended ∙ ap (λ (n : ℕ). (ok (record p { count = n }), v)) counted,
        rest,
        held_v
            ∙ ap (λ (b : Bytes). b ++ joined cs) held_u
            ∙ append_assoc (held f w) c.contents (joined cs),
      )

  received_whole :
      (filename : Bytes) (f : ℕ) (c : ChunkDataMessage) (cs : List ChunkDataMessage)
      (ms : List Message) (w : W)
      → All (IsOf filename) (c ∷ cs)
      → c.total_chunks ≡ suc (length cs)
      → Inbox w (map chunk_message (c ∷ cs) ++ ms)
      → (v : W) × (receive_chunks os receive filename f w ≡ (
        ok (record {
          count = length cs + 1;
          total_chunks = c.total_chunks;
          total_size = c.total_size;
        }),
        v,
      ))
        × Inbox v ms
        × (held f v ≡ held f w ++ joined (c ∷ cs))
  unfolding receive_chunks
  received_whole filename f c cs ms w (hc, h) counted e =
      let (u, went, left, held_u) =
        chunk_written filename f no_chunks (after_first os receive filename f) c
          (map chunk_message cs ++ ms) w hc e in
      let first : Progress = record {
        count = 1;
        total_chunks = c.total_chunks;
        total_size = c.total_size;
      } in
      let (v, ended, rest, held_v) = receive_rest-All filename f first cs ms u h left in
      let still : c.total_chunks - 1 ≡ length cs = omega arith in
      (
        v,
        went ∙ ap (λ (n : ℕ). receive_rest os receive filename f n first u) still ∙ ended,
        rest,
        held_v
            ∙ ap (λ (b : Bytes). b ++ joined cs) held_u
            ∙ append_assoc (held f w) c.contents (joined cs),
      )

  verified :
      (f : ℕ) (p : Progress) (w : W)
      → p.count ≡ p.total_chunks
      → p.total_size ≡ length (held f w)
      → verify_download os receive f p w ≡ (ok tt, w)
  unfolding verify_download
  verified f p w counted sized =
      let size : os.size f w ≡ ok p.total_size = channel.sized f w ∙ ap ok (sym sized) in
      rw (counted, ==_refl p.total_chunks)
        (>>=-ok (wrapping file_info (gets (os.size f))) _ w w
            (wrapping-ok file_info (gets (os.size f)) w w (ap (λ (r : Result ℕ). (r, w)) size))
          ∙ rw (==_refl p.total_size))

  -- The chunks of one file, sent by whoever, as the client saves them.
  pub saved :
      (filename output_path : Bytes) (c : ChunkDataMessage) (cs : List ChunkDataMessage)
      (ms : List Message) (w : W)
      → All (IsOf filename) (c ∷ cs)
      → c.total_chunks ≡ suc (length cs)
      → c.total_size ≡ length (joined (c ∷ cs))
      → Inbox w (map chunk_message (c ∷ cs) ++ ms)
      → (f : ℕ) × (v : W) × ((os.create output_path w).0 ≡ ok f)
        × (receive_file_chunks os receive filename output_path w ≡ (ok tt, v))
        × (held f v ≡ joined (c ∷ cs))
        × Inbox v ms
  unfolding receive_file_chunks closing
  saved filename output_path c cs ms w h counted sized e =
      let (f, u, made, still, empty) =
        channel.created output_path (map chunk_message (c ∷ cs) ++ ms) w e in
      let (v, got, left, whole) = received_whole filename f c cs ms u h counted still in
      let all : held f v ≡ joined (c ∷ cs) =
        whole ∙ ap (λ (b : Bytes). b ++ joined (c ∷ cs)) empty in
      let checked =
        >>=-ok (receive_chunks os receive filename f) (verify_download os receive f) u v got
        ∙ verified f _ v (omega (arith, counted)) (sized ∙ ap length (sym all)) in
      (
        f,
        (os.close f v).1,
        ap (λ (q : Result ℕ × W). q.0) made,
        >>=-ok (wrapping create_output (os.create output_path)) _ w u
              (wrapping-ok create_output (os.create output_path) w u made)
            ∙ ap (λ (q : Result (Unit {0}) × W). (q.0, (os.close f q.1).1)) checked,
        (channel.closed_kept f ms v left).1 ∙ all,
        (channel.closed_kept f ms v left).0,
      )
