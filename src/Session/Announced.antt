-- ===== src/Session/Announced.antt =====
-- What the server's handler of downloads leaves for the client to read.
use ssnproj.Base.{
  ◌-◌, ◌*◌, ◌^◌, ◌<◌, ◌≤◌, ◌≡◌, sym, ap, ◌∙◌, append-nil, ◌++◌, true, length, [], map, All, arith,
  ℕ, zero, suc, length-take, drop,
}
use ssnproj.Base.{Result, ok, some}
use ssnproj.Bytes.BigEndian.{Bytes}
use ssnproj.Protocol.Types.{command_download}
use ssnproj.Protocol.Chunk.{serialize_chunk_data}
use ssnproj.Protocol.Chunk.RoundTrip.{length-serialize_chunk_data}
use ssnproj.Crypto.{CryptoLib}
use ssnproj.Crypto.RoundTrip.{Documented}
use ssnproj.Effects.{Action, gets, ◌>>◌}
use ssnproj.Effects.Laws.{>>=-eq-ok, check_process-ok, then_process-eq}
use ssnproj.Server.World.{Os, CommandHandler, text}
use ssnproj.Server.Directory.{validate_path}
use ssnproj.Server.Directory.Keeps.{validate_path-Keeps}
use ssnproj.Server.Transfer.{send_file_in_chunks, chunk_message, chunk_size_of}
use ssnproj.Server.Transfer.Chunks.{chunks_from, file_chunks, chunk_size_le}
use ssnproj.Server.Transfer.Sends.{send_all, send_all-Keeps, send_file_in_chunks-eq-file_chunks}
use ssnproj.Server.Handlers.{respond, handle_download}
use ssnproj.Server.Handlers.Stored.{FileStore}
use ssnproj.Server.Connection.{secure_sender}
use ssnproj.Session.{Network}
use ssnproj.Session.Replies.{GcmSizes, Carries, Answer, respond-Answer}
use ssnproj.Session.Stream.{Waiting, send_all-Waiting}
use mathlib.Core.Path.{subst}
use ssnproj.Base.{some_injective}

chunks_small :
    (filename file_data : Bytes) (n i : ℕ)
    → length filename < 2 ^ 16
    → All (λ c. length (serialize_chunk_data c) < 2 ^ 31) (chunks_from filename file_data n i)
chunks_small filename file_data zero i named = tt
chunks_small filename file_data (suc n) i named = (
  omega (
    arith,
    length-serialize_chunk_data,
    length-take (chunk_size_of (length file_data))
        (drop (i * chunk_size_of (length file_data)) file_data),
    chunk_size_le (length file_data),
  ),
  chunks_small filename file_data n (suc i) named,
)

module _ {W : Type 0} (os : Os W) (lib : CryptoLib W) (net : Bytes → Action W (Unit {0}))
    (sha256 : Bytes → Bytes) (key : Bytes) where
  -- The handler of a file that is there announces the chunks and sends them.
  pub download_runs :
      (handler : CommandHandler) (filename contents p file_data : Bytes) (w v : W)
      → length file_data ≤ 2 ^ 32 - 2 ^ 18
      → validate_path os sha256 handler filename w ≡ (ok p, v)
      → os.read_file p v ≡ ok file_data
      → handle_download os
          (secure_sender os lib net sha256 (some key))
          sha256
          handler
          (record { command = command_download; filename = filename; contents = contents })
          w
        ≡ some (
            (do
              respond os
                  (secure_sender os lib net sha256 (some key))
                  sha256
                  true
                  (text "Starting chunked download")
              send_all
                  (secure_sender os lib net sha256 (some key))
                  (file_chunks filename file_data))
              v)
  unfolding handle_download
  download_runs handler filename contents p file_data w v fits found there =
      let sender = secure_sender os lib net sha256 (some key) in
      check_process-ok (validate_path os sha256 handler filename) _ _ w v found
      ∙ check_process-ok (gets (os.read_file p)) _ _ v v (ap (λ (r : Result Bytes). (r, v)) there)
      ∙ then_process-eq (respond os sender sha256 true (text "Starting chunked download"))
          (λ _. send_file_in_chunks sender filename file_data)
          (λ _. send_all sender (file_chunks filename file_data)) v
          (λ _ u. send_file_in_chunks-eq-file_chunks sender filename file_data u fits)

module _ {W : Type 0} (os : Os W) (lib : CryptoLib W) (net : Bytes → Action W (Unit {0}))
    (sha256 : Bytes → Bytes) (network : Network W) (key : Bytes) where
  -- After a download that was reported as done, the outbox holds the announcement and the chunks,
  -- and the server has the file still.
  pub download_replied :
      (handler : CommandHandler) (filename contents p file_data : Bytes) (w v u : W)
      → Documented lib
      → GcmSizes lib
      → Carries os lib net network
      → FileStore os (secure_sender os lib net sha256 (some key))
      → length filename < 2 ^ 16
      → length file_data ≤ 2 ^ 32 - 2 ^ 18
      → network.pending w ≡ []
      → validate_path os sha256 handler filename w ≡ (ok p, v)
      → os.read_file p v ≡ ok file_data
      → handle_download os
          (secure_sender os lib net sha256 (some key))
          sha256
          handler
          (record { command = command_download; filename = filename; contents = contents })
          w
        ≡ some (ok tt, u)
      → (rest : Bytes) × Answer lib network key true (text "Starting chunked download") rest u
        × Waiting lib key (map chunk_message (file_chunks filename file_data)) rest
        × (os.read_file p u ≡ ok file_data)
  unfolding respond
  download_replied handler filename contents p file_data w v u documented sizes carries store named
        fits empty found there done =
      let sender = secure_sender os lib net sha256 (some key) in
      let ran =
        download_runs os lib net sha256 key handler filename contents p file_data w v fits found
          there in
      let went = some_injective (sym ran ∙ done) in
      let started = respond os sender sha256 true (text "Starting chunked download") in
      let (_, x, told, sent) = >>=-eq-ok started _ v u {b = tt} went in
      let still_empty : network.pending v ≡ [] =
        subst (λ (q : Result Bytes × W). network.pending q.1 ≡ []) found
          (validate_path-Keeps os sha256 (λ v. network.pending v ≡ []) handler
            (λ k key _ v e. carries.by_mkdir _ v ∙ e) filename w empty) in
      let answer =
        respond-Answer os lib net sha256 network key _ true v x carries still_empty told in
      let (b, behind, waiting) =
        send_all-Waiting os lib net sha256 network key (file_chunks filename file_data) x u
          documented sizes carries (chunks_small filename file_data _ 0 named) sent in
      let kept =
        subst (λ (q : Result (Unit {0}) × W). os.read_file p q.1 ≡ ok file_data) told
          (store.by_send _ p v ∙ there) in
      (
        b,
        record {
          sealed = answer.sealed;
          before = answer.before;
          later = answer.later;
          encrypted = answer.encrypted;
          waits = behind ∙ ap (λ x. x ++ b) (answer.waits ∙ append-nil _);
        },
        waiting,
        subst (λ (q : Result (Unit {0}) × W). os.read_file p q.1 ≡ ok file_data) sent
            (send_all-Keeps sender (λ x. os.read_file p x ≡ ok file_data)
              (λ m x e. store.by_send m p x ∙ e) _ x kept),
      )
