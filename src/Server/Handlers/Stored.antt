-- ===== src/Server/Handlers/Stored.antt =====
-- A file that was uploaded comes back.
use ssnproj.Base.{
  true, ◌≡◌, ◌≤◌, ◌-◌, ◌^◌, refl, ap, ◌∙◌, Result, Error, ok, err, some, length, arith, List,
}
use ssnproj.Bytes.BigEndian.{Bytes}
use ssnproj.Protocol.Types.{Message, CommandMessage, ChunkDataMessage}
use ssnproj.Effects.{gets, ◌>>◌, check, ignoring}
use ssnproj.Server.World.{Os, ConnectionSender, CommandHandler, text}
use ssnproj.Effects.Laws.{check-eq-ok, check_process-ok, then_process-eq}
use ssnproj.Server.Directory.{validate_path}
use ssnproj.Server.Directory.Keeps.{validate_path-Keeps}
use mathlib.Core.Path.{subst}
use ssnproj.Server.Transfer.{send_file_in_chunks}
use ssnproj.Server.Transfer.Blocks.{IsTransfer, file_chunks-IsTransfer}
use ssnproj.Server.Transfer.Chunks.{file_chunks}
use ssnproj.Server.Transfer.Sends.{send_all, send_file_in_chunks-eq-file_chunks}
use ssnproj.Server.Handlers.{respond, refuse, handle_upload, handle_download}

-- A file that was written holds what was written, also after a message was sent and a directory
-- was made that is there already.
pub record FileStore {W : Type 0} (os : Os W) (conn : ConnectionSender W) : Type 0 where
  pub by_send :
      (m : Message) (q : Bytes) (w : W)
      → os.read_file q (conn.send_secure_message m w).1 ≡ os.read_file q w
  pub by_mkdir :
      (d q contents : Bytes) (w : W)
      → os.read_file q w ≡ ok contents
      → os.read_file q (os.mkdir_all d w).1 ≡ ok contents
  pub written :
      (p contents : Bytes) (w : W)
      → (os.write_file p contents w).0 ≡ ok tt
      → os.read_file p (os.write_file p contents w).1 ≡ ok contents

module _ {W : Type 0} (os : Os W) (conn : ConnectionSender W) (sha256 : Bytes → Bytes) where
  validate_path-keeps_file :
      (handler : CommandHandler) (filename p contents : Bytes) (w w' : W)
      → FileStore os conn
      → validate_path os sha256 handler filename w ≡ (ok p, w')
      → os.read_file p w ≡ ok contents
      → os.read_file p w' ≡ ok contents
  validate_path-keeps_file handler filename p contents w w' store e held =
      let P : W → Type 0 = λ v. os.read_file p v ≡ ok contents in
      subst (λ q. P q.1) e
        (validate_path-Keeps os sha256 P handler (λ k key _ v h. store.by_mkdir _ p contents v h)
          filename w held)

  pub refuse_fails :
      (message : Bytes) (e : Error) (v : W) → (refuse os conn sha256 message e v).0 ≡ err e
  unfolding refuse check ignoring
  refuse_fails message e v = refl

  -- What an upload that was reported as done leaves in the file that its name stands for.
  pub uploaded :
      (handler : CommandHandler) (c : CommandMessage) (p : Bytes) (w w₁ w₂ : W)
      → FileStore os conn
      → validate_path os sha256 handler c.filename w ≡ (ok p, w₁)
      → handle_upload os conn sha256 handler c w ≡ (ok tt, w₂)
      → os.read_file p w₂ ≡ ok c.contents
  unfolding handle_upload respond
  uploaded handler c p w w₁ w₂ store found done =
      let (q, v, found', rest) =
        check-eq-ok (validate_path os sha256 handler c.filename) _ _ w w₂ {b = tt} (refuse_fails _)
          done in
      let (_, u, wrote, sent) =
        check-eq-ok (os.write_file q c.contents) _ _ v w₂ {b = tt} (refuse_fails _) rest in
      let same_path : q ≡ p = cc in
      let held : os.read_file q u ≡ ok c.contents =
        subst (λ (s : W). os.read_file q s ≡ ok c.contents)
          (ap (λ (s : Result (Unit {0}) × W). s.1) wrote)
          (store.written q c.contents v (ap (λ (s : Result (Unit {0}) × W). s.0) wrote)) in
      let after : os.read_file q w₂ ≡ os.read_file q u =
        subst (λ (s : W). os.read_file q s ≡ os.read_file q u)
          (ap (λ (s : Result (Unit {0}) × W). s.1) sent) (store.by_send _ q u) in
      subst (λ (s : Bytes). os.read_file s w₂ ≡ ok c.contents) same_path (after ∙ held)

  -- After an upload that was reported as done, a download under a name that stands for the same
  -- path announces itself and then sends chunks that carry the uploaded file, in order: numbered
  -- from 0, each with the name, their number, its length and the length of the file, together the
  -- bytes of the file, and each but the last of 64, 128 or 256 KiB by the length of the file. The file
  -- has `2 ^ 32 - 2 ^ 18` bytes at most.
  pub handle_download-upload :
      (handler : CommandHandler) (c d : CommandMessage) (p : Bytes) (w w₁ w₂ w₃ : W)
      → FileStore os conn
      → length c.contents ≤ 2 ^ 32 - 2 ^ 18
      → validate_path os sha256 handler c.filename w ≡ (ok p, w₁)
      → handle_upload os conn sha256 handler c w ≡ (ok tt, w₂)
      → validate_path os sha256 handler d.filename w₂ ≡ (ok p, w₃)
      → (chunks : List ChunkDataMessage) × IsTransfer d.filename c.contents chunks
        × (handle_download os conn sha256 handler d w₂
            ≡ some (
                (do
                  respond os conn sha256 true (text "Starting chunked download")
                  send_all conn chunks)
                  w₃))
  unfolding handle_download
  handle_download-upload handler c d p w w₁ w₂ w₃ store fits found done again =
      let held =
        validate_path-keeps_file handler d.filename p c.contents w₂ w₃ store again
          (uploaded handler c p w w₁ w₂ store found done) in
      (
        file_chunks d.filename c.contents,
        file_chunks-IsTransfer d.filename c.contents (omega arith),
        check_process-ok (validate_path os sha256 handler d.filename) _ _ w₂ w₃ again
            ∙ check_process-ok (gets (os.read_file p)) _ _ w₃ w₃
                (ap (λ (r : Result Bytes). (r, w₃)) held)
            ∙ then_process-eq (respond os conn sha256 true (text "Starting chunked download"))
                (λ _. send_file_in_chunks conn d.filename c.contents)
                (λ _. send_all conn (file_chunks d.filename c.contents)) w₃
                (λ _ u. send_file_in_chunks-eq-file_chunks conn d.filename c.contents u fits),
      )
