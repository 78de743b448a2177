-- ===== src/Session/Replies.antt =====
-- What the server answers to a request, as it waits for the client in the outbox.
use ssnproj.Base.{ℕ, ◌+◌, ◌≡◌, ap, ◌∙◌, ◌++◌, append-nil, true, length, length-append, [], arith}
use ssnproj.Base.{List, sym, Result, ok, some, Bool}
use ssnproj.Bytes.BigEndian.{Bytes}
use ssnproj.Protocol.Types.{CommandMessage, new_message, message_type_response}
use ssnproj.Protocol.Message.{serialize}
use ssnproj.Protocol.Response.{serialize_response}
use ssnproj.Crypto.{CryptoLib, encrypt}
use ssnproj.Crypto.RoundTrip.{Documented}
use ssnproj.Effects.{Action, gets, pure}
use ssnproj.Effects.Laws.{check-ok, >>=-eq-ok, check-eq-ok}
use ssnproj.Effects.Keeps.{Keeps, check-Keeps}
use ssnproj.Server.World.{Os, DirEntry, CommandHandler, text}
use ssnproj.Server.Directory.{get_client_dir, validate_path}
use ssnproj.Server.Directory.Keeps.{get_client_dir-Keeps, validate_path-Keeps}
use ssnproj.Server.Handlers.{respond, handle_upload, handle_list, file_names, join_lines}
use ssnproj.Server.Handlers.Stored.{refuse_fails}
use ssnproj.Server.Connection.{send_secure_message, secure_sender}
use ssnproj.Session.{Network}
use mathlib.Core.Path.{subst}

-- AES-GCM as the package has it: a nonce of 12 bytes, and 16 bytes for the tag.
pub record GcmSizes {W : Type 0} (lib : CryptoLib W) : Type 0 where
  pub nonce : lib.nonce_size ≡ 12
  pub sealed :
      (key nonce plaintext : Bytes) → length (lib.seal key nonce plaintext) ≡ length plaintext + 16

-- The outbox grows by what is written to the connection, and by nothing else.
pub record Carries {W : Type 0} (os : Os W) (lib : CryptoLib W) (net : Bytes → Action W (Unit {0}))
    (network : Network W) : Type 0 where
  pub by_net :
      (bytes : Bytes) (w v : W)
      → net bytes w ≡ (ok tt, v)
      → network.pending v ≡ network.pending w ++ bytes
  pub by_random : (n : ℕ) (w : W) → network.pending (lib.random n w).1 ≡ network.pending w
  pub by_mkdir : (d : Bytes) (w : W) → network.pending (os.mkdir_all d w).1 ≡ network.pending w
  pub by_write :
      (p contents : Bytes) (w : W)
      → network.pending (os.write_file p contents w).1 ≡ network.pending w
  pub by_remove : (p : Bytes) (w : W) → network.pending (os.remove p w).1 ≡ network.pending w

module _ {W : Type 0} (lib : CryptoLib W) where
  pub length-encrypt :
      (plaintext key c : Bytes) (w v : W)
      → Documented lib
      → GcmSizes lib
      → encrypt lib plaintext key w ≡ (ok c, v)
      → length c ≡ length plaintext + 28
  unfolding encrypt
  length-encrypt plaintext key c w v documented sizes e =
      let (_, u, valid, e1) = >>=-eq-ok (gets (λ _. lib.new_gcm key)) _ w v {b = c} e in
      let (nonce, x, drawn, e2) =
        >>=-eq-ok (lib.random lib.nonce_size) (λ n. pure (n ++ lib.seal key n plaintext)) u v
          {b = c} e1 in
      let whole : nonce ++ lib.seal key nonce plaintext ≡ c =
        cc (ap (λ (q : Result Bytes × W). q.0) e2) in
      subst (λ (c : Bytes). length c ≡ length plaintext + 28) whole
        (omega (
          arith,
          length-append nonce (lib.seal key nonce plaintext),
          documented.random_length lib.nonce_size u x nonce drawn,
          sizes.nonce,
          sizes.sealed key nonce plaintext,
        ))

  pub encrypt-Keeps :
      (P : W → Type 0) (plaintext key : Bytes)
      → ((n : ℕ) → Keeps P (lib.random n))
      → Keeps P (encrypt lib plaintext key)
  unfolding encrypt
  encrypt-Keeps P plaintext key random =
      check-Keeps P (gets (λ _. lib.new_gcm key)) _ _ (λ w p. p) (λ e w p. p)
        (λ _ _ v _ p.
          check-Keeps P (lib.random lib.nonce_size) _ _ (random _) (λ e w p. p) (λ _ _ v _ p. p) v
            p)

-- The outbox begins with this response, encrypted under the client's key, and goes on with `rest`.
pub record Answer {W : Type 0} (lib : CryptoLib W) (network : Network W) (key : Bytes)
    (success : Bool) (message rest : Bytes) (u : W) : Type 0 where
  pub sealed : Bytes
  pub before : W
  pub later : W
  pub encrypted :
      encrypt lib (serialize_response success message []) key before ≡ (ok sealed, later)
  pub waits : network.pending u ≡ serialize (new_message message_type_response sealed) ++ rest

module _ {W : Type 0} (os : Os W) (lib : CryptoLib W) (net : Bytes → Action W (Unit {0}))
    (network : Network W) where
  -- Encryption leaves an empty outbox empty.
  pub encrypt_quiet :
      (plaintext key c : Bytes) (w v : W)
      → Carries os lib net network
      → network.pending w ≡ []
      → encrypt lib plaintext key w ≡ (ok c, v)
      → network.pending v ≡ []
  encrypt_quiet plaintext key c w v carries empty sealed =
      subst (λ (q : Result Bytes × W). network.pending q.1 ≡ []) sealed
        (encrypt-Keeps lib (λ x. network.pending x ≡ []) plaintext key
          (λ n x e. carries.by_random n x ∙ e) w empty)

module _ {W : Type 0} (os : Os W) (lib : CryptoLib W) (net : Bytes → Action W (Unit {0}))
    (sha256 : Bytes → Bytes) (network : Network W) where
  pub respond-Answer :
      (key message : Bytes) (success : Bool) (w u : W)
      → Carries os lib net network
      → network.pending w ≡ []
      → respond os (secure_sender os lib net sha256 (some key)) sha256 success message w
        ≡ (ok tt, u)
      → Answer lib network key success message [] u
  unfolding respond send_secure_message
  respond-Answer key message success w u carries empty done =
      let response : Bytes = serialize_response success message [] in
      let (c, y, sealed, written) = >>=-eq-ok (encrypt lib response key) _ w u {b = tt} done in
      record {
        sealed = c;
        before = w;
        later = y;
        encrypted = sealed;
        waits =
            carries.by_net _ y u written
            ∙ ap (λ b. b ++ serialize (new_message message_type_response c))
                (encrypt_quiet os lib net network response key c w y carries empty sealed)
            ∙ sym (append-nil _);
      }

  -- After an upload that was reported as done, the outbox holds the report.
  pub upload_replied :
      (key : Bytes) (handler : CommandHandler) (command : CommandMessage) (w u : W)
      → Carries os lib net network
      → network.pending w ≡ []
      → handle_upload os (secure_sender os lib net sha256 (some key)) sha256 handler command w
        ≡ (ok tt, u)
      → Answer lib network key true (text "File uploaded successfully") [] u
  unfolding handle_upload
  upload_replied key handler command w u carries empty done =
      let P : W → Type 0 = λ v. network.pending v ≡ [] in
      let sender = secure_sender os lib net sha256 (some key) in
      let (path, v, found, rest) =
        check-eq-ok (validate_path os sha256 handler command.filename) _ _ w u {b = tt}
          (refuse_fails os sender sha256 _) done in
      let (_, x, wrote, replied) =
        check-eq-ok (os.write_file path command.contents) _ _ v u {b = tt}
          (refuse_fails os sender sha256 _) rest in
      let at_v : P v =
        subst (λ q. P q.1) found
          (validate_path-Keeps os sha256 P handler (λ k key _ v p. carries.by_mkdir _ v ∙ p)
            command.filename w empty) in
      let at_x : P x =
        subst (λ (q : Result (Unit {0}) × W). P q.1) wrote
          (carries.by_write path command.contents v ∙ at_v) in
      respond-Answer key _ true x u carries at_x replied

  -- After a listing that was reported as done, the outbox holds the names of the files.
  pub list_replied :
      (key dir : Bytes) (files : List DirEntry) (handler : CommandHandler)
      (command : CommandMessage) (w v u : W)
      → Carries os lib net network
      → network.pending w ≡ []
      → get_client_dir os sha256 handler w ≡ (ok dir, v)
      → os.read_dir dir v ≡ ok files
      → handle_list os (secure_sender os lib net sha256 (some key)) sha256 handler command w
        ≡ (ok tt, u)
      → Answer lib network key true (join_lines (file_names files)) [] u
  unfolding handle_list
  list_replied key dir files handler command w v u carries empty found entries done =
      let still_empty : network.pending v ≡ [] =
        subst (λ (q : Result Bytes × W). network.pending q.1 ≡ []) found
          (get_client_dir-Keeps os sha256 (λ v. network.pending v ≡ []) handler
            (λ k key _ v e. carries.by_mkdir _ v ∙ e) w empty) in
      respond-Answer key _ true v u carries still_empty (
        sym (
          check-ok (get_client_dir os sha256 handler) _ _ w v found
          ∙ check-ok (gets (os.read_dir dir)) _ _ v v
              (ap (λ (r : Result (List DirEntry)). (r, v)) entries))
        ∙ done)
