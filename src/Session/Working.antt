-- ===== src/Session/Working.antt =====
-- A client and a server whose calls of the packages, the disk and the network all succeed: nothing
-- else can make the handlers fail.
use ssnproj.Base.{
  ℕ, ◌-◌, ◌^◌, ◌<◌, ◌≤◌, ◌≡◌, refl, ap, ◌∙◌, true, [], ◌∷◌, ◌++◌, List, length, All, All-append,
  arith,
}
use ssnproj.Base.{Bool, length-append, Result, ok, some, send_chunk, create_client_dir}
use ssnproj.Bytes.BigEndian.{Bytes}
use ssnproj.Protocol.Types.{
  Message, CommandMessage, ChunkDataMessage, new_message, command_download,
}
use ssnproj.Protocol.Message.{serialize}
use ssnproj.Paths.{is_abs, abs_path, print_abs, join}
use ssnproj.Paths.Clean.{IsName}
use ssnproj.Paths.Absolute.{abs_names, abs_names-IsName, join_name, abs_path-print_abs}
use ssnproj.Crypto.{CryptoLib, encrypt}
use ssnproj.Effects.{Action, gets, wrapping}
use ssnproj.Effects.Laws.{>>=-ok, check-ok, wrapping-ok}
use ssnproj.Server.World.{Os, CommandHandler, text}
use ssnproj.Server.Directory.{client_id, get_client_dir, validate_path}
use ssnproj.Server.Directory.Containment.{validate_path_name}
use ssnproj.Server.Directory.Isolation.{client_id-IsName}
use ssnproj.Server.Transfer.{chunk_message}
use ssnproj.Server.Transfer.Chunks.{file_chunks}
use ssnproj.Server.Transfer.Sends.{send_all}
use ssnproj.Server.Handlers.{respond, handle_upload, handle_download}
use ssnproj.Server.Connection.{send_secure_message, secure_sender}
use ssnproj.Session.Announced.{download_runs}

-- The step ends well.
abbrev pub Succeeds : {W A : Type 0} → Action W A → W → Type 0
Succeeds {W} {A} m w = (a : A) × (v : W) × (m w ≡ (ok a, v))

-- No call fails, and keys of 32 bytes are accepted.
pub record Working {W : Type 0} (os : Os W) (lib : CryptoLib W) (net : Bytes → Action W (Unit {0}))
    : Type 0 where
  pub draws : (n : ℕ) (w : W) → Succeeds (lib.random n) w
  pub accepts : (key : Bytes) → length key ≡ 32 → lib.new_gcm key ≡ ok tt
  pub carries : (bytes : Bytes) (w : W) → Succeeds (net bytes) w
  pub makes : (d : Bytes) (w : W) → Succeeds (os.mkdir_all d) w
  pub writes : (p contents : Bytes) (w : W) → Succeeds (os.write_file p contents) w

module _ {W : Type 0} (os : Os W) (lib : CryptoLib W) (net : Bytes → Action W (Unit {0}))
    (sha256 : Bytes → Bytes) (working : Working os lib net) (key : Bytes)
    (long : length key ≡ 32) where
  pub encrypt-Succeeds : (plaintext : Bytes) (w : W) → Succeeds (encrypt lib plaintext key) w
  unfolding encrypt
  encrypt-Succeeds plaintext w =
      let (nonce, v, drawn) = working.draws lib.nonce_size w in
      (
        nonce ++ lib.seal key nonce plaintext,
        v,
        >>=-ok (gets (λ _. lib.new_gcm key)) _ w w
              (ap (λ (r : Result (Unit {0})). (r, w)) (working.accepts key long))
            ∙ >>=-ok (lib.random lib.nonce_size) _ w v drawn,
      )

  send-Succeeds :
      (m : Message) (w : W) → Succeeds (send_secure_message os lib net sha256 (some key) m) w
  unfolding send_secure_message
  send-Succeeds m w =
      let (c, v, sealed) = encrypt-Succeeds m.payload w in
      let (_, u, written) = working.carries (serialize (new_message m.kind c)) v in
      (tt, u, >>=-ok (encrypt lib m.payload key) _ w v sealed ∙ written)

  send_all-Succeeds :
      (cs : List ChunkDataMessage) (w : W)
      → Succeeds (send_all (secure_sender os lib net sha256 (some key)) cs) w
  send_all-Succeeds [] w = (tt, w, refl)
  send_all-Succeeds (c ∷ cs) w =
      let one = send_secure_message os lib net sha256 (some key) (chunk_message c) in
      let (_, v, sent) = send-Succeeds (chunk_message c) w in
      let (_, u, all) = send_all-Succeeds cs v in
      (tt, u, >>=-ok (wrapping send_chunk one) _ w v (wrapping-ok send_chunk one w v sent) ∙ all)

  pub respond-Succeeds :
      (success : Bool) (message : Bytes) (w : W)
      → Succeeds (respond os (secure_sender os lib net sha256 (some key)) sha256 success message) w
  unfolding respond
  respond-Succeeds success message w = send-Succeeds _ w

  -- With a path for its name, an upload is done.
  pub handle_upload-Succeeds :
      (handler : CommandHandler) (command : CommandMessage) (p : Bytes) (w v : W)
      → validate_path os sha256 handler command.filename w ≡ (ok p, v)
      → Succeeds
          (handle_upload os (secure_sender os lib net sha256 (some key)) sha256 handler command)
          w
  unfolding handle_upload
  handle_upload-Succeeds handler command p w v found =
      let (_, x, wrote) = working.writes p command.contents v in
      let (_, u, told) = respond-Succeeds true (text "File uploaded successfully") x in
      (
        tt,
        u,
        check-ok (validate_path os sha256 handler command.filename) _ _ w v found
            ∙ check-ok (os.write_file p command.contents) _ _ v x wrote
            ∙ told,
      )

  -- With a path for its name and a file there, a download is done.
  pub handle_download-Succeeds :
      (handler : CommandHandler) (filename contents p file_data : Bytes) (w v : W)
      → length file_data ≤ 2 ^ 32 - 2 ^ 18
      → validate_path os sha256 handler filename w ≡ (ok p, v)
      → os.read_file p v ≡ ok file_data
      → (u : W) × (handle_download os
            (secure_sender os lib net sha256 (some key))
            sha256
            handler
            (record { command = command_download; filename = filename; contents = contents })
            w
          ≡ some (ok tt, u))
  handle_download-Succeeds handler filename contents p file_data w v fits found there =
      let sender = secure_sender os lib net sha256 (some key) in
      let (_, x, told) = respond-Succeeds true (text "Starting chunked download") v in
      let (_, u, all) = send_all-Succeeds (file_chunks filename file_data) x in
      (
        u,
        download_runs os lib net sha256 key handler filename contents p file_data w v fits found
              there
            ∙ ap some (>>=-ok (respond os sender sha256 true _) _ v x told ∙ all),
      )

module _ {W : Type 0} (os : Os W) (sha256 : Bytes → Bytes) where
  -- The path of an entry of the client's directory, under an absolute root.
  abbrev pub own_path : Bytes → Bytes → Bytes → Bytes
  own_path root key filename =
      print_abs ((abs_names root ++ (client_id os sha256 key ∷ [])) ++ (filename ∷ []))

module _ {W : Type 0} (os : Os W) (lib : CryptoLib W) (net : Bytes → Action W (Unit {0}))
    (sha256 : Bytes → Bytes) (working : Working os lib net) where
  name_found :
      (handler : CommandHandler) (filename dir : Bytes) (names : List Bytes) (w v : W)
      → IsName filename
      → All IsName names
      → 0 < length names
      → get_client_dir os sha256 handler w ≡ (ok dir, v)
      → abs_path (os.getwd v) dir ≡ ok (print_abs names)
      → validate_path os sha256 handler filename w ≡ (ok (print_abs (names ++ (filename ∷ []))), v)
  name_found handler filename dir [] w v named all some_names got resolved = absurd (omega arith)
  name_found handler filename dir (r ∷ rs) w v named all some_names got resolved =
      validate_path_name os sha256 handler filename dir r rs w v named all got resolved

  -- Any name of an entry has its path.
  pub validate_path-Succeeds :
      (root filename : Bytes) (k : ℕ) (ks : Bytes) (w : W)
      → is_abs root ≡ true
      → 0 < length (sha256 (k ∷ ks))
      → IsName filename
      → (v : W) × (validate_path os sha256
            (record { root_dir = root; aes_key = some (k ∷ ks) })
            filename
            w
          ≡ (ok (own_path os sha256 root (k ∷ ks) filename), v))
  unfolding get_client_dir
  validate_path-Succeeds root filename k ks w rooted hashed named =
      let id : Bytes = client_id os sha256 (k ∷ ks) in
      let names = abs_names root ++ (id ∷ []) in
      let is_name = client_id-IsName os sha256 (k ∷ ks) hashed in
      let dir : Bytes = join root id in
      let all =
        All-append IsName (abs_names root) (id ∷ []) (abs_names-IsName root) (is_name, tt) in
      let (_, v, made) = working.makes dir w in
      (
        v,
        name_found (record { root_dir = root; aes_key = some (k ∷ ks) }) filename dir names w v
            named all (omega (arith, length-append (abs_names root) (id ∷ [])))
            (>>=-ok (wrapping create_client_dir (os.mkdir_all dir)) _ w v
              (wrapping-ok create_client_dir (os.mkdir_all dir) w v made))
            (ap (λ (d : Bytes). abs_path (os.getwd v) d) (join_name root id rooted is_name)
              ∙ abs_path-print_abs (os.getwd v) names all),
      )
