-- ===== src/Session/RoundTrip.antt =====
-- An upload and then a download of the same file, over one connection.
use ssnproj.Base.{ℕ, ◌-◌, ◌^◌, ◌<◌, ◌≤◌, ◌≡◌, ◌∙◌, true, [], ◌∷◌, length, arith, Result, ok, some}
use ssnproj.Bytes.BigEndian.{Bytes}
use ssnproj.Protocol.Types.{command_upload, command_download}
use ssnproj.Protocol.Command.{serialize_command}
use ssnproj.Paths.{base, is_abs}
use ssnproj.Paths.Clean.{IsName}
use ssnproj.Crypto.{CryptoLib}
use ssnproj.Crypto.RoundTrip.{Documented}
use ssnproj.Effects.{Action}
use ssnproj.Server.World.{Os, CommandHandler}
use ssnproj.Server.Directory.Keeps.{validate_path-Keeps}
use ssnproj.Server.Handlers.Stored.{FileStore}
use ssnproj.Server.Connection.{secure_sender}
use ssnproj.Client.{upload_file, download_file}
use ssnproj.Client.Download.{ClientOs}
use ssnproj.Session.{Link, Network, client_lib, link_conn}
use ssnproj.Session.Exchange.{Delivers, ready_link}
use ssnproj.Session.Replies.{GcmSizes, Carries, encrypt-Keeps}
use ssnproj.Session.Inbox.{LocalDisk, LocalPaths}
use ssnproj.Session.Upload.{upload_file-handle_upload}
use ssnproj.Session.Download.{download_file-handle_download}
use ssnproj.Session.Working.{
  Working, own_path, encrypt-Succeeds, handle_upload-Succeeds, handle_download-Succeeds,
  validate_path-Succeeds,
}
use mathlib.Core.Path.{subst}

-- The server's side of a session: the packages, its disk and the network do what they document, and
-- no call fails.
pub record Sound {W : Type 0} (os : Os W) (lib : CryptoLib W) (net : Bytes → Action W (Unit {0}))
    (sha256 : Bytes → Bytes) (network : Network W) (key : Bytes) : Type 0 where
  pub documented : Documented lib
  pub sizes : GcmSizes lib
  pub carries : Carries os lib net network
  pub delivers : Delivers os network
  pub store : FileStore os (secure_sender os lib net sha256 (some key))
  pub by_random : (n : ℕ) (q : Bytes) (w : W) → os.read_file q (lib.random n w).1 ≡ os.read_file q w
  pub working : Working os lib net

module _ {W : Type 0} (os : Os W) (lib : CryptoLib W) (net : Bytes → Action W (Unit {0}))
    (sha256 : Bytes → Bytes) (network : Network W) (root : Bytes) (k : ℕ) (ks : Bytes) where
  -- The upload, at the path of the base name in the client's directory.
  uploads :
      (client_os : ClientOs (Link W)) (filename contents : Bytes) (w : W)
      → Sound os lib net sha256 network (k ∷ ks)
      → length (k ∷ ks) ≡ 32
      → is_abs root ≡ true
      → 0 < length (sha256 (k ∷ ks))
      → IsName (base filename)
      → length (base filename) < 2 ^ 16
      → length contents < 2 ^ 32 - 2 ^ 17
      → client_os.read_local filename (ready_link root (k ∷ ks) w) ≡ ok contents
      → network.pending w ≡ []
      → (t : W) × (upload_file
            (client_lib lib)
            (link_conn os lib net sha256 network)
            client_os
            (k ∷ ks)
            filename
            (ready_link root (k ∷ ks) w)
          ≡ (ok tt, ready_link root (k ∷ ks) t))
        × (os.read_file (own_path os sha256 root (k ∷ ks) (base filename)) t ≡ ok contents)
        × (network.pending t ≡ [])
  uploads client_os filename contents w sound long rooted hashed is_name named fits local empty =
      let key : Bytes = k ∷ ks in
      let handler : CommandHandler = record { root_dir = root; aes_key = some key } in
      let (c, v, sealed) =
        encrypt-Succeeds os lib net sha256 sound.working key long
          (serialize_command command_upload (base filename) contents) w in
      let (v', found) =
        validate_path-Succeeds os lib net sha256 sound.working root (base filename) k ks v rooted
          hashed is_name in
      let (_, u, done) =
        handle_upload-Succeeds os lib net sha256 sound.working key long handler
          (record { command = command_upload; filename = base filename; contents = contents })
          (own_path os sha256 root key (base filename)) v v' found in
      upload_file-handle_upload os lib net sha256 network root key client_os c filename contents
        (own_path os sha256 root key (base filename)) w v v' u sound.documented sound.sizes
        sound.carries sound.delivers sound.store named fits local empty sealed found done

  -- The download of a file that is there.
  downloads :
      (client_os : ClientOs (Link W)) (held : ℕ → Link W → Bytes)
      (Opened : ℕ → Bytes → Link W → Type 0) (filename output_path file_data : Bytes) (w : W)
      → Sound os lib net sha256 network (k ∷ ks)
      → LocalDisk client_os os network held
      → LocalPaths client_os network held Opened
      → length (k ∷ ks) ≡ 32
      → is_abs root ≡ true
      → 0 < length (sha256 (k ∷ ks))
      → IsName filename
      → length filename < 2 ^ 16
      → 0 < length file_data
      → length file_data ≤ 2 ^ 32 - 2 ^ 18
      → os.read_file (own_path os sha256 root (k ∷ ks) filename) w ≡ ok file_data
      → network.pending w ≡ []
      → (t : W) × (download_file
            (client_lib lib)
            (link_conn os lib net sha256 network)
            client_os
            (k ∷ ks)
            filename
            output_path
            (ready_link root (k ∷ ks) w)
          ≡ (ok tt, ready_link root (k ∷ ks) t))
        × (client_os.read_local output_path (ready_link root (k ∷ ks) t) ≡ ok file_data)
        × (os.read_file (own_path os sha256 root (k ∷ ks) filename) t ≡ ok file_data)
        × (network.pending t ≡ [])
  downloads client_os held Opened filename output_path file_data w sound disk paths long rooted
        hashed is_name named some_bytes fits there empty =
      let key : Bytes = k ∷ ks in
      let p : Bytes = own_path os sha256 root key filename in
      let handler : CommandHandler = record { root_dir = root; aes_key = some key } in
      let P : W → Type 0 = λ x. os.read_file p x ≡ ok file_data in
      let body = serialize_command command_download filename [] in
      let (c, v, sealed) = encrypt-Succeeds os lib net sha256 sound.working key long body w in
      let there_v =
        subst (λ (q : Result Bytes × W). P q.1) sealed
          (encrypt-Keeps lib P body key (λ n x e. sound.by_random n p x ∙ e) w there) in
      let (v', found) =
        validate_path-Succeeds os lib net sha256 sound.working root filename k ks v rooted hashed
          is_name in
      let there' =
        subst (λ (q : Result Bytes × W). P q.1) found
          (validate_path-Keeps os sha256 P handler
            (λ _ _ _ x e. sound.store.by_mkdir _ p file_data x e) filename v there_v) in
      let (u, done) =
        handle_download-Succeeds os lib net sha256 sound.working key long handler filename [] p
          file_data v v' fits found there' in
      download_file-handle_download os lib net sha256 network root key client_os held Opened c
        filename output_path file_data p w v v' u sound.documented sound.sizes sound.carries
        sound.delivers sound.store disk paths named some_bytes fits empty sealed found there' done

  -- A client whose link is ready uploads a local file of 1 to `2 ^ 32 - 2 ^ 18` bytes and downloads it
  -- again, under its base name, to another path: both succeed, the output path then has what the local
  -- file held, and the link is as ready as before. The packages, the disks of both sides and the
  -- network do what they document, and no call of them fails. The server's root is absolute, the
  -- key has 32 bytes and its hash is not empty; the base name is the name of an entry, and shorter
  -- than `2 ^ 16` bytes.
  pub download_file-upload_file :
      (client_os : ClientOs (Link W)) (held : ℕ → Link W → Bytes)
      (Opened : ℕ → Bytes → Link W → Type 0) (filename output_path contents : Bytes) (w : W)
      → Sound os lib net sha256 network (k ∷ ks)
      → LocalDisk client_os os network held
      → LocalPaths client_os network held Opened
      → length (k ∷ ks) ≡ 32
      → is_abs root ≡ true
      → 0 < length (sha256 (k ∷ ks))
      → IsName (base filename)
      → length (base filename) < 2 ^ 16
      → 0 < length contents
      → length contents ≤ 2 ^ 32 - 2 ^ 18
      → client_os.read_local filename (ready_link root (k ∷ ks) w) ≡ ok contents
      → network.pending w ≡ []
      → (x : W) × (t : W) × (upload_file
            (client_lib lib)
            (link_conn os lib net sha256 network)
            client_os
            (k ∷ ks)
            filename
            (ready_link root (k ∷ ks) w)
          ≡ (ok tt, ready_link root (k ∷ ks) x))
        × (download_file
              (client_lib lib)
              (link_conn os lib net sha256 network)
              client_os
              (k ∷ ks)
              (base filename)
              output_path
              (ready_link root (k ∷ ks) x)
            ≡ (ok tt, ready_link root (k ∷ ks) t))
        × (client_os.read_local output_path (ready_link root (k ∷ ks) t) ≡ ok contents)
        × (network.pending t ≡ [])
  download_file-upload_file client_os held Opened filename output_path contents w sound disk paths
        long rooted hashed is_name named some_bytes fits local empty =
      let (x, up, there, quiet) =
        uploads client_os filename contents w sound long rooted hashed is_name named (omega arith)
          local empty in
      let (t, down, whole, _, nothing) =
        downloads client_os held Opened (base filename) output_path contents x sound disk paths long
          rooted hashed is_name named some_bytes fits there quiet in
      (x, t, up, down, whole, nothing)
