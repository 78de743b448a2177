-- ===== src/Session/Whole.antt =====
-- A whole session: the handshake, an upload, and the download of the same file.
use ssnproj.Base.{
  ℕ, ◌-◌, ◌^◌, ◌<◌, ◌≤◌, ◌≡◌, refl, ◌∙◌, true, [], ◌∷◌, length, arith, Option, some, ok,
}
use ssnproj.Bytes.BigEndian.{Bytes}
use ssnproj.Paths.{base, is_abs}
use ssnproj.Paths.Clean.{IsName}
use ssnproj.Crypto.{CryptoLib}
use ssnproj.Effects.{Action}
use ssnproj.Server.World.{Os}
use ssnproj.Client.{upload_file, download_file, perform_handshake}
use ssnproj.Client.Download.{ClientOs}
use ssnproj.Session.{Link, Network, client_lib, link_conn}
use ssnproj.Session.Exchange.{ready_link}
use ssnproj.Session.Inbox.{LocalDisk, LocalPaths}
use ssnproj.Session.RoundTrip.{Sound, download_file-upload_file}
use ssnproj.Session.Handshake.{new_link, OaepOpens, Kept, handshake_kept}

-- The client's files are in the world and not in the connection, and what is sent and drawn for a
-- handshake leaves them as they are.
pub record LocalFiles {W : Type 0} (client_os : ClientOs (Link W)) (lib : CryptoLib W)
    (net : Bytes → Action W (Unit {0})) (network : Network W) (root : Bytes) : Type 0 where
  pub by_world :
      (path : Bytes) (v w : Link W)
      → v.server ≡ w.server
      → client_os.read_local path v ≡ client_os.read_local path w
  pub kept :
      (path contents : Bytes)
      → Kept lib net network (λ w. client_os.read_local path (new_link root w) ≡ ok contents)

module _ {W : Type 0} (os : Os W) (lib : CryptoLib W) (net : Bytes → Action W (Unit {0}))
    (sha256 : Bytes → Bytes) (network : Network W) (root : Bytes) where
  -- The upload and the download with the key of the handshake.
  pub files_back :
      (client_os : ClientOs (Link W)) (held : ℕ → Link W → Bytes)
      (Opened : ℕ → Bytes → Link W → Type 0) (filename output_path contents key : Bytes) (w : W)
      → Sound os lib net sha256 network key
      → LocalDisk client_os os network held
      → LocalPaths client_os network held Opened
      → length key ≡ 32
      → is_abs root ≡ true
      → 0 < length (sha256 key)
      → IsName (base filename)
      → length (base filename) < 2 ^ 16
      → 0 < length contents
      → length contents ≤ 2 ^ 32 - 2 ^ 18
      → client_os.read_local filename (ready_link root key w) ≡ ok contents
      → network.pending w ≡ []
      → (x : W) × (t : W) × (upload_file
            (client_lib lib)
            (link_conn os lib net sha256 network)
            client_os
            key
            filename
            (ready_link root key w)
          ≡ (ok tt, ready_link root key x))
        × (download_file
              (client_lib lib)
              (link_conn os lib net sha256 network)
              client_os
              key
              (base filename)
              output_path
              (ready_link root key x)
            ≡ (ok tt, ready_link root key t))
        × (client_os.read_local output_path (ready_link root key t) ≡ ok contents)
        × (network.pending t ≡ [])
  files_back client_os held Opened filename output_path contents [] w sound disk paths long rooted
        hashed is_name named some_bytes fits local empty =
      absurd (omega (arith, long))
  files_back client_os held Opened filename output_path contents (k ∷ ks) w sound disk paths long
        rooted hashed is_name named some_bytes fits local empty =
      download_file-upload_file os lib net sha256 network root k ks client_os held Opened filename
        output_path contents w sound disk paths long rooted hashed is_name named some_bytes fits
        local empty

  -- A client opens a connection, shakes hands, uploads a local file of 1 to `2 ^ 32 - 2 ^ 18` bytes,
  -- and downloads it under its base name to another path. All three succeed, and the output path
  -- has what the local file held. Nothing was waiting on the connection, the packages, the disks
  -- of both sides and the network do what they document, and no call of them fails. The server's root is absolute, the hashes of keys are not empty; the base name is
  -- the name of an entry, and shorter than `2 ^ 16` bytes.
  pub session_returns_file :
      (client_os : ClientOs (Link W)) (held : ℕ → Link W → Bytes)
      (Opened : ℕ → Bytes → Link W → Type 0) (filename output_path contents : Bytes)
      (old : Option Bytes) (w : W)
      → ((key : Bytes) → Sound os lib net sha256 network key)
      → OaepOpens lib network
      → LocalFiles client_os lib net network root
      → LocalDisk client_os os network held
      → LocalPaths client_os network held Opened
      → is_abs root ≡ true
      → ((key : Bytes) → 0 < length (sha256 key))
      → IsName (base filename)
      → length (base filename) < 2 ^ 16
      → 0 < length contents
      → length contents ≤ 2 ^ 32 - 2 ^ 18
      → client_os.read_local filename (new_link root w) ≡ ok contents
      → network.pending w ≡ []
      → (key : Bytes) × (t : W) × (x : W) × (u : W) × (perform_handshake
            (client_lib lib)
            (link_conn os lib net sha256 network)
            (old, new_link root w)
          ≡ some (ok tt, (some key, ready_link root key t)))
        × (upload_file
              (client_lib lib)
              (link_conn os lib net sha256 network)
              client_os
              key
              filename
              (ready_link root key t)
            ≡ (ok tt, ready_link root key x))
        × (download_file
              (client_lib lib)
              (link_conn os lib net sha256 network)
              client_os
              key
              (base filename)
              output_path
              (ready_link root key x)
            ≡ (ok tt, ready_link root key u))
        × (client_os.read_local output_path (ready_link root key u) ≡ ok contents)
        × (network.pending u ≡ [])
  session_returns_file client_os held Opened filename output_path contents old w sound oaep
        local_files disk paths rooted hashed is_name named some_bytes fits local empty =
      let any = sound [] in
      let (key, t, shaken, long, quiet, there) =
        handshake_kept os lib net sha256 network root
          (λ x. client_os.read_local filename (new_link root x) ≡ ok contents) old w any.documented
          oaep any.carries any.delivers any.working (local_files.kept filename contents) empty
          local in
      let at_link : client_os.read_local filename (ready_link root key t) ≡ ok contents =
        local_files.by_world filename (ready_link root key t) (new_link root t) refl ∙ there in
      let (x, u, up, down, whole, nothing) =
        files_back client_os held Opened filename output_path contents key t (sound key) disk paths
          long rooted (hashed key) is_name named some_bytes fits at_link quiet in
      (key, t, x, u, shaken, up, down, whole, nothing)
