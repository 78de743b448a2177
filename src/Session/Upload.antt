-- ===== src/Session/Upload.antt =====
-- A whole upload: from the client's local file to the server's disk, and back to the client.
use ssnproj.Base.{◌-◌, ◌^◌, ◌<◌, ◌≡◌, ap, ◌∙◌, true, length, [], arith}
use ssnproj.Base.{Result, ok, some, send_upload, upload_failed, read_local_file}
use ssnproj.Bytes.BigEndian.{Bytes}
use ssnproj.Protocol.Types.{command_upload}
use ssnproj.Protocol.Command.{serialize_command}
use ssnproj.Paths.{base}
use ssnproj.Crypto.{CryptoLib, encrypt}
use ssnproj.Crypto.RoundTrip.{Documented}
use ssnproj.Effects.{Action, gets, wrapping}
use ssnproj.Effects.Laws.{>>=-ok, wrapping-ok}
use ssnproj.Server.World.{Os}
use ssnproj.Server.Directory.{validate_path}
use ssnproj.Server.Handlers.{handle, handle_upload}
use ssnproj.Server.Handlers.Stored.{FileStore, uploaded}
use ssnproj.Server.Connection.{secure_sender}
use ssnproj.Client.{request, upload_file}
use ssnproj.Client.Download.{ClientOs}
use ssnproj.Session.{Link, Network, client_lib, link_conn}
use ssnproj.Session.Exchange.{Delivers, ready_link}
use ssnproj.Session.Replies.{GcmSizes, Carries, encrypt_quiet, upload_replied}
use ssnproj.Session.Requests.{request-handle}

module _ {W : Type 0} (os : Os W) (lib : CryptoLib W) (net : Bytes → Action W (Unit {0}))
    (sha256 : Bytes → Bytes) (network : Network W) (root key : Bytes) where
  -- A client that is connected to the server, after the handshake and with nothing left to read,
  -- uploads a local file. If the server's handler of uploads succeeds on the base name and the
  -- contents, then the client's upload succeeds, the server's disk holds the file at the path that
  -- the base name stands for, and the link is as ready as before. The packages and the disk are as
  -- documented, the network delivers what is written, the client's encryption succeeds, the base
  -- name is shorter than `2 ^ 16` bytes, and the file is shorter than `2 ^ 32 - 2 ^ 17`.
  pub upload_file-handle_upload :
      (client_os : ClientOs (Link W)) (c filename contents p : Bytes) (w v v' u : W)
      → Documented lib
      → GcmSizes lib
      → Carries os lib net network
      → Delivers os network
      → FileStore os (secure_sender os lib net sha256 (some key))
      → length (base filename) < 2 ^ 16
      → length contents < 2 ^ 32 - 2 ^ 17
      → client_os.read_local filename (ready_link root key w) ≡ ok contents
      → network.pending w ≡ []
      → encrypt lib (serialize_command command_upload (base filename) contents) key w ≡ (ok c, v)
      → validate_path os sha256 (record { root_dir = root; aes_key = some key }) (base filename) v
        ≡ (ok p, v')
      → handle_upload os
          (secure_sender os lib net sha256 (some key))
          sha256
          (record { root_dir = root; aes_key = some key })
          (record { command = command_upload; filename = base filename; contents = contents })
          v
        ≡ (ok tt, u)
      → (t : W) × (upload_file
            (client_lib lib)
            (link_conn os lib net sha256 network)
            client_os
            key
            filename
            (ready_link root key w)
          ≡ (ok tt, ready_link root key t))
        × (os.read_file p t ≡ ok contents)
        × (network.pending t ≡ [])
  unfolding upload_file handle
  upload_file-handle_upload client_os c filename contents p w v v' u documented sizes carries
        delivers store named fits local empty sealed found done =
      let still_empty = encrypt_quiet os lib net network _ key c w v carries empty sealed in
      let answer = upload_replied os lib net sha256 network key _ _ v u carries still_empty done in
      let (t, requested, kept, read) =
        request-handle os lib net sha256 network root key send_upload upload_failed command_upload c
          (base filename) contents _ [] true (ok tt) w v u documented sizes delivers named fits
          (omega arith) sealed (ap some done) answer in
      (
        t,
        >>=-ok (wrapping read_local_file (gets (client_os.read_local filename))) _
              (ready_link root key w) (ready_link root key w)
              (wrapping-ok read_local_file _ _ _
                (ap (λ (r : Result Bytes). (r, ready_link root key w)) local))
            ∙ >>=-ok
                (request (client_lib lib) (link_conn os lib net sha256 network) key send_upload
                  upload_failed command_upload (base filename) contents)
                _ (ready_link root key w) (ready_link root key t) requested,
        kept p
            ∙ uploaded os (secure_sender os lib net sha256 (some key)) sha256 _ _ p v v' u store
                found done,
        read,
      )
