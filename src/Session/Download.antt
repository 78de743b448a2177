-- ===== src/Session/Download.antt =====
-- A whole download: from the server's disk to the client's output file.
use ssnproj.Base.{
  ◌-◌, ◌^◌, ◌<◌, ◌≤◌, ◌≡◌, refl, sym, ap, ◌∙◌, append-nil, true, length, [], arith, ℕ,
}
use ssnproj.Base.{Result, ok, some, send_download, download_failed}
use ssnproj.Bytes.BigEndian.{Bytes}
use ssnproj.Protocol.Types.{command_download}
use ssnproj.Protocol.Command.{serialize_command}
use ssnproj.Crypto.{CryptoLib, encrypt}
use ssnproj.Crypto.RoundTrip.{Documented}
use ssnproj.Effects.{Action}
use ssnproj.Effects.Laws.{>>=-ok}
use ssnproj.Server.World.{Os}
use ssnproj.Server.Directory.{validate_path}
use ssnproj.Server.Handlers.{handle, handle_download}
use ssnproj.Server.Handlers.Stored.{FileStore}
use ssnproj.Server.Connection.{secure_sender}
use ssnproj.Client.{request, receive_secure_message, download_file}
use ssnproj.Client.Download.{ClientOs}
use ssnproj.Client.Download.FileChunks.{receive_file_chunks-file_chunks}
use ssnproj.Session.{Link, Network, client_lib, link_conn}
use ssnproj.Session.Exchange.{Delivers, ready_link}
use ssnproj.Session.Replies.{GcmSizes, Carries, encrypt_quiet}
use ssnproj.Session.Requests.{request-handle}
use ssnproj.Session.Stream.{Waiting}
use ssnproj.Session.Inbox.{LocalDisk, LocalPaths, Inbox, link-Channel, receive_file_chunks_opened}
use mathlib.Core.Path.{subst}
use ssnproj.Session.Announced.{download_replied}

module _ {W : Type 0} (os : Os W) (lib : CryptoLib W) (net : Bytes → Action W (Unit {0}))
    (sha256 : Bytes → Bytes) (network : Network W) (root key : Bytes) where
  -- A client that is connected to the server, after the handshake and with nothing left to read,
  -- downloads a file of 1 to `2 ^ 32 - 2 ^ 18` bytes that the server holds at the path that the name
  -- stands for. If the server's handler of downloads succeeds, then the client's download succeeds,
  -- the client's disk has the server's file at the output path, the server has it still, and the link
  -- is as ready as before. The packages and the disks of both sides are as documented, the network delivers what is
  -- written, the client's encryption and its calls on the output file succeed, and the name is
  -- shorter than `2 ^ 16` bytes.
  pub download_file-handle_download :
      (client_os : ClientOs (Link W)) (held : ℕ → Link W → Bytes)
      (Opened : ℕ → Bytes → Link W → Type 0) (c filename output_path file_data p : Bytes)
      (w v v' u : W)
      → Documented lib
      → GcmSizes lib
      → Carries os lib net network
      → Delivers os network
      → FileStore os (secure_sender os lib net sha256 (some key))
      → LocalDisk client_os os network held
      → LocalPaths client_os network held Opened
      → length filename < 2 ^ 16
      → 0 < length file_data
      → length file_data ≤ 2 ^ 32 - 2 ^ 18
      → network.pending w ≡ []
      → encrypt lib (serialize_command command_download filename []) key w ≡ (ok c, v)
      → validate_path os sha256 (record { root_dir = root; aes_key = some key }) filename v
        ≡ (ok p, v')
      → os.read_file p v' ≡ ok file_data
      → handle_download os
          (secure_sender os lib net sha256 (some key))
          sha256
          (record { root_dir = root; aes_key = some key })
          (record { command = command_download; filename = filename; contents = [] })
          v
        ≡ some (ok tt, u)
      → (t : W) × (download_file
            (client_lib lib)
            (link_conn os lib net sha256 network)
            client_os
            key
            filename
            output_path
            (ready_link root key w)
          ≡ (ok tt, ready_link root key t))
        × (client_os.read_local output_path (ready_link root key t) ≡ ok file_data)
        × (os.read_file p t ≡ ok file_data)
        × (network.pending t ≡ [])
  unfolding download_file handle
  download_file-handle_download client_os held Opened c filename output_path file_data p w v v' u
        documented sizes carries delivers store disk paths named some_bytes fits empty sealed found
        there done =
      let conn = link_conn os lib net sha256 network in
      let receive = receive_secure_message (client_lib lib) conn key in
      let still_empty = encrypt_quiet os lib net network _ key c w v carries empty sealed in
      let (rest, answer, waiting, kept) =
        download_replied os lib net sha256 network key _ filename [] p file_data v v' u documented
          sizes carries store named fits still_empty found there done in
      let (x, requested, same, left) =
        request-handle os lib net sha256 network root key send_download download_failed
          command_download c filename [] _ rest true (ok tt) w v u documented sizes delivers named
          (omega arith) (omega arith) sealed done answer in
      let files : Bytes → Result Bytes = λ q. os.read_file q x in
      let arrived : Waiting lib key _ (network.pending x) =
        subst (Waiting lib key _) (sym left) waiting in
      let (f, y, made, saved, whole, ((ready, there'), nothing)) =
        receive_file_chunks-file_chunks client_os receive
          (Inbox os lib net sha256 network root key files) held
          (link-Channel os lib net sha256 network root key client_os held files documented delivers
            disk)
          filename output_path file_data [] (ready_link root key x) named some_bytes (omega arith)
          (
            (refl, λ q. refl),
            subst (λ ms. Waiting lib key ms (network.pending x)) (sym (append-nil _)) arrived,
          ) in
      let opened : Opened f output_path y =
        subst (λ (q : Result (Unit {0}) × Link W). Opened f output_path q.1) saved
          (receive_file_chunks_opened os lib net sha256 network root key client_os held Opened
            filename output_path f (ready_link root key x) paths made) in
      (
        y.server,
        >>=-ok
              (request (client_lib lib) conn key send_download download_failed command_download
                filename [])
              _ (ready_link root key w) (ready_link root key x) requested
            ∙ saved
            ∙ ap (λ (z : Link W). (ok tt, z)) ready,
        ap (client_os.read_local output_path) (sym ready)
            ∙ paths.shown f output_path y opened
            ∙ ap ok whole,
        there' p ∙ same p ∙ kept,
        nothing,
      )
