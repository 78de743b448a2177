-- ===== src/Session/Missing.antt =====
-- A download of a file that is not there.
use ssnproj.Base.{◌^◌, ◌<◌, ◌≡◌, ap, ◌∙◌, false, [], length, arith}
use ssnproj.Base.{Error, Result, ok, err, some, send_download, download_failed}
use ssnproj.Bytes.BigEndian.{Bytes}
use ssnproj.Protocol.Types.{command_download}
use ssnproj.Protocol.Command.{serialize_command}
use ssnproj.Crypto.{CryptoLib, encrypt}
use ssnproj.Effects.{Action, gets, ignoring}
use ssnproj.Effects.Laws.{check-err, check_process-ok, check_process-err}
use ssnproj.Server.World.{Os, CommandHandler, text}
use ssnproj.Server.Directory.{validate_path}
use ssnproj.Server.Handlers.{respond, handle, handle_download}
use ssnproj.Client.{request, download_file}
use ssnproj.Client.Download.{ClientOs}
use ssnproj.Session.{Link, Network, client_lib, link_conn}
use ssnproj.Session.Exchange.{ready_link}
use ssnproj.Session.Replies.{respond-Answer}
use ssnproj.Session.Requests.{request-handle}
use ssnproj.Session.Working.{respond-Succeeds}
use ssnproj.Session.RoundTrip.{Sound}
use mathlib.Core.Path.{subst}
use ssnproj.Session.Refusals.{looked_at}

module _ {W : Type 0} (os : Os W) (lib : CryptoLib W) (net : Bytes → Action W (Unit {0}))
    (sha256 : Bytes → Bytes) (network : Network W) (root key : Bytes) (long : length key ≡ 32) where
  -- A download of a file that the server cannot read: the client gets the text of the answer as an
  -- error, every file that the server had is as it was, and the link is as ready as before. The
  -- packages, the disk and the network do what they document and no call but the one on the file
  -- fails; the key has 32 bytes, the name is shorter than `2 ^ 16` bytes, and nothing was left to read.
  pub download_file_missing :
      (client_os : ClientOs (Link W)) (c filename output_path p : Bytes) (e : Error) (w v v' : W)
      → Sound os lib net sha256 network key
      → length filename < 2 ^ 16
      → network.pending w ≡ []
      → encrypt lib (serialize_command command_download filename []) key w ≡ (ok c, v)
      → validate_path os sha256 (record { root_dir = root; aes_key = some key }) filename v
        ≡ (ok p, v')
      → os.read_file p v' ≡ err e
      → (t : W) × (download_file
            (client_lib lib)
            (link_conn os lib net sha256 network)
            client_os
            key
            filename
            output_path
            (ready_link root key w)
          ≡ (
            err (download_failed (text "File not found or failed to read")),
            ready_link root key t,
          ))
        × ((q held : Bytes) → os.read_file q w ≡ ok held → os.read_file q t ≡ ok held)
        × (network.pending t ≡ [])
  unfolding download_file respond handle handle_download ignoring
  download_file_missing client_os c filename output_path p e w v v' sound named empty sealed found
        missing =
      let message = text "File not found or failed to read" in
      let handler : CommandHandler = record { root_dir = root; aes_key = some key } in
      let (kept, quiet) =
        looked_at os lib net sha256 network root key long
          (serialize_command command_download filename []) filename c w v v' (ok p) sound empty
          sealed found in
      let (_, u, told) =
        respond-Succeeds os lib net sha256 sound.working key long false message v' in
      let answer =
        respond-Answer os lib net sha256 network key message false v' u sound.carries quiet told in
      let ended =
        check_process-ok (validate_path os sha256 handler filename) _ _ v v' found
        ∙ check_process-err (gets (os.read_file p)) _ _ v' v'
            (ap (λ (r : Result Bytes). (r, v')) missing)
        ∙ ap (λ (q : Result (Unit {0}) × W). some (ok tt, q.1)) told in
      let (t, requested, same, left) =
        request-handle os lib net sha256 network root key send_download download_failed
          command_download c filename [] message [] false (ok tt) w v u sound.documented sound.sizes
          sound.delivers named (omega arith) (omega arith) sealed ended answer in
      (
        t,
        check-err
            (request (client_lib lib) (link_conn os lib net sha256 network) key send_download
              download_failed command_download filename [])
            _ _ (ready_link root key w) (ready_link root key t) requested,
        λ q held there.
            same q
            ∙ subst (λ (x : Result (Unit {0}) × W). os.read_file q x.1 ≡ ok held) told
                (sound.store.by_send _ q v' ∙ kept q held there),
        left,
      )
