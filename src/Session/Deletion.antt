-- ===== src/Session/Deletion.antt =====
-- A whole deletion, with all its ends.
use ssnproj.Base.{◌^◌, ◌<◌, ◌≡◌, ap, ◌∙◌, Bool, true, false, [], length, arith}
use ssnproj.Base.{Result, ok, err, some, send_delete, delete_failed}
use ssnproj.Bytes.BigEndian.{Bytes}
use ssnproj.Protocol.Types.{command_delete}
use ssnproj.Protocol.Command.{serialize_command}
use ssnproj.Crypto.{CryptoLib, encrypt}
use ssnproj.Effects.{Action}
use ssnproj.Effects.Laws.{>>=-ok, check-ok, check-err}
use ssnproj.Server.World.{Os, CommandHandler, is_not_exist}
use ssnproj.Server.Directory.{validate_path}
use ssnproj.Server.Handlers.{respond, handle, handle_delete}
use ssnproj.Server.Connection.{secure_sender}
use ssnproj.Client.{request, delete_file}
use ssnproj.Session.{Link, Network, client_lib, link_conn}
use ssnproj.Session.Exchange.{ready_link, left_link}
use ssnproj.Session.Replies.{respond-Answer}
use ssnproj.Session.Requests.{outcome, request-handle}
use ssnproj.Session.Working.{respond-Succeeds}
use ssnproj.Session.RoundTrip.{Sound}
use ssnproj.Session.Refusals.{looked_at}
use mathlib.Core.Path.{subst}
use ssnproj.Session.Reports.{
  Report, missing, removed, went_well, report_text, report_short, handler_result, client_result,
  report, cleared, world_after, remove_reports,
}

module _ {W : Type 0} (os : Os W) (lib : CryptoLib W) (net : Bytes → Action W (Unit {0}))
    (sha256 : Bytes → Bytes) (network : Network W) (root key : Bytes) (long : length key ≡ 32) where
  concluded :
      (filename : Bytes) (d : Report) (w x : Link W)
      → request
          (client_lib lib)
          (link_conn os lib net sha256 network)
          key
          send_delete
          delete_failed
          command_delete
          filename
          []
          w
        ≡ (outcome delete_failed (went_well d) (report_text d), x)
      → delete_file (client_lib lib) (link_conn os lib net sha256 network) key filename w
        ≡ (client_result d, x)
  unfolding delete_file
  concluded filename missing w x e = check-err _ _ _ w x e
  concluded filename (removed (ok _)) w x e = >>=-ok _ _ w x e
  concluded filename (removed (err _)) w x e = check-err _ _ _ w x e

  -- The files of the server are afterwards those that the removal of the path of the name leaves, or
  -- those that were there when the name was looked up, if there was nothing at the path.
  -- A deletion of a file that is not there is an error for the client, and the connection stays
  -- open; a removal that fails is an error for the client too, and the server closes the connection;
  -- after any other removal the client's deletion succeeds. The packages, the disk and the network
  -- do what they document, and no call but the removal fails; the name is accepted and shorter than
  -- `2 ^ 16` bytes, the key has 32 bytes, and nothing was left to read.
  pub delete_file-handle_delete :
      (c filename p : Bytes) (w v v' : W)
      → Sound os lib net sha256 network key
      → length filename < 2 ^ 16
      → network.pending w ≡ []
      → encrypt lib (serialize_command command_delete filename []) key w ≡ (ok c, v)
      → validate_path os sha256 (record { root_dir = root; aes_key = some key }) filename v
        ≡ (ok p, v')
      → (t : W) × (delete_file
            (client_lib lib)
            (link_conn os lib net sha256 network)
            key
            filename
            (ready_link root key w)
          ≡ (
            client_result (report os p v'),
            left_link root key (handler_result (report os p v')) t,
          ))
        × ((q : Bytes) → os.read_file q t ≡ os.read_file q (cleared os p v'))
        × (network.pending t ≡ [])
  unfolding respond handle handle_delete
  delete_file-handle_delete c filename p w v v' sound named empty sealed found =
      let handler : CommandHandler = record { root_dir = root; aes_key = some key } in
      let sender = secure_sender os lib net sha256 (some key) in
      let d = report os p v' in
      let x = cleared os p v' in
      let (_, quiet) =
        looked_at os lib net sha256 network root key long
          (serialize_command command_delete filename []) filename c w v v' (ok p) sound empty sealed
          found in
      let still_quiet : network.pending x ≡ [] = quiet_after (is_not_exist (os.stat p v')) quiet in
      let (_, u, told) =
        respond-Succeeds os lib net sha256 sound.working key long (went_well d) (report_text d) x in
      let answer =
        respond-Answer os lib net sha256 network key (report_text d) (went_well d) x u sound.carries
          still_quiet told in
      let ended = ap some (
        check-ok (validate_path os sha256 handler filename) _ _ v v' found
        ∙ remove_reports os lib net sha256 key p v' u told) in
      let (t, requested, same, left) =
        request-handle os lib net sha256 network root key send_delete delete_failed command_delete c
          filename [] (report_text d) [] (went_well d) (handler_result d) w v u sound.documented
          sound.sizes sound.delivers named (omega arith) (report_short d) sealed ended answer in
      (
        t,
        concluded filename d (ready_link root key w) _ requested,
        λ q.
            same q
            ∙ subst (λ (y : Result (Unit {0}) × W). os.read_file q y.1 ≡ os.read_file q x) told
                (sound.store.by_send _ q x),
        left,
      )
    where
      quiet_after :
          (b : Bool) → network.pending v' ≡ [] → network.pending (world_after os b p v') ≡ []
      quiet_after true quiet = quiet
      quiet_after false quiet = sound.carries.by_remove p v' ∙ quiet
