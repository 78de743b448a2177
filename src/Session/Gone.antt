-- ===== src/Session/Gone.antt =====
-- A deletion and then a download of the same file, over one connection.
use ssnproj.Base.{
  ◌^◌, ◌<◌, ◌≡◌, ap, ◌∙◌, true, false, [], ◌∷◌, length, ℕ, some, Result, Error, ok, err,
  download_failed,
}
use ssnproj.Bytes.BigEndian.{Bytes}
use ssnproj.Protocol.Types.{command_delete, command_download}
use ssnproj.Protocol.Command.{serialize_command}
use ssnproj.Paths.{is_abs}
use ssnproj.Paths.Clean.{IsName}
use ssnproj.Crypto.{CryptoLib}
use ssnproj.Effects.{Action}
use ssnproj.Server.World.{Os, CommandHandler, text, is_not_exist}
use ssnproj.Server.Directory.Keeps.{validate_path-Keeps}
use ssnproj.Client.{delete_file, download_file}
use ssnproj.Client.Download.{ClientOs}
use ssnproj.Session.{Link, Network, client_lib, link_conn}
use ssnproj.Session.Exchange.{ready_link, left_link}
use ssnproj.Session.Replies.{encrypt-Keeps}
use ssnproj.Session.Working.{own_path, encrypt-Succeeds, validate_path-Succeeds}
use ssnproj.Session.RoundTrip.{Sound}
use ssnproj.Session.Refusals.{looked_at}
use ssnproj.Session.Missing.{download_file_missing}
use ssnproj.Session.Reports.{
  Report, removed, client_result, handler_result, report_on, world_after, report,
}
use ssnproj.Session.Deletion.{delete_file-handle_delete}
use mathlib.Core.Path.{subst}

-- The path cannot be read as a file.
abbrev IsAbsent : {W : Type 0} → Os W → Bytes → W → Type 0
IsAbsent os p w = (x : Error) × (os.read_file p w ≡ err x)

-- Removal, as package os has it: a file that can be read is there, it can be removed, and then it
-- cannot be read, also after a directory was made.
pub record Removes {W : Type 0} (os : Os W) : Type 0 where
  pub there :
      (p contents : Bytes) (w : W)
      → os.read_file p w ≡ ok contents
      → is_not_exist (os.stat p w) ≡ false
  pub removes :
      (p contents : Bytes) (w : W) → os.read_file p w ≡ ok contents → (os.remove p w).0 ≡ ok tt
  pub gone : (p : Bytes) (w : W) → (os.remove p w).0 ≡ ok tt → IsAbsent os p (os.remove p w).1
  pub by_mkdir : (d p : Bytes) (w : W) → IsAbsent os p w → IsAbsent os p (os.mkdir_all d w).1

module _ {W : Type 0} (os : Os W) (lib : CryptoLib W) (net : Bytes → Action W (Unit {0}))
    (sha256 : Bytes → Bytes) (network : Network W) (root : Bytes) (k : ℕ) (ks : Bytes) where
  -- A file that is there is deleted.
  deletes :
      (filename file_data : Bytes) (w : W)
      → Sound os lib net sha256 network (k ∷ ks)
      → Removes os
      → length (k ∷ ks) ≡ 32
      → is_abs root ≡ true
      → 0 < length (sha256 (k ∷ ks))
      → IsName filename
      → length filename < 2 ^ 16
      → os.read_file (own_path os sha256 root (k ∷ ks) filename) w ≡ ok file_data
      → network.pending w ≡ []
      → (x : W) × (delete_file
            (client_lib lib)
            (link_conn os lib net sha256 network)
            (k ∷ ks)
            filename
            (ready_link root (k ∷ ks) w)
          ≡ (ok tt, ready_link root (k ∷ ks) x))
        × IsAbsent os (own_path os sha256 root (k ∷ ks) filename) x
        × (network.pending x ≡ [])
  deletes filename file_data w sound removal long rooted hashed is_name named held empty =
      let key : Bytes = k ∷ ks in
      let p : Bytes = own_path os sha256 root key filename in
      let body = serialize_command command_delete filename [] in
      let (c, v, sealed) = encrypt-Succeeds os lib net sha256 sound.working key long body w in
      let (v', found) =
        validate_path-Succeeds os lib net sha256 sound.working root filename k ks v rooted hashed
          is_name in
      let (kept, _) =
        looked_at os lib net sha256 network root key long body filename c w v v' (ok p) sound empty
          sealed found in
      let held' = kept p file_data held in
      let (x, ended, files, quiet) =
        delete_file-handle_delete os lib net sha256 network root key long c filename p w v v' sound
          named empty sealed found in
      let there = removal.there p file_data v' held' in
      let done = removal.removes p file_data v' held' in
      let same : report os p v' ≡ removed (ok tt) =
        ap (λ b. report_on os b p v') there ∙ ap removed done in
      let (e, unread) = removal.gone p v' done in
      (
        x,
        subst
            (λ (d : Report).
              delete_file (client_lib lib) (link_conn os lib net sha256 network) key filename
                (ready_link root key w)
              ≡ (client_result d, left_link root key (handler_result d) x))
            same ended,
        (e, files p ∙ ap (λ b. os.read_file p (world_after os b p v')) there ∙ unread),
        quiet,
      )

  -- A client whose link is ready deletes a file that it has on the server, and then asks for it: the
  -- deletion succeeds, the download fails with the server's text, and the link is as ready as
  -- before. The packages, the server's disk and the network do what they document, and no call of
  -- them fails but the reading of the file that is gone. The server's root is absolute, the key has
  -- 32 bytes and its hash is not empty; the name is that of an entry, and shorter than `2 ^ 16`
  -- bytes.
  pub download_file-delete_file :
      (client_os : ClientOs (Link W)) (filename output_path file_data : Bytes) (w : W)
      → Sound os lib net sha256 network (k ∷ ks)
      → Removes os
      → length (k ∷ ks) ≡ 32
      → is_abs root ≡ true
      → 0 < length (sha256 (k ∷ ks))
      → IsName filename
      → length filename < 2 ^ 16
      → os.read_file (own_path os sha256 root (k ∷ ks) filename) w ≡ ok file_data
      → network.pending w ≡ []
      → (x : W) × (t : W) × (delete_file
            (client_lib lib)
            (link_conn os lib net sha256 network)
            (k ∷ ks)
            filename
            (ready_link root (k ∷ ks) w)
          ≡ (ok tt, ready_link root (k ∷ ks) x))
        × (download_file
              (client_lib lib)
              (link_conn os lib net sha256 network)
              client_os
              (k ∷ ks)
              filename
              output_path
              (ready_link root (k ∷ ks) x)
            ≡ (
              err (download_failed (text "File not found or failed to read")),
              ready_link root (k ∷ ks) t,
            ))
        × (network.pending t ≡ [])
  download_file-delete_file client_os filename output_path file_data w sound removal long rooted
        hashed is_name named held empty =
      let key : Bytes = k ∷ ks in
      let p : Bytes = own_path os sha256 root key filename in
      let handler : CommandHandler = record { root_dir = root; aes_key = some key } in
      let body = serialize_command command_download filename [] in
      let (x, deleted, absent, quiet) =
        deletes filename file_data w sound removal long rooted hashed is_name named held empty in
      let (c, v, sealed) = encrypt-Succeeds os lib net sha256 sound.working key long body x in
      let (v', found) =
        validate_path-Succeeds os lib net sha256 sound.working root filename k ks v rooted hashed
          is_name in
      let P : W → Type 0 = IsAbsent os p in
      let absent_v =
        subst (λ (q : Result Bytes × W). P q.1) sealed
          (encrypt-Keeps lib P body key (λ n y (e, h). (e, sound.by_random n p y ∙ h)) x absent) in
      let (e, unread) =
        subst (λ (q : Result Bytes × W). P q.1) found
          (validate_path-Keeps os sha256 P handler (λ _ _ _ y h. removal.by_mkdir _ p y h) filename
            v absent_v) in
      let (t, refused, _, nothing) =
        download_file_missing os lib net sha256 network root key long client_os c filename
          output_path p e x v v' sound named quiet sealed found unread in
      (x, t, deleted, refused, nothing)
