-- ===== src/Session/Listing.antt =====
-- A whole listing: the names that the client gets are those in its directory on the server.
use ssnproj.Base.{◌^◌, ◌<◌, ◌≡◌, ap, ◌∙◌, [], List, arith, length, true}
use ssnproj.Base.{ok, some, send_list, list_failed}
use ssnproj.Bytes.BigEndian.{Bytes}
use ssnproj.Protocol.Types.{command_list}
use ssnproj.Protocol.Command.{serialize_command}
use ssnproj.Crypto.{CryptoLib, encrypt}
use ssnproj.Crypto.RoundTrip.{Documented}
use ssnproj.Effects.{Action}
use ssnproj.Effects.Laws.{>>=-ok}
use ssnproj.Server.World.{Os, DirEntry}
use ssnproj.Server.Directory.{get_client_dir}
use ssnproj.Server.Handlers.{handle, handle_list, file_names, join_lines}
use ssnproj.Server.Handlers.Listed.{Listed, IsLines, listing_text}
use ssnproj.Server.Connection.{secure_sender}
use ssnproj.Client.{request, list_files}
use ssnproj.Session.{Network, client_lib, link_conn}
use ssnproj.Session.Exchange.{Delivers, ready_link}
use ssnproj.Session.Replies.{GcmSizes, Carries, encrypt_quiet, list_replied}
use ssnproj.Session.Requests.{request-handle}

module _ {W : Type 0} (os : Os W) (lib : CryptoLib W) (net : Bytes → Action W (Unit {0}))
    (sha256 : Bytes → Bytes) (network : Network W) (root key : Bytes) where
  -- The client gets what the handler's own functions make of the entries.
  listed_by_server :
      (c dir : Bytes) (files : List DirEntry) (w v v' u : W)
      → Documented lib
      → GcmSizes lib
      → Carries os lib net network
      → Delivers os network
      → length (join_lines (file_names files)) < 2 ^ 16
      → network.pending w ≡ []
      → encrypt lib (serialize_command command_list [] []) key w ≡ (ok c, v)
      → get_client_dir os sha256 (record { root_dir = root; aes_key = some key }) v ≡ (ok dir, v')
      → os.read_dir dir v' ≡ ok files
      → handle_list os
          (secure_sender os lib net sha256 (some key))
          sha256
          (record { root_dir = root; aes_key = some key })
          (record { command = command_list; filename = []; contents = [] })
          v
        ≡ (ok tt, u)
      → (t : W) × (list_files
            (client_lib lib)
            (link_conn os lib net sha256 network)
            key
            (ready_link root key w)
          ≡ (ok (join_lines (file_names files)), ready_link root key t))
        × (network.pending t ≡ [])
  unfolding list_files handle
  listed_by_server c dir files w v v' u documented sizes carries delivers short empty sealed found
        entries done =
      let still_empty = encrypt_quiet os lib net network _ key c w v carries empty sealed in
      let answer =
        list_replied os lib net sha256 network key dir files _ _ v v' u carries still_empty found
          entries done in
      let (t, requested, kept, read) =
        request-handle os lib net sha256 network root key send_list list_failed command_list c [] []
          _ [] true (ok tt) w v u documented sizes delivers (omega arith) (omega arith) short sealed
          (ap some done) answer in
      (
        t,
        >>=-ok
            (request (client_lib lib) (link_conn os lib net sha256 network) key send_list
              list_failed command_list [] [])
            _ (ready_link root key w) (ready_link root key t) requested,
        read,
      )

  -- A client that is connected to the server, after the handshake and with nothing left to read,
  -- lists its files. If the server's handler of listings succeeds, the client gets a text with the
  -- names of those entries of its directory that are no directories, one on each line and in the
  -- order of the directory, and the link is as ready as before. The packages are as documented, the
  -- network delivers what is written, the client's encryption succeeds, and the text is shorter than
  -- `2 ^ 16` bytes.
  pub list_files-handle_list :
      (c dir names_text : Bytes) (files : List DirEntry) (names : List Bytes) (w v v' u : W)
      → Documented lib
      → GcmSizes lib
      → Carries os lib net network
      → Delivers os network
      → Listed files names
      → IsLines names names_text
      → length names_text < 2 ^ 16
      → network.pending w ≡ []
      → encrypt lib (serialize_command command_list [] []) key w ≡ (ok c, v)
      → get_client_dir os sha256 (record { root_dir = root; aes_key = some key }) v ≡ (ok dir, v')
      → os.read_dir dir v' ≡ ok files
      → handle_list os
          (secure_sender os lib net sha256 (some key))
          sha256
          (record { root_dir = root; aes_key = some key })
          (record { command = command_list; filename = []; contents = [] })
          v
        ≡ (ok tt, u)
      → (t : W) × (list_files
            (client_lib lib)
            (link_conn os lib net sha256 network)
            key
            (ready_link root key w)
          ≡ (ok names_text, ready_link root key t))
        × (network.pending t ≡ [])
  list_files-handle_list c dir names_text files names w v v' u documented sizes carries delivers
        listed lines short empty sealed found entries done =
      let same = listing_text listed lines in
      let short_list : length (join_lines (file_names files)) < 2 ^ 16 = rw same short in
      let (t, got, left) =
        listed_by_server c dir files w v v' u documented sizes carries delivers short_list empty
          sealed found entries done in
      (t, got ∙ ap (λ (x : Bytes). (ok x, ready_link root key t)) same, left)
