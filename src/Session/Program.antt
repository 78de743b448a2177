-- ===== src/Session/Program.antt =====
-- The client's command line against the server, from the connection to the exit.
use ssnproj.Base.{
  ℕ, ◌-◌, ◌^◌, ◌<◌, ◌≤◌, ◌≡◌, ap, ◌∙◌, true, [], ◌∷◌, ◌++◌, List, length, none, Error, ok, connect,
}
use ssnproj.Bytes.BigEndian.{Bytes}
use ssnproj.Paths.{base, is_abs}
use ssnproj.Paths.Clean.{IsName}
use ssnproj.Strings.{trim_space, fields, to_lower}
use ssnproj.Crypto.{CryptoLib}
use ssnproj.Effects.{Action}
use ssnproj.Effects.Laws.{wrapping-ok}
use ssnproj.Server.World.{Os, text}
use ssnproj.Client.{close_client, new_client}
use ssnproj.Client.Download.{ClientOs}
use ssnproj.Runner.{finished, map_end, close_after, after_handshake, after_dial, run_client}
use ssnproj.Runner.Help.{help}
use ssnproj.Runner.Commands.{
  AsksUpload, AsksDownload, AsksExit, choose-AsksUpload, choose-AsksDownload, choose-AsksExit,
  typed, uploaded_text, downloaded_text, run_interactive_cli-upload_file,
}
use ssnproj.Session.{Link, Network, client_lib, link_conn}
use ssnproj.Session.Exchange.{ready_link}
use ssnproj.Session.Inbox.{LocalDisk, LocalPaths}
use ssnproj.Session.RoundTrip.{Sound}
use ssnproj.Session.Handshake.{new_link, OaepOpens}
use ssnproj.Session.Whole.{LocalFiles, session_returns_file}

module _ {W : Type 0} (os : Os W) (lib : CryptoLib W) (net : Bytes → Action W (Unit {0}))
    (sha256 : Bytes → Bytes) (network : Network W) (root : Bytes) where
  -- The client's program is run against the server, and three lines are typed, each with a word for
  -- its command in letters of any case: an upload ("upload", "up") of a local file of 1 to
  -- `2 ^ 32 - 2 ^ 18` bytes, a download ("download", "dl") of its base name to an output path, and
  -- the exit ("exit", "quit", "q"). The program connects, shakes hands, reports both transfers as
  -- done, says goodbye and returns without an error, with the lines behind the exit unread; before it
  -- closes the connection a read of the output path gives what the local file held when the client
  -- connected. The connection is new and nothing waits on it, the packages, the disks of both sides
  -- and the network do what they document, and no call of them fails; the handshake leaves the
  -- client's files alone. The server's root is absolute, the hashes of keys are not empty; the base
  -- name is the name of an entry, and shorter than `2 ^ 16` bytes.
  pub run_client_returns_file :
      (client_os : ClientOs (Link W)) (held : ℕ → Link W → Bytes)
      (Opened : ℕ → Bytes → Link W → Type 0) (show_error : Error → Bytes)
      (dial : Bytes → Action (Link W) (Unit {0})) (close : Action (Link W) (Unit {0}))
      (host port line1 line2 line3 command1 command2 command3 filename output_path contents : Bytes)
      (lines more1 more2 more3 : List Bytes) (unfinished : Bytes) (printed : List Bytes)
      (v : Link W) (w : W)
      → ((key : Bytes) → Sound os lib net sha256 network key)
      → OaepOpens lib network
      → LocalFiles client_os lib net network root
      → LocalDisk client_os os network held
      → LocalPaths client_os network held Opened
      → is_abs root ≡ true
      → ((key : Bytes) → 0 < length (sha256 key))
      → IsName (base filename)
      → length (base filename) < 2 ^ 16
      → 0 < length contents
      → length contents ≤ 2 ^ 32 - 2 ^ 18
      → client_os.read_local filename (new_link root w) ≡ ok contents
      → network.pending w ≡ []
      → dial (host ++ (b':' ∷ port)) v ≡ (ok tt, new_link root w)
      → fields (trim_space (line1 ++ (b'\n' ∷ []))) ≡ command1 ∷ filename ∷ more1
      → AsksUpload (to_lower command1)
      → fields (trim_space (line2 ++ (b'\n' ∷ []))) ≡ command2 ∷ base filename ∷ output_path ∷ more2
      → AsksDownload (to_lower command2)
      → fields (trim_space (line3 ++ (b'\n' ∷ []))) ≡ command3 ∷ more3
      → AsksExit (to_lower command3)
      → (key : Bytes) × (u : W) × (run_client
            (client_lib lib)
            (link_conn os lib net sha256 network)
            client_os
            show_error
            dial
            close
            host
            port
            (typed (line1 ∷ line2 ∷ line3 ∷ lines) unfinished printed, v)
          ≡ finished (ok tt) (
            typed lines unfinished (
                text "Goodbye!\n"
                ∷ text "\n> "
                ∷ downloaded_text output_path
                ∷ text "\n> "
                ∷ uploaded_text filename
                ∷ text "\n> "
                ∷ help
                ∷ printed),
            (close_client close (ready_link root key u)).1,
          ))
        × (client_os.read_local output_path (ready_link root key u) ≡ ok contents)
  unfolding run_client new_client
  run_client_returns_file client_os held Opened show_error dial close host port line1 line2 line3
        command1 command2 command3 filename output_path contents lines more1 more2 more3 unfinished
        printed v w sound oaep local_files disk paths rooted hashed is_name named some_bytes fits
        local empty dialled words1 up words2 down words3 out =
      let conn = link_conn os lib net sha256 network in
      let clib = client_lib lib in
      let t = typed (line1 ∷ line2 ∷ line3 ∷ lines) unfinished printed in
      let address : Bytes = host ++ (b':' ∷ port) in
      let (key, y, x, u, shaken, uploaded, downloaded, whole, _) =
        session_returns_file os lib net sha256 network root client_os held Opened filename
          output_path contents none w sound oaep local_files disk paths rooted hashed is_name named
          some_bytes fits local empty in
      (
        key,
        u,
        ap (after_dial clib conn client_os show_error dial close t)
              (wrapping-ok connect (dial address) v (new_link root w) dialled)
            ∙ ap (after_handshake clib conn client_os show_error dial close t) shaken
            ∙ ap (map_end (close_after clib conn client_os show_error dial close)) (
                run_interactive_cli-upload_file clib conn client_os show_error key line1 line2 line3
                  command1 command2 command3 filename (base filename) output_path lines more1 more2
                  more3 unfinished printed (ready_link root key y) (ready_link root key x)
                  (ready_link root key u) words1 (choose-AsksUpload _ up) words2
                  (choose-AsksDownload _ down) words3 (choose-AsksExit _ out) uploaded downloaded),
        whole,
      )
