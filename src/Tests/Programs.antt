-- ===== src/Tests/Programs.antt =====
-- Three lines typed at a client that is connected to a server.
use ssnproj.Base.{◌≡◌, refl, [], ◌∷◌, ◌++◌, arith, ok, Error, false, inl, inr}
use ssnproj.Bytes.BigEndian.{Bytes}
use ssnproj.Paths.{base, bytes_eq, split}
use ssnproj.Strings.{trim_space, fields, to_lower}
use ssnproj.Effects.{Action}
use ssnproj.Server.World.{text}
use ssnproj.Client.{close_client}
use ssnproj.Runner.{finished, run_client}
use ssnproj.Runner.Help.{help}
use ssnproj.Runner.Commands.{typed, uploaded_text, downloaded_text}
use ssnproj.Session.{Link, client_lib, link_conn}
use ssnproj.Session.Exchange.{ready_link}
use ssnproj.Session.Handshake.{new_link}
use ssnproj.Session.Program.{run_client_returns_file}
use ssnproj.Tests.Uploads.{Wired, wired_os, wire, wired_network, tagged_lib, at_start}
use ssnproj.Tests.Returns.{
  own_os, one_hash, three_bytes, wired-Sound, tagged-OaepOpens, own-LocalDisk, Named,
  own-LocalPaths, own-LocalFiles, notes-IsName, srv_rooted, short_notes,
}

abbrev reach : Bytes → Action (Link Wired) (Unit {0})
reach _ _ = (ok tt, new_link (text "/srv") at_start)

abbrev hang_up : Action (Link Wired) (Unit {0})
hang_up v = (ok tt, record v { is_open = false })

abbrev no_text : Error → Bytes
no_text _ = []

upload_words :
    fields (trim_space (text "Upload dir/notes" ++ (b'\n' ∷ [])))
    ≡ text "Upload" ∷ text "dir/notes" ∷ []
unfolding fields trim_space
upload_words = refl

upload_chosen : to_lower (text "Upload") ≡ text "upload"
unfolding to_lower
upload_chosen = refl

download_words :
    fields (trim_space (text " dl notes copy" ++ (b'\n' ∷ [])))
    ≡ text "dl" ∷ base (text "dir/notes") ∷ text "copy" ∷ []
unfolding fields trim_space base bytes_eq split
download_words = refl

download_chosen : to_lower (text "dl") ≡ text "dl"
unfolding to_lower
download_chosen = refl

exit_words : fields (trim_space (text "quit" ++ (b'\n' ∷ []))) ≡ text "quit" ∷ []
unfolding fields trim_space
exit_words = refl

exit_chosen : to_lower (text "quit") ≡ text "quit"
unfolding to_lower
exit_chosen = refl

here_first : own_os.read_local (text "dir/notes") (new_link (text "/srv") at_start) ≡ ok three_bytes
unfolding bytes_eq
here_first = refl

run_client_returns_file_example :
    (key : Bytes) × (u : Wired) × (run_client
        (client_lib tagged_lib)
        (link_conn wired_os tagged_lib wire one_hash wired_network)
        own_os
        no_text
        reach
        hang_up
        (text "localhost")
        (text "8080")
        (
          typed
              (text "Upload dir/notes" ∷ text " dl notes copy" ∷ text "quit" ∷ text "list" ∷ [])
              []
              [],
          new_link (text "/srv") at_start,
        )
      ≡ finished (ok tt) (
        typed (text "list" ∷ []) [] (
            text "Goodbye!\n"
            ∷ text "\n> "
            ∷ downloaded_text (text "copy")
            ∷ text "\n> "
            ∷ uploaded_text (text "dir/notes")
            ∷ text "\n> "
            ∷ help
            ∷ []),
        (close_client hang_up (ready_link (text "/srv") key u)).1,
      ))
    × (own_os.read_local (text "copy") (ready_link (text "/srv") key u) ≡ ok three_bytes)
run_client_returns_file_example =
    run_client_returns_file wired_os tagged_lib wire one_hash wired_network (text "/srv") own_os
      (λ f v. v.server.output) Named no_text reach hang_up (text "localhost") (text "8080")
      (text "Upload dir/notes") (text " dl notes copy") (text "quit") (text "Upload") (text "dl")
      (text "quit") (text "dir/notes") (text "copy") three_bytes (text "list" ∷ []) [] [] [] [] []
      (new_link (text "/srv") at_start) at_start wired-Sound tagged-OaepOpens own-LocalFiles
      own-LocalDisk own-LocalPaths srv_rooted (λ key. omega arith) notes-IsName
      (omega (arith, short_notes)) (omega arith) (omega arith) here_first refl refl upload_words
      (inl upload_chosen) download_words (inr download_chosen) exit_words (inr (inl exit_chosen))
