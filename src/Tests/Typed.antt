-- ===== src/Tests/Typed.antt =====
-- Lines that are typed at the client's prompt.
use ssnproj.Base.{◌≡◌, refl, [], ◌∷◌, ◌++◌, some, ◌⊎◌, inl, Result, Error, ok}
use ssnproj.Bytes.BigEndian.{Bytes}
use ssnproj.Strings.{trim_space, fields, to_lower}
use ssnproj.Server.World.{text}
use ssnproj.Client.{delete_file}
use ssnproj.Runner.{Terminal, process_command, finished, run_interactive_cli}
use ssnproj.Runner.Ends.{run_interactive_cli_finishes}
use ssnproj.Runner.Deletes.{Confirms, process_command-delete}
use ssnproj.Tests.Disk.{plain_lib}
use ssnproj.Tests.Arrivals.{Line, line_conn, line_os, full_line}

abbrev say : Error → Bytes
say _ = text "failed"

abbrev typed_lines : Terminal
typed_lines = record {
  lines = text " Delete notes" ∷ text "n" ∷ text "list" ∷ [];
  unfinished = text "he";
  printed = [];
}

run_interactive_cli_finishes_example :
    (r : Result (Unit {0})) × (s : Terminal × Line) × (run_interactive_cli plain_lib line_conn
        line_os say
        (text "k")
        (typed_lines, full_line)
      ≡ finished r s)
run_interactive_cli_finishes_example =
    run_interactive_cli_finishes plain_lib line_conn line_os say (text "k") typed_lines full_line

typed_words :
    fields (trim_space (text " Delete notes" ++ (b'\n' ∷ []))) ≡ text "Delete" ∷ text "notes" ∷ []
unfolding fields trim_space
typed_words = refl

typed_word : to_lower (text "Delete") ≡ text "delete"
unfolding to_lower
typed_word = refl

process_command-delete_example :
    (u : Terminal) × (v : Line) × (process_command plain_lib line_conn line_os say
        (text "k")
        (typed_lines, full_line)
      ≡ some (ok tt, (u, v)))
    × (u.lines ≡ text "list" ∷ [])
    × ((Confirms (text "n")
          × (v ≡ (delete_file plain_lib line_conn (text "k") (text "notes") full_line).1))
        ⊎ ((¬ Confirms (text "n")) × (v ≡ full_line)))
process_command-delete_example =
    process_command-delete plain_lib line_conn line_os say (text "k") (text " Delete notes")
      (text "n") (text "Delete") (text "notes") (text "list" ∷ []) [] typed_lines full_line refl
      typed_words (inl typed_word)
