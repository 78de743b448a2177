-- ===== src/Runner/Help.antt =====
-- cmd/client/cmd/runner/runner.go: `printHelp`.
use ssnproj.Base.{[], ◌∷◌, List, ◌++◌}
use ssnproj.Bytes.BigEndian.{Bytes}
use ssnproj.Strings.{utf8_text}

abbrev help_lines : List Bytes
help_lines =
    utf8_text "\n╔══════════════════════════════════════════════════════════════╗"
    ∷ utf8_text "║          Secure File Transfer Client - Commands             ║"
    ∷ utf8_text "╚══════════════════════════════════════════════════════════════╝"
    ∷ utf8_text ""
    ∷ utf8_text "  upload <filename>              Upload a file to the server"
    ∷ utf8_text "  download <filename> [output]   Download a file from the server"
    ∷ utf8_text "  list                           List all files on the server"
    ∷ utf8_text "  delete <filename>              Delete a file from the server"
    ∷ utf8_text "  help                           Show this help message"
    ∷ utf8_text "  exit                           Disconnect and exit"
    ∷ utf8_text ""
    ∷ utf8_text "Aliases:"
    ∷ utf8_text "  up = upload  |  dl = download  |  ls = list  |  rm/del = delete"
    ∷ utf8_text ""
    ∷ []

abbrev unlines : List Bytes → Bytes
unlines [] = []
unlines (line ∷ lines) = line ++ (b'\n' ∷ unlines lines)

-- What is printed.
abbrev pub help : Bytes
help = unlines help_lines
