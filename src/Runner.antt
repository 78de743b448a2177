-- ===== src/Runner.antt =====
-- cmd/client/cmd/runner/runner.go: the command line of the client. The client and its server act on
-- a world `W`; the terminal stands beside it. What the logger writes is left out, and the text that
-- `%v` makes of an error is a parameter.
pub mod Help
pub mod Ends
pub mod Deletes
pub mod Commands
use ssnproj.Base.{
  ℕ, zero, suc, [], ◌∷◌, List, ◌++◌, length, ◌||◌, ◌&&◌, not, Bool, true, false, if◌then◌else◌,
  Option, none, some,
}
use ssnproj.Base.{
  Result, Error, ok, err, wrap, eof, exit_requested, read_input, create_client, handshake_failed,
}
use ssnproj.Bytes.BigEndian.{Bytes}
use ssnproj.Paths.{bytes_eq, base}
use ssnproj.Strings.{utf8_text, trim_space, fields, to_lower}
use ssnproj.Crypto.{CryptoLib}
use ssnproj.Effects.{Action, pure, raise}
use ssnproj.Server.World.{text}
use ssnproj.Server.Connection.{key_bytes}
use ssnproj.Client.{
  Conn, ClientState, perform_handshake, upload_file, download_file, list_files, delete_file,
  new_client, close_client,
}
use ssnproj.Client.Download.{ClientOs}
use ssnproj.Runner.Help.{help}

-- The lines that are still to be read, what follows the last of them, and what was printed, the
-- last piece first.
pub record Terminal : Type 0 where
  pub lines : List Bytes
  pub unfinished : Bytes
  pub printed : List Bytes

-- `fmt.Print` of a text
abbrev pub print : Bytes → Terminal → Terminal
print s t = record t { printed = s ∷ t.printed }

abbrev pub print_line : Bytes → Terminal → Terminal
print_line s t = print (s ++ (b'\n' ∷ [])) t

-- `ReadString('\n')`: the text up to the end of the line, and whether the line has an end.
abbrev pub next_line : List Bytes → Terminal → (Bytes × Bool) × Terminal
next_line [] t = ((t.unfinished, false), record t { lines = []; unfinished = [] })
next_line (line ∷ lines) t = ((line ++ (b'\n' ∷ []), true), record t { lines = lines })

unfoldable pub read_string : Terminal → (Bytes × Bool) × Terminal
read_string t = next_line t.lines t

-- What a line asks for.
pub data Choice : Type 0 where
  help_choice upload_choice download_choice list_choice delete_choice exit_choice other_choice :
      Choice

abbrev is_any : Bytes → List Bytes → Bool
is_any x [] = false
is_any x (y ∷ ys) = bytes_eq x y || is_any x ys

unfoldable pub choose : Bytes → Choice
choose command =
    if is_any command (text "help" ∷ text "h" ∷ [])
    then help_choice
    else (if is_any command (text "upload" ∷ text "up" ∷ [])
        then upload_choice
        else (if is_any command (text "download" ∷ text "dl" ∷ [])
            then download_choice
            else (if is_any command (text "list" ∷ text "ls" ∷ [])
                then list_choice
                else (if is_any command (text "delete" ∷ text "del" ∷ text "rm" ∷ [])
                    then delete_choice
                    else (if is_any command (text "exit" ∷ text "quit" ∷ text "q" ∷ [])
                        then exit_choice
                        else other_choice)))))

-- `confirm != "y" && confirm != "yes"`, of the trimmed answer in lower case.
unfoldable pub is_confirmed : Bytes → Bool
is_confirmed answer =
    let confirm = trim_space (to_lower answer) in
    not (not (bytes_eq confirm (text "y")) && not (bytes_eq confirm (text "yes")))

-- The end of a session: with a result, by a run-time panic or `log.Fatal`, or the model ran out of
-- fuel.
pub data Ended (S : Type 0) : Type 0 where
  finished : Result (Unit {0}) → S → Ended S
  crashed : Ended S
  stuck : Ended S

module _ {S : Type 0} where
  -- One round of the loop; the error with the text "exit" ends it without one.
  abbrev pub on_round : (S → Ended S) → Option (Result (Unit {0}) × S) → Ended S
  on_round rest none = crashed
  on_round rest (some (ok _, s)) = rest s
  on_round rest (some (err exit_requested, s)) = finished (ok tt) s
  on_round rest (some (err e, s)) = finished (err e) s

  abbrev pub map_end : (S → S) → Ended S → Ended S
  map_end f (finished r s) = finished r (f s)
  map_end f crashed = crashed
  map_end f stuck = stuck

abbrev pub quoted : Bytes → Bytes → Bytes → Bytes
quoted before s after = before ++ (s ++ after)

module _ {W : Type 0} (lib : CryptoLib W) (conn : Conn W) (os : ClientOs W)
    (show_error : Error → Bytes) where
  -- A request, and the message about its end.
  abbrev pub report :
      {A : Type 0} → (Error → Bytes) → (A → Bytes) → Result A × W → Terminal → Terminal × W
  report failed done (err e, w) t = (print (failed e) t, w)
  report failed done (ok a, w) t = (print (done a) t, w)

  abbrev pub failed_with : Bytes → Error → Bytes
  failed_with prefix e = quoted prefix (show_error e) (b'\n' ∷ [])

  abbrev pub run_upload : Bytes → List Bytes → Terminal × W → Terminal × W
  run_upload aes_key (command ∷ filename ∷ _) (t, w) =
      report (failed_with (text "Error uploading file: "))
        (λ _. quoted (utf8_text "✓ File '") filename (text "' uploaded successfully\n"))
        (upload_file lib conn os aes_key filename w) t
  run_upload aes_key parts (t, w) = (print_line (text "Usage: upload <filename>") t, w)

  abbrev pub run_download_to : Bytes → Bytes → Bytes → Terminal × W → Terminal × W
  run_download_to aes_key filename output_path (t, w) =
      report (failed_with (text "Error downloading file: "))
        (λ _. quoted (utf8_text "✓ File downloaded to '") output_path (text "'\n"))
        (download_file lib conn os aes_key filename output_path w) t

  abbrev pub run_download : Bytes → List Bytes → Terminal × W → Terminal × W
  run_download aes_key (command ∷ filename ∷ []) s =
      run_download_to aes_key filename (base filename) s
  run_download aes_key (command ∷ filename ∷ output_path ∷ _) s =
      run_download_to aes_key filename output_path s
  run_download aes_key parts (t, w) =
      (print_line (text "Usage: download <filename> [output_path]") t, w)

  abbrev pub listing : Bytes → Bytes
  listing file_list =
      quoted (text "\nFiles on server:\n================\n")
        (if bytes_eq file_list [] then text "(no files)" else file_list) (b'\n' ∷ [])

  abbrev pub run_list : Bytes → Terminal × W → Terminal × W
  run_list aes_key (t, w) =
      report (failed_with (text "Error listing files: ")) listing (list_files lib conn aes_key w) t

  abbrev pub on_confirmation : Bytes → Bytes → (Bytes × Bool) × Terminal → W → Terminal × W
  on_confirmation aes_key filename ((answer, ended), t) w =
      if is_confirmed answer
      then report (failed_with (text "Error deleting file: "))
          (λ _. quoted (utf8_text "✓ File '") filename (text "' deleted successfully\n"))
          (delete_file lib conn aes_key filename w) t
      else (print_line (text "Delete cancelled") t, w)

  abbrev pub run_delete : Bytes → List Bytes → Terminal × W → Terminal × W
  run_delete aes_key (command ∷ filename ∷ _) (t, w) =
      on_confirmation aes_key filename
        (read_string (
          print (quoted (text "Are you sure you want to delete '") filename (text "'? (y/n): ")) t))
        w
  run_delete aes_key parts (t, w) = (print_line (text "Usage: delete <filename>") t, w)

  abbrev pub run_choice : Bytes → Choice → Bytes → List Bytes → Action (Terminal × W) (Unit {0})
  run_choice aes_key help_choice command parts (t, w) = (ok tt, (print help t, w))
  run_choice aes_key upload_choice command parts s = (ok tt, run_upload aes_key parts s)
  run_choice aes_key download_choice command parts s = (ok tt, run_download aes_key parts s)
  run_choice aes_key list_choice command parts s = (ok tt, run_list aes_key s)
  run_choice aes_key delete_choice command parts s = (ok tt, run_delete aes_key parts s)
  run_choice aes_key exit_choice command parts (t, w) =
      (err exit_requested, (print_line (text "Goodbye!") t, w))
  run_choice aes_key other_choice command parts (t, w) = (
    ok tt,
    (
      print_line (text "Type 'help' for available commands")
          (print (quoted (text "Unknown command: ") command (b'\n' ∷ [])) t),
      w,
    ),
  )

  -- The first part of the input is the command; without parts the access to it would panic.
  abbrev pub run_parts :
      Bytes → List Bytes → Terminal × W → Option (Result (Unit {0}) × (Terminal × W))
  run_parts aes_key [] s = none
  run_parts aes_key (part ∷ parts) s =
      let command = to_lower part in
      some (run_choice aes_key (choose command) command (part ∷ parts) s)

  abbrev pub run_input : Bytes → Bytes → Terminal × W → Option (Result (Unit {0}) × (Terminal × W))
  run_input aes_key input s =
      if bytes_eq input [] then some (ok tt, s) else run_parts aes_key (fields input) s

  abbrev pub on_input :
      Bytes → (Bytes × Bool) × Terminal → W → Option (Result (Unit {0}) × (Terminal × W))
  on_input aes_key ((input, false), t) w = some (err (wrap read_input eof), (t, w))
  on_input aes_key ((input, true), t) w = run_input aes_key (trim_space input) (t, w)

  unfoldable pub process_command :
      Bytes → Terminal × W → Option (Result (Unit {0}) × (Terminal × W))
  process_command aes_key (t, w) = on_input aes_key (read_string (print (text "\n> ") t)) w

  -- The loop, under a context that is never done.
  unfoldable pub run_rounds : Bytes → ℕ → Terminal × W → Ended (Terminal × W)
  run_rounds aes_key zero s = stuck
  run_rounds aes_key (suc fuel) s = on_round (run_rounds aes_key fuel) (process_command aes_key s)

  -- Each round reads a line, so a round more than there are lines is enough.
  unfoldable pub run_interactive_cli : Bytes → Terminal × W → Ended (Terminal × W)
  run_interactive_cli aes_key (t, w) = run_rounds aes_key (suc (length t.lines)) (print help t, w)

  module _ (dial : Bytes → Action W (Unit {0})) (close : Action W (Unit {0})) where
    -- The deferred `Close`, whose error is dropped.
    abbrev pub close_after : Terminal × W → Terminal × W
    close_after (t, w) = (t, (close_client close w).1)

    abbrev pub after_handshake :
        Terminal → Option (Result (Unit {0}) × ClientState W) → Ended (Terminal × W)
    after_handshake t none = crashed
    after_handshake t (some (err e, (_, w))) =
        map_end close_after (finished (err (wrap handshake_failed e)) (t, w))
    after_handshake t (some (ok _, (aes_key, w))) =
        map_end close_after (run_interactive_cli (key_bytes aes_key) (t, w))

    abbrev pub after_dial : Terminal → Result (Unit {0}) × W → Ended (Terminal × W)
    after_dial t (err e, w) = finished (err (wrap create_client e)) (t, w)
    after_dial t (ok _, w) = after_handshake t (perform_handshake lib conn (none, w))

    unfoldable pub run_client : Bytes → Bytes → Terminal × W → Ended (Terminal × W)
    run_client host port (t, w) = after_dial t (new_client dial host port w)
