-- ===== src/Runner/Commands.antt =====
-- Typed lines by their words, and a session of an upload and a download.
use ssnproj.Base.{
  ℕ, suc, ◌≡◌, ◌⊎◌, refl, ap, ◌∙◌, [], ◌∷◌, List, ◌++◌, length, false, Bool-cases, inl, inr,
  if◌then◌else◌, some, Result, Error, ok, err, exit_requested,
}
use ssnproj.Bytes.BigEndian.{Bytes}
use ssnproj.Paths.{bytes_eq}
use ssnproj.Paths.Names.{bytes_eq→eq}
use ssnproj.Strings.{utf8_text, trim_space, fields, to_lower}
use ssnproj.Crypto.{CryptoLib}
use ssnproj.Server.World.{text}
use ssnproj.Client.{Conn, upload_file, download_file}
use ssnproj.Client.Download.{ClientOs}
use ssnproj.Runner.Help.{help}
use ssnproj.Runner.{
  Terminal, next_line, print, read_string, Choice, upload_choice, download_choice, exit_choice,
  choose, quoted, finished, on_round, report, failed_with, run_choice, run_parts, on_input,
  process_command, run_rounds, run_interactive_cli,
}

-- The words for an upload, a download and the exit.
abbrev pub AsksUpload : Bytes → Type 0
AsksUpload word = (word ≡ text "upload") ⊎ (word ≡ text "up")

abbrev pub AsksDownload : Bytes → Type 0
AsksDownload word = (word ≡ text "download") ⊎ (word ≡ text "dl")

abbrev pub AsksExit : Bytes → Type 0
AsksExit word = (word ≡ text "exit") ⊎ ((word ≡ text "quit") ⊎ (word ≡ text "q"))

pub choose-AsksUpload : (word : Bytes) → AsksUpload word → choose word ≡ upload_choice
unfolding choose bytes_eq
choose-AsksUpload word (inl is) = ap choose is
choose-AsksUpload word (inr is) = ap choose is

pub choose-AsksDownload : (word : Bytes) → AsksDownload word → choose word ≡ download_choice
unfolding choose bytes_eq
choose-AsksDownload word (inl is) = ap choose is
choose-AsksDownload word (inr is) = ap choose is

pub choose-AsksExit : (word : Bytes) → AsksExit word → choose word ≡ exit_choice
unfolding choose bytes_eq
choose-AsksExit word (inl is) = ap choose is
choose-AsksExit word (inr (inl is)) = ap choose is
choose-AsksExit word (inr (inr is)) = ap choose is

-- A terminal with these lines, this behind them, and what was printed.
abbrev pub typed : List Bytes → Bytes → List Bytes → Terminal
typed lines unfinished printed = record {
  lines = lines;
  unfinished = unfinished;
  printed = printed;
}

-- What the client prints for an upload and a download that went well.
abbrev pub uploaded_text : Bytes → Bytes
uploaded_text filename = quoted (utf8_text "✓ File '") filename (text "' uploaded successfully\n")

abbrev pub downloaded_text : Bytes → Bytes
downloaded_text output_path = quoted (utf8_text "✓ File downloaded to '") output_path (text "'\n")

module _ {W : Type 0} (lib : CryptoLib W) (conn : Conn W) (os : ClientOs W)
    (show_error : Error → Bytes) where
  no_fields : fields [] ≡ []
  unfolding fields
  no_fields = refl

  fields_some :
      (input : Bytes) (part : Bytes) (parts : List Bytes)
      → fields input ≡ part ∷ parts
      → bytes_eq input [] ≡ false
  fields_some input part parts e = elim (Bool-cases (bytes_eq input [])) [
    | inl empty ↦ cc (no_fields, ap fields (bytes_eq→eq input [] empty), e)
    | inr some_ ↦ some_
  ]

  -- A line with a word is run by its first word.
  pub process_command-fields :
      (aes_key line part : Bytes) (lines parts : List Bytes) (choice : Choice) (t : Terminal)
      (w : W)
      → t.lines ≡ line ∷ lines
      → fields (trim_space (line ++ (b'\n' ∷ []))) ≡ part ∷ parts
      → choose (to_lower part) ≡ choice
      → process_command lib conn os show_error aes_key (t, w)
        ≡ some (
            run_choice lib conn os show_error aes_key choice
              (to_lower part)
              (part ∷ parts)
              (record (print (text "\n> ") t) { lines = lines }, w))
  unfolding process_command read_string
  process_command-fields key line part lines parts choice t w entered split chosen =
      let t1 : Terminal = record (print (text "\n> ") t) { lines = lines } in
      ap (λ ls. on_input lib conn os show_error key (next_line ls (print (text "\n> ") t)) w)
        entered
      ∙ ap
          (λ b.
            if b
            then some (ok tt, (t1, w))
            else run_parts lib conn os show_error key (fields (trim_space (line ++ (b'\n' ∷ []))))
                (t1, w))
          (fields_some (trim_space (line ++ (b'\n' ∷ []))) part parts split)
      ∙ ap (λ ps. run_parts lib conn os show_error key ps (t1, w)) split
      ∙ ap
          (λ c.
            some (run_choice lib conn os show_error key c (to_lower part) (part ∷ parts) (t1, w)))
          chosen

  round :
      (key : Bytes) (fuel : ℕ) (s s' : Terminal × W)
      → process_command lib conn os show_error key s ≡ some (ok tt, s')
      → run_rounds lib conn os show_error key (suc fuel) s
        ≡ run_rounds lib conn os show_error key fuel s'
  unfolding run_rounds
  round key fuel s s' e = ap (on_round (run_rounds lib conn os show_error key fuel)) e

  last_round :
      (key : Bytes) (fuel : ℕ) (s s' : Terminal × W)
      → process_command lib conn os show_error key s ≡ some (err exit_requested, s')
      → run_rounds lib conn os show_error key (suc fuel) s ≡ finished (ok tt) s'
  unfolding run_rounds
  last_round key fuel s s' e = ap (on_round (run_rounds lib conn os show_error key fuel)) e

  -- A session of three typed lines, an upload and a download that go well, and the exit.
  pub run_interactive_cli-upload_file :
      (key line1 line2 line3 command1 command2 command3 filename name output_path : Bytes)
      (lines more1 more2 more3 : List Bytes) (unfinished : Bytes) (printed : List Bytes) (w x y : W)
      → fields (trim_space (line1 ++ (b'\n' ∷ []))) ≡ command1 ∷ filename ∷ more1
      → choose (to_lower command1) ≡ upload_choice
      → fields (trim_space (line2 ++ (b'\n' ∷ []))) ≡ command2 ∷ name ∷ output_path ∷ more2
      → choose (to_lower command2) ≡ download_choice
      → fields (trim_space (line3 ++ (b'\n' ∷ []))) ≡ command3 ∷ more3
      → choose (to_lower command3) ≡ exit_choice
      → upload_file lib conn os key filename w ≡ (ok tt, x)
      → download_file lib conn os key name output_path x ≡ (ok tt, y)
      → run_interactive_cli lib conn os show_error key
          (typed (line1 ∷ line2 ∷ line3 ∷ lines) unfinished printed, w)
        ≡ finished (ok tt) (
          typed lines unfinished (
              text "Goodbye!\n"
              ∷ text "\n> "
              ∷ downloaded_text output_path
              ∷ text "\n> "
              ∷ uploaded_text filename
              ∷ text "\n> "
              ∷ help
              ∷ printed),
          y,
        )
  unfolding run_interactive_cli
  run_interactive_cli-upload_file key line1 line2 line3 command1 command2 command3 filename name
        output_path lines more1 more2 more3 unfinished printed w x y words1 up words2 down words3
        out uploaded downloaded =
      let before1 = help ∷ printed in
      let before2 = uploaded_text filename ∷ text "\n> " ∷ before1 in
      let before3 = downloaded_text output_path ∷ text "\n> " ∷ before2 in
      let t1 = typed (line1 ∷ line2 ∷ line3 ∷ lines) unfinished before1 in
      let t2 = typed (line2 ∷ line3 ∷ lines) unfinished before2 in
      let t3 = typed (line3 ∷ lines) unfinished before3 in
      let failed_up = failed_with lib conn os show_error (text "Error uploading file: ") in
      let failed_down = failed_with lib conn os show_error (text "Error downloading file: ") in
      round key (suc (suc (suc (length lines)))) (t1, w) (t2, x)
        (process_command-fields key line1 command1 (line2 ∷ line3 ∷ lines) (filename ∷ more1)
            upload_choice t1 w refl words1 up
          ∙ ap
              (λ (q : Result (Unit {0}) × W). some (
                ok tt,
                report lib conn os show_error failed_up (λ _. uploaded_text filename) q
                    (typed (line2 ∷ line3 ∷ lines) unfinished (text "\n> " ∷ before1)),
              ))
              uploaded)
      ∙ round key (suc (suc (length lines))) (t2, x) (t3, y)
          (process_command-fields key line2 command2 (line3 ∷ lines) (name ∷ output_path ∷ more2)
              download_choice t2 x refl words2 down
            ∙ ap
                (λ (q : Result (Unit {0}) × W). some (
                  ok tt,
                  report lib conn os show_error failed_down (λ _. downloaded_text output_path) q
                      (typed (line3 ∷ lines) unfinished (text "\n> " ∷ before2)),
                ))
                downloaded)
      ∙ last_round key (suc (length lines)) (t3, y)
          (typed lines unfinished (text "Goodbye!\n" ∷ text "\n> " ∷ before3), y)
          (process_command-fields key line3 command3 lines more3 exit_choice t3 y refl words3 out)
