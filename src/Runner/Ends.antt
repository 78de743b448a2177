-- ===== src/Runner/Ends.antt =====
-- A session on the command line ends, and no input makes it panic.
use ssnproj.Base.{
  ℕ, zero, suc, ◌<◌, ◌≤◌, ◌≡◌, refl, sym, ap, [], ◌∷◌, List, ◌++◌, length, arith, Bool, true, false,
  Bool-cases, ◌⊎◌, inl, inr, if◌then◌else◌, Option, some,
}
use ssnproj.Base.{Result, Error, ok, err, wrap, eof, exit_requested, read_input}
use ssnproj.Bytes.BigEndian.{Bytes}
use ssnproj.Paths.{bytes_eq}
use ssnproj.Paths.Names.{bytes_eq-false→ne}
use ssnproj.Strings.{to_lower, trim_space, fields, HasWord, trim_space-HasWord, fields-cons}
use mathlib.Core.Path.{subst}
use ssnproj.Crypto.{CryptoLib}
use ssnproj.Server.World.{text}
use ssnproj.Client.{Conn}
use ssnproj.Client.Download.{ClientOs}
use ssnproj.Runner.{
  Terminal, next_line, choose, print, read_string, Choice, help_choice, upload_choice,
  download_choice, list_choice, delete_choice, exit_choice, other_choice, is_confirmed, Ended,
  finished, on_round, report, run_upload, run_download, on_confirmation, run_delete, run_choice,
  run_parts, run_input, on_input, process_command, run_rounds, run_interactive_cli,
}

abbrev left : {W : Type 0} → Terminal × W → ℕ
left (t, w) = length t.lines

next_line-lines :
    (lines : List Bytes) (t : Terminal) → length (next_line lines t).1.lines ≤ length lines
next_line-lines [] t = omega arith
next_line-lines (line ∷ lines) t = omega arith

read_string-lines : (t : Terminal) → length (read_string t).1.lines ≤ length t.lines
unfolding read_string
read_string-lines t = next_line-lines t.lines t

some_first :
    {x : List Bytes} (w : Bytes) (ws : List Bytes)
    → x ≡ w ∷ ws
    → (u : Bytes) × (us : List Bytes) × (x ≡ u ∷ us)
some_first w ws e = (w, ws, e)

module _ {W : Type 0} (lib : CryptoLib W) (conn : Conn W) (os : ClientOs W)
    (show_error : Error → Bytes) where
  report-left :
      {A : Type 0} (failed : Error → Bytes) (done : A → Bytes) (q : Result A × W) (t : Terminal)
      → left (report lib conn os show_error failed done q t) ≤ length t.lines
  report-left failed done (err e, w) t = omega arith
  report-left failed done (ok a, w) t = omega arith

  run_upload-left :
      (key : Bytes) (parts : List Bytes) (t : Terminal) (w : W)
      → left (run_upload lib conn os show_error key parts (t, w)) ≤ length t.lines
  run_upload-left key [] t w = omega arith
  run_upload-left key (a ∷ []) t w = omega arith
  run_upload-left key (a ∷ f ∷ rest) t w = report-left _ _ _ t

  run_download-left :
      (key : Bytes) (parts : List Bytes) (t : Terminal) (w : W)
      → left (run_download lib conn os show_error key parts (t, w)) ≤ length t.lines
  run_download-left key [] t w = omega arith
  run_download-left key (a ∷ []) t w = omega arith
  run_download-left key (a ∷ f ∷ []) t w = report-left _ _ _ t
  run_download-left key (a ∷ f ∷ o ∷ rest) t w = report-left _ _ _ t

  if-left :
      (b : Bool) (x y : Terminal × W) (n : ℕ)
      → left x ≤ n
      → left y ≤ n
      → left (if b then x else y) ≤ n
  if-left true x y n hx hy = hx
  if-left false x y n hx hy = hy

  on_confirmation-left :
      (key filename : Bytes) (q : (Bytes × Bool) × Terminal) (w : W)
      → left (on_confirmation lib conn os show_error key filename q w) ≤ length q.1.lines
  on_confirmation-left key filename ((answer, ended), t) w =
      if-left (is_confirmed answer) _ _ _ (report-left _ _ _ t) (omega arith)

  run_delete-left :
      (key : Bytes) (parts : List Bytes) (t : Terminal) (w : W)
      → left (run_delete lib conn os show_error key parts (t, w)) ≤ length t.lines
  run_delete-left key [] t w = omega arith
  run_delete-left key (a ∷ []) t w = omega arith
  run_delete-left key (a ∷ f ∷ rest) t w =
      let asked = print (text "Are you sure you want to delete '" ++ (f ++ text "'? (y/n): ")) t in
      omega (arith, on_confirmation-left key f (read_string asked) w, read_string-lines asked)

  run_choice-left :
      (key : Bytes) (c : Choice) (command : Bytes) (parts : List Bytes) (t : Terminal) (w : W)
      → left (run_choice lib conn os show_error key c command parts (t, w)).1 ≤ length t.lines
  run_choice-left key help_choice command parts t w = omega arith
  run_choice-left key upload_choice command parts t w = run_upload-left key parts t w
  run_choice-left key download_choice command parts t w = run_download-left key parts t w
  run_choice-left key list_choice command parts t w = report-left _ _ _ t
  run_choice-left key delete_choice command parts t w = run_delete-left key parts t w
  run_choice-left key exit_choice command parts t w = omega arith
  run_choice-left key other_choice command parts t w = omega arith

  -- The outcome of a round: never a panic.
  abbrev Goes : ℕ → Option (Result (Unit {0}) × (Terminal × W)) → Type 0
  Goes n o = (r : Result (Unit {0})) × (s : Terminal × W) × (o ≡ some (r, s)) × (left s ≤ n)

  run_parts-Goes :
      (key : Bytes) (parts : List Bytes) (p : Bytes) (ps : List Bytes) (t : Terminal) (w : W)
      → parts ≡ p ∷ ps
      → Goes (length t.lines) (run_parts lib conn os show_error key parts (t, w))
  run_parts-Goes key parts p ps t w e =
      let q =
        run_choice lib conn os show_error key (choose (to_lower p)) (to_lower p) (p ∷ ps) (t, w) in
      (
        q.0,
        q.1,
        ap (λ l. run_parts lib conn os show_error key l (t, w)) e,
        run_choice-left key (choose (to_lower p)) (to_lower p) (p ∷ ps) t w,
      )

  run_input-Goes :
      (key input : Bytes) (t : Terminal) (w : W)
      → (input ≡ []) ⊎ HasWord input
      → Goes (length t.lines) (run_input lib conn os show_error key input (t, w))
  run_input-Goes key input t w h = elim (Bool-cases (bytes_eq input [])) [
    | inl empty ↦ (ok tt, (t, w), rw empty, omega arith)
    | inr some_input ↦ elim h [
      | inl empty ↦ absurd (bytes_eq-false→ne input [] some_input empty)
      | inr word ↦
          let (p, ps, e) = fields-cons input word in
          let (r, s, went, fewer) = run_parts-Goes key (fields input) p ps t w e in
          (r, s, rw some_input went, fewer)
    ]
  ]

  on_input-Goes :
      (key : Bytes) (line : Bytes) (t : Terminal) (w : W)
      → Goes (length t.lines) (on_input lib conn os show_error key ((line, true), t) w)
  on_input-Goes key line t w = run_input-Goes key (trim_space line) t w (trim_space-HasWord line)

  abbrev Finishes : Ended (Terminal × W) → Type 0
  Finishes e = (r : Result (Unit {0})) × (s : Terminal × W) × (e ≡ finished r s)

  on_round-err :
      (rest : Terminal × W → Ended (Terminal × W)) (e : Error) (s : Terminal × W)
      → Finishes (on_round rest (some (err e, s)))
  on_round-err rest exit_requested s = (ok tt, s, refl)
  on_round-err rest e s = (err e, s, refl)

  on_round-Finishes :
      (rest : Terminal × W → Ended (Terminal × W)) (n : ℕ)
      (o : Option (Result (Unit {0}) × (Terminal × W)))
      → Goes n o
      → ((s : Terminal × W) → left s ≤ n → Finishes (rest s))
      → Finishes (on_round rest o)
  on_round-Finishes rest n o (ok tt, s, e, fewer) goes_on =
      subst (λ x. Finishes (on_round rest x)) (sym e) (goes_on s fewer)
  on_round-Finishes rest n o (err x, s, e, fewer) goes_on =
      subst (λ y. Finishes (on_round rest y)) (sym e) (on_round-err rest x s)

  -- The round that reads the next of the lines, or finds none.
  round_on :
      (key : Bytes) (lines : List Bytes) (rest : Terminal × W → Ended (Terminal × W)) (t : Terminal)
      (w : W)
      → ((s : Terminal × W) → left s < length lines → Finishes (rest s))
      → Finishes (on_round rest (on_input lib conn os show_error key (next_line lines t) w))
  round_on key [] rest t w goes_on = (err (wrap read_input eof), _, refl)
  round_on key (line ∷ lines) rest t w goes_on =
      on_round-Finishes rest (length lines) _
        (on_input-Goes key (line ++ (b'\n' ∷ [])) (record t { lines = lines }) w)
        (λ s fewer. goes_on s (omega arith))

  -- Rounds on the lines that are left, with fuel for one more.
  rounds_finish :
      (key : Bytes) (fuel : ℕ) (s : Terminal × W)
      → left s < fuel
      → Finishes (run_rounds lib conn os show_error key fuel s)
  unfolding run_rounds process_command read_string
  rounds_finish key zero (t, w) h = absurd (omega arith)
  rounds_finish key (suc fuel) (t, w) h =
      round_on key t.lines (run_rounds lib conn os show_error key fuel) (print (text "\n> ") t) w
        (λ s fewer. rounds_finish key fuel s (omega arith))

  -- Whatever is typed, and whatever the server answers, the session on the command line ends when
  -- the input does, at the latest: with no panic, and before the model runs out of fuel.
  pub run_interactive_cli_finishes :
      (aes_key : Bytes) (t : Terminal) (w : W)
      → (r : Result (Unit {0})) × (s : Terminal × W) × (run_interactive_cli lib conn os show_error
            aes_key
            (t, w)
          ≡ finished r s)
  unfolding run_interactive_cli
  run_interactive_cli_finishes aes_key t w =
      rounds_finish aes_key (suc (length t.lines)) _ (omega arith)
