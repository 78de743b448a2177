-- ===== src/Runner/Deletes.antt =====
-- Deletion on the command line asks first.
use ssnproj.Base.{
  ◌≡◌, refl, ap, ◌∙◌, [], ◌∷◌, List, ◌++◌, Bool, true, false, Bool-cases, inl, inr, if◌then◌else◌,
  some, ◌⊎◌, not, ◌&&◌, Result, Error, ok, err,
}
use ssnproj.Bytes.BigEndian.{Bytes}
use ssnproj.Paths.{bytes_eq}
use ssnproj.Paths.Names.{bytes_eq→eq, bytes_eq-false→ne}
use ssnproj.Strings.{utf8_text, trim_space, fields, to_lower}
use ssnproj.Crypto.{CryptoLib}
use ssnproj.Server.World.{text}
use ssnproj.Client.{Conn, delete_file}
use ssnproj.Client.Download.{ClientOs}
use ssnproj.Runner.Commands.{process_command-fields}
use ssnproj.Runner.{
  Terminal, print, print_line, read_string, delete_choice, choose, is_confirmed, quoted, report,
  failed_with, on_confirmation, process_command,
}

-- The words for a deletion.
abbrev pub AsksDeletion : Bytes → Type 0
AsksDeletion word = (word ≡ text "delete") ⊎ ((word ≡ text "del") ⊎ (word ≡ text "rm"))

-- An answer that agrees, as it was typed: "y" or "yes".
abbrev pub Confirms : Bytes → Type 0
Confirms answer =
    let said = trim_space (to_lower (answer ++ (b'\n' ∷ []))) in
    (said ≡ text "y") ⊎ (said ≡ text "yes")

choose-AsksDeletion : (word : Bytes) → AsksDeletion word → choose word ≡ delete_choice
unfolding choose bytes_eq
choose-AsksDeletion word (inl is) = ap choose is
choose-AsksDeletion word (inr (inl is)) = ap choose is
choose-AsksDeletion word (inr (inr is)) = ap choose is

one_of_two :
    (said a b : Bytes)
    → let tested = not (not (bytes_eq said a) && not (bytes_eq said b)) in
      (((said ≡ a) ⊎ (said ≡ b)) × (tested ≡ true))
      ⊎ ((¬ ((said ≡ a) ⊎ (said ≡ b))) × (tested ≡ false))
one_of_two said a b = elim (Bool-cases (bytes_eq said a)) [
  | inl is_a ↦ inl (inl (bytes_eq→eq said a is_a), rw is_a)
  | inr not_a ↦ elim (Bool-cases (bytes_eq said b)) [
    | inl is_b ↦ inl (inr (bytes_eq→eq said b is_b), rw (not_a, is_b))
    | inr not_b ↦ inr (
      λ h. elim h [
        | inl e ↦ bytes_eq-false→ne said a not_a e
        | inr e ↦ bytes_eq-false→ne said b not_b e
      ],
      rw (not_a, not_b),
    )
  ]
]

is_confirmed-Confirms :
    (answer : Bytes)
    → (Confirms answer × (is_confirmed (answer ++ (b'\n' ∷ [])) ≡ true))
      ⊎ ((¬ Confirms answer) × (is_confirmed (answer ++ (b'\n' ∷ [])) ≡ false))
unfolding is_confirmed
is_confirmed-Confirms answer =
    one_of_two (trim_space (to_lower (answer ++ (b'\n' ∷ [])))) (text "y") (text "yes")

module _ {W : Type 0} (lib : CryptoLib W) (conn : Conn W) (os : ClientOs W)
    (show_error : Error → Bytes) where
  report-world :
      {A : Type 0} (failed : Error → Bytes) (done : A → Bytes) (q : Result A × W) (t : Terminal)
      → (u : Terminal) × (report lib conn os show_error failed done q t ≡ (u, q.1))
        × (u.lines ≡ t.lines)
  report-world failed done (err e, w) t = (_, refl, refl)
  report-world failed done (ok a, w) t = (_, refl, refl)

  abbrev deleted_or_not : Bytes → Bytes → Bytes → W → W
  deleted_or_not key filename answer w =
      if is_confirmed answer then (delete_file lib conn key filename w).1 else w

  confirmation :
      (key filename answer : Bytes) (ended : Bool) (t : Terminal) (w : W)
      → (u : Terminal) × (on_confirmation lib conn os show_error key filename ((answer, ended), t) w
          ≡ (u, deleted_or_not key filename answer w))
        × (u.lines ≡ t.lines)
  confirmation key filename answer ended t w = elim (Bool-cases (is_confirmed answer)) [
    | inl yes_ ↦
        let (u, e, same) =
          report-world (failed_with lib conn os show_error (text "Error deleting file: "))
            (λ _. quoted (utf8_text "✓ File '") filename (text "' deleted successfully\n"))
            (delete_file lib conn key filename w) t in
        (u, rw yes_ e, same)
    | inr not_ ↦ (print_line (text "Delete cancelled") t, rw not_, refl)
  ]

  -- A line whose first word is "delete", "del" or "rm", in letters of any case, and whose second is
  -- a name, reads the next line as the answer. If the answer is "y" or "yes", with blanks around it
  -- and in letters of any case, the client asks the server to delete this name; on any other answer
  -- nothing is sent, and nothing changes but what the terminal shows.
  pub process_command-delete :
      (aes_key line answer part filename : Bytes) (lines parts : List Bytes) (t : Terminal) (w : W)
      → t.lines ≡ line ∷ answer ∷ lines
      → fields (trim_space (line ++ (b'\n' ∷ []))) ≡ part ∷ filename ∷ parts
      → AsksDeletion (to_lower part)
      → (u : Terminal) × (v : W) × (process_command lib conn os show_error aes_key (t, w)
          ≡ some (ok tt, (u, v)))
        × (u.lines ≡ lines)
        × ((Confirms answer × (v ≡ (delete_file lib conn aes_key filename w).1))
            ⊎ ((¬ Confirms answer) × (v ≡ w)))
  unfolding read_string
  process_command-delete key line answer part filename lines parts t w typed split asked =
      let t1 : Terminal = record (print (text "\n> ") t) { lines = answer ∷ lines } in
      let t2 : Terminal =
        record (print
          (quoted (text "Are you sure you want to delete '") filename (text "'? (y/n): ")) t1) {
            lines = lines;
          } in
      let (u, e, same) = confirmation key filename (answer ++ (b'\n' ∷ [])) true t2 w in
      (
        u,
        deleted_or_not key filename (answer ++ (b'\n' ∷ [])) w,
        process_command-fields lib conn os show_error key line part (answer ∷ lines)
              (filename ∷ parts) delete_choice t w typed split (choose-AsksDeletion _ asked)
            ∙ ap (λ (x : Terminal × W). some (ok tt, x)) e,
        same,
        elim (is_confirmed-Confirms answer) [
          | inl (said, yes_) ↦ inl (said, rw yes_)
          | inr (unsaid, not_) ↦ inr (unsaid, rw not_)
        ],
      )
