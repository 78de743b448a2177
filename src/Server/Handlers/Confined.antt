-- ===== src/Server/Handlers/Confined.antt =====
-- A command changes the world only through its client's directory and the connection.
use ssnproj.Base.{ℕ, [], ◌∷◌, ◌++◌, List, Bool, true, false, ◌≡◌, sym, ok, Error, some, Option, All}
use ssnproj.Base.{◌==◌, length, ◌<◌, Bool-cases, inl, inr, zero, suc}
use ssnproj.Bytes.BigEndian.{Bytes}
use ssnproj.Paths.{is_abs, print_abs, join}
use ssnproj.Paths.Clean.{IsName}
use ssnproj.Paths.Absolute.{abs_names}
use ssnproj.Protocol.Types.{
  Message, CommandMessage, command_upload, command_download, command_list, command_delete,
}
use ssnproj.Effects.Keeps.{
  Keeps, KeepsProcess, check-Keeps, check_process-Keeps, wrapping-Keeps, or_crash-Keeps,
}
use mathlib.Core.Path.{subst}
use ssnproj.Effects.{check, ignoring}
use ssnproj.Server.World.{Os, ConnectionSender, CommandHandler, is_not_exist}
use ssnproj.Server.Directory.{client_id, validate_path}
use ssnproj.Server.Directory.Keeps.{get_client_dir-Keeps, validate_path-Keeps}
use ssnproj.Server.Directory.Isolation.{validate_path_own}
use ssnproj.Server.Transfer.{send_chunks, send_file_in_chunks}
use ssnproj.Server.Handlers.{
  respond, refuse, handle_upload, handle_download, handle_list, remove_if_there, handle_delete,
  handle,
}

module _ {W : Type 0} (P : W → Type 0) (conn : ConnectionSender W)
    (sends : (m : Message) → Keeps P (conn.send_secure_message m)) where
  send_chunks-Keeps :
      (filename file_data : Bytes) (n i : ℕ)
      → KeepsProcess P (send_chunks conn filename file_data n i)
  unfolding send_chunks
  send_chunks-Keeps filename file_data zero i = λ w p. p
  send_chunks-Keeps filename file_data (suc n) i = or_crash-Keeps P _ _ (λ block.
      check_process-Keeps P _ _ _ (wrapping-Keeps P _ _ (sends _)) (λ e w p. p)
        (λ _ _ v _ p. send_chunks-Keeps filename file_data n (suc i) v p))

module _ {W : Type 0} (os : Os W) (conn : ConnectionSender W) (sha256 : Bytes → Bytes)
    (P : W → Type 0) (root : Bytes) (k : ℕ) (key : Bytes) where
  -- The directory of the client with this key.
  abbrev pub own_names : List Bytes
  own_names = abs_names root ++ (client_id os sha256 (k ∷ key) ∷ [])

  abbrev own_handler : CommandHandler
  own_handler = record { root_dir = root; aes_key = some (k ∷ key) }

  -- `P` is kept by what the handlers may do: send, create the client's directory, and write and
  -- remove what lies in it.
  pub record Allowed : Type 0 where
    pub sends : (m : Message) → Keeps P (conn.send_secure_message m)
    pub makes : Keeps P (os.mkdir_all (join root (client_id os sha256 (k ∷ key))))
    pub writes :
        (cs : List Bytes) (contents : Bytes)
        → All IsName (own_names ++ cs)
        → Keeps P (os.write_file (print_abs (own_names ++ cs)) contents)
    pub removes :
        (cs : List Bytes)
        → All IsName (own_names ++ cs)
        → Keeps P (os.remove (print_abs (own_names ++ cs)))

  module _ (allowed : Allowed) (rooted : is_abs root ≡ true)
      (hashed : 0 < length (sha256 (k ∷ key))) where
    respond-Keeps :
        (success : Bool) (message : Bytes) → Keeps P (respond os conn sha256 success message)
    unfolding respond
    respond-Keeps success message = allowed.sends _

    refuse-Keeps : (message : Bytes) (e : Error) → Keeps P (refuse os conn sha256 message e)
    unfolding refuse check ignoring
    refuse-Keeps message e = respond-Keeps false message

    makes_own :
        (j : ℕ) (js : Bytes)
        → ◌≡◌ {A = Option Bytes} (some (k ∷ key)) (some (j ∷ js))
        → Keeps P (os.mkdir_all (join root (client_id os sha256 (j ∷ js))))
    makes_own j js e =
        let same : k ∷ key ≡ j ∷ js = cc in
        subst (λ l. Keeps P (os.mkdir_all (join root (client_id os sha256 l)))) same allowed.makes

    validate_own-Keeps : (filename : Bytes) → Keeps P (validate_path os sha256 own_handler filename)
    validate_own-Keeps = validate_path-Keeps os sha256 P own_handler makes_own

    -- A step that needs a path in the client's directory gets one.
    on_path :
        (filename : Bytes) (q : Bytes → Type 0)
        → ((cs : List Bytes) → All IsName (own_names ++ cs) → q (print_abs (own_names ++ cs)))
        → (path : Bytes) (w v : W) → validate_path os sha256 own_handler filename w ≡ (ok path, v)
        → q path
    on_path filename q h path w v e =
        let (cs, same, names) =
          validate_path_own os sha256 root k key filename w v rooted hashed e in
        subst q (sym same) (h cs names)

    handle_upload-Keeps :
        (c : CommandMessage) → Keeps P (handle_upload os conn sha256 own_handler c)
    unfolding handle_upload
    handle_upload-Keeps c =
        check-Keeps P _ _ _ (validate_own-Keeps c.filename) (refuse-Keeps _) (λ path w v e p.
          check-Keeps P _ _ _
            (on_path c.filename (λ q. Keeps P (os.write_file q c.contents))
              (λ cs names. allowed.writes cs c.contents names) path w v e)
            (refuse-Keeps _) (λ _ _ u _ p'. respond-Keeps _ _ u p') v p)

    handle_download-Keeps :
        (c : CommandMessage) → KeepsProcess P (handle_download os conn sha256 own_handler c)
    unfolding handle_download send_file_in_chunks ignoring
    handle_download-Keeps c =
        check_process-Keeps P _ _ _ (validate_own-Keeps c.filename) (refuse-Keeps _)
          (λ path _ v _ p.
            check_process-Keeps P _ _ _ (λ w p. p) (λ _. respond-Keeps _ _)
              (λ file_data _ u _ p.
                check_process-Keeps P _ _ _ (respond-Keeps _ _) (λ e w p. p)
                  (λ _ _ t _ p. send_chunks-Keeps P conn allowed.sends c.filename file_data _ 0 t p)
                  u p)
              v p)

    handle_list-Keeps : (c : CommandMessage) → Keeps P (handle_list os conn sha256 own_handler c)
    unfolding handle_list
    handle_list-Keeps c =
        check-Keeps P _ _ _ (get_client_dir-Keeps os sha256 P own_handler makes_own)
          (refuse-Keeps _)
          (λ dir _ v _ p.
            check-Keeps P _ _ _ (λ w p. p) (refuse-Keeps _) (λ files _ u _ p. respond-Keeps _ _ u p)
              v p)

    handle_delete-Keeps :
        (c : CommandMessage) → Keeps P (handle_delete os conn sha256 own_handler c)
    unfolding handle_delete remove_if_there ignoring
    handle_delete-Keeps c =
        check-Keeps P _ _ _ (validate_own-Keeps c.filename) (refuse-Keeps _) (λ path w v e p.
          elim (Bool-cases (is_not_exist (os.stat path v))) [
            | inl gone ↦ rw gone (respond-Keeps _ _ v p)
            | inr there ↦ rw there (
                check-Keeps P _ _ _
                  (on_path c.filename (λ q. Keeps P (os.remove q)) allowed.removes path w v e)
                  (refuse-Keeps _) (λ _ _ u _ p'. respond-Keeps _ _ u p') v p)
          ])

    -- Whatever command a client sends, and however it ends, the world is only changed by the
    -- steps that `Allowed` names: what they keep, the command keeps.
    pub handle-Keeps : (c : CommandMessage) → KeepsProcess P (handle os conn sha256 own_handler c)
    unfolding handle
    handle-Keeps c w p = elim (Bool-cases (c.command == command_upload)) [
      | inl up ↦ rw up (handle_upload-Keeps c w p)
      | inr not_up ↦ elim (Bool-cases (c.command == command_download)) [
        | inl down ↦ rw (not_up, down) (handle_download-Keeps c w p)
        | inr not_down ↦ elim (Bool-cases (c.command == command_list)) [
          | inl listing ↦ rw (not_up, not_down, listing) (handle_list-Keeps c w p)
          | inr not_list ↦ elim (Bool-cases (c.command == command_delete)) [
            | inl gone ↦ rw (not_up, not_down, not_list, gone) (handle_delete-Keeps c w p)
            | inr unknown ↦ rw (not_up, not_down, not_list, unknown) (refuse-Keeps _ _ w p)
          ]
        ]
      ]
    ]
