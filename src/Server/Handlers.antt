-- ===== src/Server/Handlers.antt =====
-- pkg/server/commands.go: the handlers of the four commands, and `handle`, which picks one.
pub mod Confined
pub mod Listed
pub mod Others
pub mod Stored
use ssnproj.Base.{
  ℕ, [], ◌∷◌, ◌++◌, List, Bool, true, false, ◌==◌, if◌then◌else◌, unknown_command, Error,
}
use ssnproj.Base.{some}
use ssnproj.Bytes.BigEndian.{Bytes}
use ssnproj.Protocol.Types.{CommandMessage, new_message, message_type_response}
use ssnproj.Protocol.Types.{command_upload, command_download, command_list, command_delete}
use ssnproj.Protocol.Response.{serialize_response}
use ssnproj.Effects.{Action, Process}
use ssnproj.Server.World.{Os, DirEntry, ConnectionSender, CommandHandler, text}
use ssnproj.Effects.{pure, raise, gets, check, check_process, then_process, lift, ignoring}
use ssnproj.Server.World.{is_not_exist}
use ssnproj.Effects.{◌>>=◌, ◌>>◌}
use ssnproj.Server.Directory.{get_client_dir, validate_path}
use ssnproj.Server.Transfer.{send_file_in_chunks}

-- The names of the entries that are not directories.
abbrev pub file_names : List DirEntry → List Bytes
file_names [] = []
file_names (file ∷ files) =
    let names = file_names files in if file.is_dir then names else file.name ∷ names

-- `strings.Join(names, "\n")`
abbrev pub join_lines : List Bytes → Bytes
join_lines [] = []
join_lines (name ∷ []) = name
join_lines (name ∷ other ∷ names) = name ++ (b'\n' ∷ join_lines (other ∷ names))

module _ {W : Type 0} (os : Os W) (conn : ConnectionSender W) (sha256 : Bytes → Bytes) where
  -- `SerializeResponse`, `NewMessage` and `SendSecureMessage`, as every handler calls them.
  unfoldable pub respond : Bool → Bytes → Action W (Unit {0})
  respond success message =
      conn.send_secure_message
        (new_message message_type_response (serialize_response success message []))

  -- A response that tells of a failure, whether it can be sent or not, and the error.
  unfoldable pub refuse : Bytes → Error → Action W (Unit {0})
  refuse message e = do ignoring (respond false message); raise e

  unfoldable pub handle_upload : CommandHandler → CommandMessage → Action W (Unit {0})
  handle_upload handler command =
      check (validate_path os sha256 handler command.filename) (refuse (text "Invalid filename"))
        (λ file_path.
          check (os.write_file file_path command.contents) (refuse (text "Failed to write file"))
            (λ _. respond true (text "File uploaded successfully")))

  unfoldable pub handle_download : CommandHandler → CommandMessage → Process W (Unit {0})
  handle_download handler command =
      check_process (validate_path os sha256 handler command.filename)
        (refuse (text "Invalid filename"))
        (λ file_path.
          check_process (gets (os.read_file file_path))
            (λ _. ignoring (respond false (text "File not found or failed to read")))
            (λ file_data.
              then_process (respond true (text "Starting chunked download"))
                (λ _. send_file_in_chunks conn command.filename file_data)))

  unfoldable pub handle_list : CommandHandler → CommandMessage → Action W (Unit {0})
  handle_list handler command =
      check (get_client_dir os sha256 handler) (refuse (text "Failed to get client directory"))
        (λ client_dir.
          check (gets (os.read_dir client_dir)) (refuse (text "Failed to read directory"))
            (λ files. respond true (join_lines (file_names files))))

  -- `os.Stat` and its test stand in front of `os.Remove`.
  unfoldable pub remove_if_there : Bytes → Action W (Unit {0})
  remove_if_there file_path w =
      if is_not_exist (os.stat file_path w)
      then ignoring (respond false (text "File not found")) w
      else check (os.remove file_path) (refuse (text "Failed to delete file"))
          (λ _. respond true (text "File deleted successfully")) w

  unfoldable pub handle_delete : CommandHandler → CommandMessage → Action W (Unit {0})
  handle_delete handler command =
      check (validate_path os sha256 handler command.filename) (refuse (text "Invalid filename"))
        remove_if_there

  unfoldable pub handle : CommandHandler → CommandMessage → Process W (Unit {0})
  handle handler command =
      if command.command == command_upload
      then lift (handle_upload handler command)
      else (if command.command == command_download
          then handle_download handler command
          else (if command.command == command_list
              then lift (handle_list handler command)
              else (if command.command == command_delete
                  then lift (handle_delete handler command)
                  else lift (refuse (text "Unknown command") (unknown_command command.command)))))
