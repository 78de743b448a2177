-- ===== src/Server/Directory.antt =====
-- pkg/server/commands.go: `getClientDir` and `validatePath`.
pub mod Containment
pub mod Isolation
pub mod Keeps
use ssnproj.Base.{ℕ, ◌+◌, ◌-◌, ◌/◌, ◌%◌, [], ◌∷◌, ◌++◌, take, Bool, ◌&&◌, not, ltb, if◌then◌else◌}
use ssnproj.Base.{Option, none, some, empty_filename, absolute_path, path_traversal}
use ssnproj.Base.{create_client_dir, resolve_root, resolve_file}
use ssnproj.Bytes.BigEndian.{Bytes}
use ssnproj.Paths.{slash, bytes_eq, has_prefix, is_abs, clean, join, abs_path}
use ssnproj.Effects.{Action, pure, raise, gets, wrapping, ◌>>=◌, ◌>>◌}
use ssnproj.Server.World.{Os, CommandHandler}

abbrev hex_digit : ℕ → ℕ
hex_digit d = if ltb d 10 then b'0' + d else b'a' + d - 10

-- `hex.EncodeToString`
abbrev pub hex : Bytes → Bytes
hex [] = []
hex (b ∷ bs) = hex_digit (b / 16) ∷ hex_digit (b % 16) ∷ hex bs

module _ {W : Type 0} (os : Os W) (sha256 : Bytes → Bytes) where
  -- The first 8 bytes of the key's hash, as 16 hexadecimal digits.
  unfoldable pub client_id : Bytes → Bytes
  client_id key = hex (take 8 (sha256 key))

  abbrev client_dir_of : Bytes → Option Bytes → Action W Bytes
  client_dir_of root none = pure root
  client_dir_of root (some []) = pure root
  client_dir_of root (some (k ∷ key)) =
      let client_dir = join root (client_id (k ∷ key)) in
      do wrapping create_client_dir (os.mkdir_all client_dir); pure client_dir

  unfoldable pub get_client_dir : CommandHandler → Action W Bytes
  get_client_dir handler = client_dir_of handler.root_dir handler.aes_key

  -- The absolute path of the client's directory.
  unfoldable pub client_root : CommandHandler → Action W Bytes
  client_root handler = do
    root_dir ← get_client_dir handler
    wrapping resolve_root (gets (λ w. abs_path (os.getwd w) root_dir))

  -- The path under the absolute root, and the check that it stays there.
  unfoldable pub path_under : Bytes → Bytes → Action W Bytes
  path_under abs_root filename = do
    let clean_path = clean (join abs_root filename)
    path ← wrapping resolve_file (gets (λ w. abs_path (os.getwd w) clean_path))
    if not (has_prefix (abs_root ++ (slash ∷ [])) path) && not (bytes_eq path abs_root)
        then raise path_traversal
        else pure path

  unfoldable pub validate_path : CommandHandler → Bytes → Action W Bytes
  validate_path handler filename =
      if bytes_eq filename []
      then raise empty_filename
      else (if is_abs filename
          then raise absolute_path
          else (do abs_root ← client_root handler; path_under abs_root filename))
