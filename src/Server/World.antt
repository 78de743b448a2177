-- ===== src/Server/World.antt =====
-- What the command handler of pkg/server/commands.go runs against, as parameters: the operating
-- system and the connection. Both act on a world `W` of which only their answers are seen.
-- Logging is left out.
use ssnproj.Base.{List, [], ◌∷◌, Bool, true, false, Option, Result, err}
use ssnproj.Base.{not_exist}
use ssnproj.Bytes.BigEndian.{Bytes}
use ssnproj.Protocol.Types.{Message}
use ssnproj.Effects.{Action}
use Prim.Native.String.{String}
use Prim.Native.Char.{code}

-- A Go string constant by its bytes; the program's are ASCII.
abbrev pub text : String → Bytes
text String.[] = []
text (String.◌∷◌ c s) = code c ∷ text s

-- An entry that `os.ReadDir` lists: `Name()` and `IsDir()`.
pub record DirEntry : Type 0 where
  pub name : Bytes
  pub is_dir : Bool

-- The functions of package `os` that the server calls.
pub record Os (W : Type 0) : Type 0 where
  pub getwd : W → Result Bytes
  pub mkdir_all : Bytes → Action W (Unit {0})
  pub write_file : Bytes → Bytes → Action W (Unit {0})
  pub read_file : Bytes → W → Result Bytes
  pub read_dir : Bytes → W → Result (List DirEntry)
  pub stat : Bytes → W → Result (Unit {0})
  pub remove : Bytes → Action W (Unit {0})

-- The interface `ConnectionSender`.
pub record ConnectionSender (W : Type 0) : Type 0 where
  pub send_secure_message : Message → Action W (Unit {0})

-- The struct `CommandHandler`, without its connection and its logger. A nil key is `none`.
pub record CommandHandler : Type 0 where
  pub root_dir : Bytes
  pub aes_key : Option Bytes

-- `os.IsNotExist` of the error, if there is one.
abbrev pub is_not_exist : Result (Unit {0}) → Bool
is_not_exist (err not_exist) = true
is_not_exist _ = false
