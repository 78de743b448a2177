-- ===== src/Server/Setup.antt =====
-- pkg/server/server.go: `ServerConfig`, `Server` and `NewServer`, without the logger.
use ssnproj.Base.{Option, none, some, create_root}
use ssnproj.Bytes.BigEndian.{Bytes}
use ssnproj.Effects.{Action, Process, pure, wrapping, lift}
use ssnproj.Effects.Processes.{◌>>=◌, ◌>>◌, need}
use ssnproj.Server.World.{Os}
use ssnproj.Keys.{KeyPair, KeyLib, load_keypair}

pub record ServerConfig : Type 0 where
  pub host : Bytes
  pub port : Bytes
  pub config_folder : Bytes
  pub root_dir : Option Bytes

pub record ServerOf (Priv Pub : Type 0) : Type 0 where
  pub config : ServerConfig
  pub rsa_key_pair : KeyPair Priv Pub

-- `SetRSAKeyPair`
abbrev pub set_rsa_key_pair :
    {Priv Pub : Type 0} → KeyPair Priv Pub → ServerOf Priv Pub → ServerOf Priv Pub
set_rsa_key_pair key_pair server = record server { rsa_key_pair = key_pair }

module _ {W Priv Pub Block Parsed : Type 0} (lib : KeyLib W Priv Pub Block Parsed) (os : Os W) where
  abbrev pub make_root : Option Bytes → Action W (Unit {0})
  make_root none = pure tt
  make_root (some root_dir) = wrapping create_root (os.mkdir_all root_dir)

  -- The log line at the end reads the root directory, and panics where it is nil.
  unfoldable pub new_server : ServerConfig → Process W (ServerOf Priv Pub)
  new_server config = do
    lift (make_root config.root_dir)
    rsa_key_pair ← load_keypair lib os config.config_folder
    need config.root_dir
    lift (pure (record { config = config; rsa_key_pair = rsa_key_pair }))
