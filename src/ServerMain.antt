-- ===== src/ServerMain.antt =====
-- cmd/server/main.go: the configuration from flags and environment variables, and what `main` does
-- up to the start of the server. The logger of `zap` is a parameter, and what it logs is left out.
pub mod Usage
pub mod Starts
pub mod Life
use ssnproj.Base.{
  [], ◌∷◌, List, Bool, true, false, ◌||◌, if◌then◌else◌, Option, none, some, Result, Error, ok, err,
  drop, ℕ,
}
use ssnproj.Base.{empty_host, empty_port, empty_config_folder, empty_root_dir}
use ssnproj.Bytes.BigEndian.{Bytes}
use ssnproj.Paths.{bytes_eq}
use ssnproj.Effects.{Action, Process, pure, gets, lift}
use ssnproj.Effects.Processes.{◌>>=◌, ◌>>◌, fatal, or_end}
use ssnproj.Server.World.{Os, text}
use ssnproj.Server.Setup.{ServerConfig, ServerOf, new_server}
use ssnproj.Keys.{KeyLib}
use ssnproj.Flags.{FlagKind, string_flag, Parsed, parsed, exited, parse_flags, value_of}
use ssnproj.ServerMain.Usage.{usage}

abbrev pub default_host : Bytes
default_host = text "localhost"

abbrev pub default_port : Bytes
default_port = text "8080"

abbrev pub default_config_folder : Bytes
default_config_folder = text "configs/server"

abbrev pub default_root_dir : Bytes
default_root_dir = text "data"

pub record Config : Type 0 where
  pub host : Bytes
  pub port : Bytes
  pub config_folder : Bytes
  pub root_dir : Bytes
  pub log_level : Bytes

-- The value that `os.Getenv` returns is empty where the variable is not set.
abbrev pub get_env_or_default : (Bytes → Bytes) → Bytes → Bytes → Bytes
get_env_or_default getenv key default_value =
    if bytes_eq (getenv key) [] then default_value else getenv key

abbrev server_flags : List Bytes
server_flags = text "host" ∷ text "port" ∷ text "config" ∷ text "root-dir" ∷ text "log-level" ∷ []

abbrev is_in : Bytes → List Bytes → Bool
is_in name [] = false
is_in name (other ∷ names) = bytes_eq name other || is_in name names

abbrev pub lookup_flag : Bytes → Option FlagKind
lookup_flag name = if is_in name server_flags then some string_flag else none

-- The configuration, or the exit in `flag.Parse`.
pub data LoadedConfig : Type 0 where
  loaded : Config → LoadedConfig
  exits : ℕ → LoadedConfig

abbrev pub config_of : (Bytes → Bytes) → Parsed → LoadedConfig
config_of getenv (exited code) = exits code
config_of getenv (parsed values) = loaded (record {
  host =
      value_of (text "host") (get_env_or_default getenv (text "SERVER_HOST") default_host) values;
  port =
      value_of (text "port") (get_env_or_default getenv (text "SERVER_PORT") default_port) values;
  config_folder =
      value_of (text "config")
        (get_env_or_default getenv (text "SERVER_CONFIG_FOLDER") default_config_folder) values;
  root_dir =
      value_of (text "root-dir")
        (get_env_or_default getenv (text "SERVER_ROOT_DIR") default_root_dir) values;
  log_level =
      value_of (text "log-level")
        (get_env_or_default getenv (text "SERVER_LOG_LEVEL") (text "info")) values;
})

unfoldable pub load_config : (Bytes → Bytes) → List Bytes → LoadedConfig
load_config getenv args = config_of getenv (parse_flags lookup_flag args)

-- One of the two configurations that `zap` has, and the level that is set in it, if one is.
pub data LogLevel : Type 0 where
  info_level warn_level error_level : LogLevel

pub record LoggerConfig : Type 0 where
  pub is_development : Bool
  pub level : Option LogLevel

unfoldable pub logger_config : Bytes → LoggerConfig
logger_config log_level =
    if bytes_eq log_level (text "debug")
    then record { is_development = true; level = none }
    else (if bytes_eq log_level (text "info")
        then record { is_development = false; level = some info_level }
        else (if bytes_eq log_level (text "warn")
            then record { is_development = false; level = some warn_level }
            else (if bytes_eq log_level (text "error")
                then record { is_development = false; level = some error_level }
                else record { is_development = false; level = none })))

unfoldable pub validate_config : Config → Result (Unit {0})
validate_config config =
    if bytes_eq config.host []
    then err empty_host
    else (if bytes_eq config.port []
        then err empty_port
        else (if bytes_eq config.config_folder []
            then err empty_config_folder
            else (if bytes_eq config.root_dir [] then err empty_root_dir else ok tt)))

abbrev pub server_config : Config → ServerConfig
server_config config = record {
  host = config.host;
  port = config.port;
  config_folder = config.config_folder;
  root_dir = some config.root_dir;
}

-- How far `main` comes: it prints lines and returns, exits in `flag.Parse`, or starts a server.
pub data Outcome (Priv Pub : Type 0) : Type 0 where
  printed : List Bytes → Outcome Priv Pub
  exited_early : ℕ → Outcome Priv Pub
  serving : ServerOf Priv Pub → Outcome Priv Pub

abbrev pub is_help : List Bytes → Bool
is_help (program ∷ arg ∷ args) =
    bytes_eq arg (text "-h") || (bytes_eq arg (text "--help") || bytes_eq arg (text "help"))
is_help _ = false

module _ {W Priv Pub Block Key : Type 0} (lib : KeyLib W Priv Pub Block Key) (os : Os W)
    (build : LoggerConfig → Result (Unit {0})) (getenv : Bytes → Bytes) where
  unfoldable pub start : Config → Process W (Outcome Priv Pub)
  start config = do
    fatal (gets (λ _. build (logger_config config.log_level)))
    fatal (gets (λ _. validate_config config))
    server ← or_end (new_server lib os (server_config config))
    lift (pure (serving server))

  abbrev pub start_loaded : LoadedConfig → Process W (Outcome Priv Pub)
  start_loaded (exits code) = lift (pure (exited_early code))
  start_loaded (loaded config) = start config

  -- `main`, with `os.Args`.
  unfoldable pub run_main : List Bytes → Process W (Outcome Priv Pub)
  run_main args =
      if is_help args
      then lift (pure (printed usage))
      else start_loaded (load_config getenv (drop 1 args))
