-- ===== src/ClientMain.antt =====
-- cmd/client/main.go, without its logger. The package `godotenv` is not part of the repository:
-- `getenv` is the environment as it leaves it.
pub mod Accepts
use ssnproj.Base.{
  [], ◌∷◌, List, Bool, ◌||◌, if◌then◌else◌, Option, none, some, Result, Error, ok, err, wrap, drop,
  ℕ,
}
use ssnproj.Base.{no_pem_block, not_rsa_key, parse_public_key}
use ssnproj.Bytes.BigEndian.{Bytes}
use ssnproj.Paths.{bytes_eq}
use ssnproj.Crypto.{CryptoLib}
use ssnproj.Effects.{Action}
use ssnproj.Server.World.{text}
use ssnproj.Keys.{KeyLib}
use ssnproj.Flags.{FlagKind, string_flag, bool_flag, Parsed, parsed, exited, parse_flags, value_of}
use ssnproj.Client.{Conn}
use ssnproj.Client.Download.{ClientOs}
use ssnproj.Runner.{Terminal, Ended, run_client}

abbrev lookup_flag : Bytes → Option FlagKind
lookup_flag name =
    if bytes_eq name (text "host") || bytes_eq name (text "port")
    then some string_flag
    else (if bytes_eq name (text "debug") then some bool_flag else none)

module _ {W Priv Pub Block Key : Type 0} (keys : KeyLib W Priv Pub Block Key) where
  abbrev pub from_any : Option Pub → Result Pub
  from_any none = err not_rsa_key
  from_any (some rsa_key) = ok rsa_key

  abbrev pub from_parsed : Result Key → Result Pub
  from_parsed (err e) = err (wrap parse_public_key e)
  from_parsed (ok key) = from_any (keys.as_rsa key)

  abbrev pub from_block : Option Block → Result Pub
  from_block none = err no_pem_block
  from_block (some block) = from_parsed (keys.parse_pkix (keys.block_bytes block))

  unfoldable pub parse_pem : Bytes → Result Pub
  parse_pem pem_key = from_block (keys.pem_decode pem_key)

-- How `main` ends: in `flag.Parse`, before the client is started, or with the client.
pub data Outcome (S : Type 0) : Type 0 where
  exited_early : ℕ → Outcome S
  not_started : Option Error → Outcome S
  ran : Ended S → Outcome S

module _ {W Priv Pub Block Key : Type 0} (keys : KeyLib W Priv Pub Block Key)
    (lib : Pub → CryptoLib W) (conn : Conn W) (os : ClientOs W) (show_error : Error → Bytes)
    (dial : Bytes → Action W (Unit {0})) (close : Action W (Unit {0}))
    (getenv : Bytes → Bytes) where
  abbrev run_with_key : List (Bytes × Bytes) → Result Pub → Terminal × W → Outcome (Terminal × W)
  run_with_key values (err e) s = not_started (some e)
  run_with_key values (ok server_pub_key) s = ran (
      run_client (lib server_pub_key) conn os show_error dial close
        (value_of (text "host") (text "localhost") values)
        (value_of (text "port") (text "8080") values) s)

  abbrev run_with_flags : Parsed → Terminal × W → Outcome (Terminal × W)
  run_with_flags (exited code) s = exited_early code
  run_with_flags (parsed values) s =
      let pem = getenv (text "SERVER_PUBLIC_KEY") in
      if bytes_eq pem [] then not_started none else run_with_key values (parse_pem keys pem) s

  -- `init` and `main`, with `os.Args`. The library encrypts for the public key that is set.
  unfoldable pub run_main : List Bytes → Terminal × W → Outcome (Terminal × W)
  run_main args s = run_with_flags (parse_flags lookup_flag (drop 1 args)) s
