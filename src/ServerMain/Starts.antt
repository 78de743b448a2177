-- ===== src/ServerMain/Starts.antt =====
-- What a server is started with.
use ssnproj.Base.{
  ◌≡◌, ◌≢◌, refl, sym, ap, ◌∙◌, [], ◌∷◌, List, drop, map, arith, Bool-cases, inl, inr, some, Result,
  ok, All,
}
use ssnproj.Base.{ok_injective}
use ssnproj.Bytes.BigEndian.{Bytes}
use ssnproj.Paths.{bytes_eq}
use ssnproj.Paths.Names.{bytes_eq-false→ne}
use ssnproj.Effects.{pure, gets, lift}
use ssnproj.Effects.Processes.{
  fatal, or_end, need, >>=-eq-ok, lift-eq-ok, fatal-eq-ok, or_end-eq-ok,
}
use ssnproj.Server.World.{Os, text}
use ssnproj.Server.Setup.{ServerConfig, ServerOf, make_root, new_server}
use ssnproj.Keys.{KeyLib, load_keypair}
use ssnproj.Flags.{value_of, parsed, string_flag}
use ssnproj.Flags.RoundTrip.{IsFlagName, spelled, parse_flags-map-spelled}
use ssnproj.ServerMain.Usage.{usage}
use ssnproj.ServerMain.{
  Config, LoadedConfig, loaded, exits, config_of, load_config, lookup_flag, logger_config,
  LoggerConfig, validate_config, server_config, Outcome, printed, exited_early, serving, is_help,
  start, start_loaded, run_main,
}

-- No part that the server needs is empty.
pub record IsComplete (config : Config) : Type 0 where
  pub some_host : config.host ≢ []
  pub some_port : config.port ≢ []
  pub some_folder : config.config_folder ≢ []
  pub some_root : config.root_dir ≢ []

-- The flags of a configuration, as arguments.
abbrev pub flags_of : Config → List (Bytes × Bytes)
flags_of config =
    (text "host", config.host)
    ∷ (text "port", config.port)
    ∷ (text "config", config.config_folder)
    ∷ (text "root-dir", config.root_dir)
    ∷ (text "log-level", config.log_level)
    ∷ []

-- Arguments `-host=…`, `-port=…`, `-config=…`, `-root-dir=…` and `-log-level=…` give exactly the
-- configuration that they spell, whatever the values and whatever the environment.
pub load_config-map-spelled :
    (getenv : Bytes → Bytes) (config : Config)
    → load_config getenv (map spelled (flags_of config)) ≡ loaded config
unfolding load_config
load_config-map-spelled getenv config =
    ap (config_of getenv) (parse_flags-map-spelled lookup_flag (flags_of config) known) ∙ values
  where
    known :
        All
          (λ (v : Bytes × Bytes). IsFlagName v.0 × (lookup_flag v.0 ≡ some string_flag))
          (flags_of config)
    known =
        unfold bytes_eq in
        (
          (omega arith, refl),
          (
            (omega arith, refl),
            ((omega arith, refl), ((omega arith, refl), ((omega arith, refl), tt))),
          ),
        )

    values : config_of getenv (parsed (flags_of config)) ≡ loaded config
    values = unfold value_of bytes_eq in refl

serving_injective :
    {Priv Pub : Type 0} {a b : ServerOf Priv Pub}
    → ◌≡◌ {A = Outcome Priv Pub} (serving a) (serving b)
    → a ≡ b
serving_injective e = cc

validate_config-eq-ok : (config : Config) → validate_config config ≡ ok tt → IsComplete config
unfolding validate_config
validate_config-eq-ok config e = ground (
  arith,
  bytes_eq-false→ne config.host [],
  bytes_eq-false→ne config.port [],
  bytes_eq-false→ne config.config_folder [],
  bytes_eq-false→ne config.root_dir [],
)

module _ {W Priv Pub Block Key : Type 0} (lib : KeyLib W Priv Pub Block Key) (os : Os W)
    (build : LoggerConfig → Result (Unit {0})) (getenv : Bytes → Bytes) where
  new_server_config :
      (config : ServerConfig) (server : ServerOf Priv Pub) (w v : W)
      → new_server lib os config w ≡ some (ok server, v)
      → server.config ≡ config
  unfolding new_server
  new_server_config config server w v e =
      let (_, w1, made, e1) =
        >>=-eq-ok (lift (make_root lib os config.root_dir)) _ w v {b = server} e in
      let (pair, w2, keys, e2) =
        >>=-eq-ok (load_keypair lib os config.config_folder) _ w1 v {b = server} e1 in
      let (root, w3, some_root, e3) = >>=-eq-ok (need config.root_dir) _ w2 v {b = server} e2 in
      let ended =
        lift-eq-ok (pure (record { config = config; rsa_key_pair = pair }) w3) v {a = server} e3 in
      sym
        (ap ServerOf.config (ok_injective (ap (λ (q : Result (ServerOf Priv Pub) × W). q.0) ended)))

  start_serving :
      (config : Config) (server : ServerOf Priv Pub) (w v : W)
      → start lib os build getenv config w ≡ some (ok (serving server), v)
      → IsComplete config × (server.config ≡ server_config config)
  unfolding start
  start_serving config server w v e =
      let (_, w1, built, e1) =
        >>=-eq-ok (fatal (gets (λ _. build (logger_config config.log_level)))) _ w v
          {b = serving server} e in
      let (_, w2, valid, e2) =
        >>=-eq-ok (fatal (gets (λ _. validate_config config))) _ w1 v {b = serving server} e1 in
      let (server', w3, made, e3) =
        >>=-eq-ok (or_end (new_server lib os (server_config config))) _ w2 v {b = serving server}
          e2 in
      let checked = fatal-eq-ok (gets (λ (_ : W). validate_config config)) w1 w2 {a = tt} valid in
      let ended =
        lift-eq-ok (pure {A = Outcome Priv Pub} (serving server') w3) v {a = serving server} e3 in
      let same =
        serving_injective (ok_injective (ap (λ (q : Result (Outcome Priv Pub) × W). q.0) ended)) in
      (
        validate_config-eq-ok config (ap (λ (q : Result (Unit {0}) × W). q.0) checked),
        ap ServerOf.config (sym same)
            ∙ new_server_config (server_config config) server' w2 w3
                (or_end-eq-ok (new_server lib os (server_config config)) w2 w3 {a = server'} made),
      )

  from_loaded :
      (server : ServerOf Priv Pub) (w v : W) (l : LoadedConfig)
      → start_loaded lib os build getenv l w ≡ some (ok (serving server), v)
      → (config : Config) × (l ≡ loaded config)
        × IsComplete config
        × (server.config ≡ server_config config)
  from_loaded server w v (exits code) e =
      cc (lift-eq-ok (pure {A = Outcome Priv Pub} (exited_early code) w) v {a = serving server} e)
  from_loaded server w v (loaded config) e =
      let (complete, same) = start_serving config server w v e in (config, refl, complete, same)

  -- If `main` starts a server, the arguments and the environment give a configuration in which the
  -- host, the port, the configuration folder and the root directory are not empty, and the server
  -- has this configuration, with a root directory that is not nil.
  pub run_main_serving :
      (args : List Bytes) (server : ServerOf Priv Pub) (w v : W)
      → run_main lib os build getenv args w ≡ some (ok (serving server), v)
      → (config : Config) × (load_config getenv (drop 1 args) ≡ loaded config)
        × IsComplete config
        × (server.config ≡ server_config config)
  unfolding run_main
  run_main_serving args server w v e = elim (Bool-cases (is_help args)) [
    | inl help ↦ cc (
        lift-eq-ok (pure {A = Outcome Priv Pub} (printed usage) w) v {a = serving server}
          (rw help at e))
    | inr starts ↦ from_loaded server w v (load_config getenv (drop 1 args)) (rw starts at e)
  ]
