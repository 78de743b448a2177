-- ===== src/ServerMain/Life.antt =====
-- cmd/server/main.go: the rest of `main`, with the goroutine that runs the server and the wait for a
-- signal. The calls of package os/signal are steps that can happen at any time.
use ssnproj.Base.{ℕ, ◌≡◌, sym, ap, ◌∙◌, List, drop, All, some, Result, ok}
use ssnproj.Base.{some_injective}
use ssnproj.Bytes.BigEndian.{Bytes}
use ssnproj.Crypto.{CryptoLib}
use ssnproj.Effects.{Action}
use ssnproj.Server.World.{Os}
use ssnproj.Server.Setup.{ServerOf}
use ssnproj.Server.System.{System, listening, Step, Reach, here, next}
use ssnproj.Server.System.Untouched.{IsOurs, Reach-IsConsistent}
use ssnproj.Keys.{KeyLib}
use ssnproj.ServerMain.{Config, loaded, load_config, LoggerConfig, server_config, serving, run_main}
use ssnproj.ServerMain.Starts.{IsComplete, run_main_serving}
use mathlib.Core.Path.{subst}

-- The server runs and `main` waits, or a signal has arrived and `main` has returned, which ends the
-- process with the server's goroutines where they are.
pub data MainState (W : Type 0) : Type 0 where
  running : System W → MainState W
  returned : System W → MainState W

abbrev pub system_of : {W : Type 0} → MainState W → System W
system_of (running s) = s
system_of (returned s) = s

module _ {W Priv Pub : Type 0} (os : Os W) (lib : CryptoLib W)
    (net : ℕ → Bytes → Action W (Unit {0})) (sha256 : Bytes → Bytes) where
  -- A step of the server's goroutines, with the root directory of its configuration, or the signal.
  pub data MainStep (server : ServerOf Priv Pub) : MainState W → MainState W → Type 0 where
    work :
        (root : Bytes) (s t : System W)
        → server.config.root_dir ≡ some root
        → Step os lib net sha256 root s t
        → MainStep server (running s) (running t)
    signal : (s : System W) → MainStep server (running s) (returned s)

  -- What `main` comes to from the start of the server in this world.
  pub data MainReach (server : ServerOf Priv Pub) (w : W) : MainState W → Type 0 where
    started_up : MainReach server w (running (listening w))
    more : {m n : MainState W} → MainReach server w m → MainStep server m n → MainReach server w n

  system_reached :
      (server : ServerOf Priv Pub) (root : Bytes) (w : W) {m : MainState W}
      → server.config.root_dir ≡ some root
      → MainReach server w m
      → Reach os lib net sha256 root (λ _. Unit {0}) (listening w) (system_of m)
  system_reached server root w rooted started_up = here
  system_reached server root w rooted (more r (work root' s t rooted' step)) =
      next (system_reached server root w rooted r) tt (
        subst (λ (d : Bytes). Step os lib net sha256 d s t) (some_injective (sym rooted' ∙ rooted))
          step)
  system_reached server root w rooted (more r (signal s)) = system_reached server root w rooted r

module _ {W Priv Pub Block Key : Type 0} (keys : KeyLib W Priv Pub Block Key) (os : Os W)
    (build : LoggerConfig → Result (Unit {0})) (getenv : Bytes → Bytes) (lib : CryptoLib W)
    (net : ℕ → Bytes → Action W (Unit {0})) (sha256 : Bytes → Bytes) where
  -- If the server's `main` starts a server, the arguments and the environment give a configuration in
  -- which the host, the port, the configuration folder and the root directory are not empty, and the
  -- server has this configuration. Then, whatever connections come and send, until a signal arrives
  -- and after it, every open connection works below this root directory, and its key, command
  -- handler and state agree.
  pub main_serves_root :
      (args : List Bytes) (server : ServerOf Priv Pub) (w v : W) (m : MainState W)
      → run_main keys os build getenv args w ≡ some (ok (serving server), v)
      → MainReach os lib net sha256 server v m
      → (config : Config) × (load_config getenv (drop 1 args) ≡ loaded config)
        × IsComplete config
        × (server.config ≡ server_config config)
        × All (IsOurs os lib net sha256 config.root_dir) (system_of m).peers
  main_serves_root args server w v m began reached =
      let (config, given, complete, same) =
        run_main_serving keys os build getenv args server w v began in
      let rooted : server.config.root_dir ≡ some config.root_dir = ap (λ c. c.root_dir) same in
      (
        config,
        given,
        complete,
        same,
        Reach-IsConsistent os lib net sha256 config.root_dir v
            (system_reached os lib net sha256 server config.root_dir v rooted reached),
      )
