-- ===== src/Server/System.antt =====
-- pkg/server/server.go: `Run`, as a system of steps. The loop of `Accept` and the goroutine of each
-- connection take their turns in any order. A step is one call of `Accept`, one of `Read`, or one
-- round of the inner loop of `HandleRawRequest`; within a step nothing else happens. A failure of
-- `Listen` or of `Accept`, a fatal error and a panic end the process: no step follows.
pub mod Untouched
pub mod Progress
use ssnproj.Base.{ℕ, ◌≡◌, [], ◌∷◌, List, ◌++◌, Option, none, some, Result, ok, err, if◌then◌else◌}
use ssnproj.Bytes.BigEndian.{Bytes}
use ssnproj.Protocol.Types.{Message}
use ssnproj.Protocol.Buffer.{MessageBuffer, new_message_buffer, add_data, try_deserialize}
use ssnproj.Crypto.{CryptoLib}
use ssnproj.Effects.{Action}
use ssnproj.Server.World.{Os}
use ssnproj.Server.Loop.{is_not_ready}
use ssnproj.Server.Connection.{ConnectionHandler, Session, new_connection_handler, handle_message}

-- Where a connection's goroutine is: before `Read`, or before `TryDeserialize`.
pub data Phase : Type 0 where
  reading draining : Phase

-- An open connection with its socket, handler and message buffer.
pub record Peer : Type 0 where
  pub socket : ℕ
  pub phase : Phase
  pub handler : ConnectionHandler
  pub buffer : MessageBuffer

pub record System (W : Type 0) : Type 0 where
  pub peers : List Peer
  pub world : W

-- A connection as `Accept` and `NewConnectionHandler` leave it.
abbrev pub accepted : Bytes → ℕ → Peer
accepted root_dir socket = record {
  socket = socket;
  phase = reading;
  handler = new_connection_handler root_dir;
  buffer = new_message_buffer;
}

-- After a `Read` that returned data.
abbrev pub with_data : Bytes → Peer → Peer
with_data read p = record p { phase = draining; buffer = add_data read p.buffer }

-- A closed connection is forgotten.
abbrev pub still_open : Option Peer → List Peer
still_open none = []
still_open (some p) = p ∷ []

-- Before the first connection.
abbrev pub listening : {W : Type 0} → W → System W
listening w = record { peers = []; world = w }

module _ {W : Type 0} (os : Os W) (lib : CryptoLib W) (net : ℕ → Bytes → Action W (Unit {0}))
    (sha256 : Bytes → Bytes) where
  -- The connection after a message was handled, if it is still open; `none` where the process ended.
  abbrev pub handled :
      Peer → MessageBuffer → Option (Result (Unit {0}) × Session W) → Option (Option Peer × W)
  handled p mb none = none
  handled p mb (some (ok _, (h, w))) = some (some (record p { handler = h; buffer = mb }), w)
  handled p mb (some (err e, (h, w))) = some (none, w)

  abbrev pub on_turn : Peer → W → Result Message × MessageBuffer → Option (Option Peer × W)
  on_turn p w (ok message, mb) =
      handled p mb (handle_message os lib (net p.socket) sha256 message (p.handler, w))
  on_turn p w (err e, mb) =
      if is_not_ready e
      then some (some (record p { phase = reading; buffer = mb }), w)
      else some (none, w)

  -- One round of the inner loop.
  unfoldable pub round : Peer → W → Option (Option Peer × W)
  round p w = on_turn p w (try_deserialize p.buffer)

  pub data Step (root_dir : Bytes) : System W → System W → Type 0 where
    accept :
        (socket : ℕ) (ps : List Peer) (w : W)
        → Step root_dir
            (record { peers = ps; world = w })
            (record { peers = accepted root_dir socket ∷ ps; world = w })
    receive :
        (before later : List Peer) (p : Peer) (read : Bytes) (w : W)
        → p.phase ≡ reading
        → Step root_dir
            (record { peers = before ++ p ∷ later; world = w })
            (record { peers = before ++ with_data read p ∷ later; world = w })
    hang_up :
        (before later : List Peer) (p : Peer) (w : W)
        → p.phase ≡ reading
        → Step root_dir
            (record { peers = before ++ p ∷ later; world = w })
            (record { peers = before ++ later; world = w })
    turn :
        (before later : List Peer) (p : Peer) (w v : W) (o : Option Peer)
        → p.phase ≡ draining
        → round p w ≡ some (o, v)
        → Step root_dir
            (record { peers = before ++ p ∷ later; world = w })
            (record { peers = before ++ (still_open o ++ later); world = v })

  -- The runs that pass through systems with `Q` only, the last one aside.
  pub data Reach (root_dir : Bytes) (Q : System W → Type 0) (s : System W) : System W → Type 0 where
    here : Reach root_dir Q s s
    next : {t u : System W} → Reach root_dir Q s t → Q t → Step root_dir t u → Reach root_dir Q s u
