-- ===== src/Server/System/Untouched.antt =====
-- What every reachable system keeps: the handlers' data, and the files of a client that is not
-- connected.
use ssnproj.Base.{
  ℕ, ◌≡◌, refl, [], ◌∷◌, List, ◌++◌, All, All-append, true, false, Bool, if◌then◌else◌,
}
use ssnproj.Base.{Option, none, some, Result, ok, err}
use ssnproj.Bytes.BigEndian.{Bytes}
use ssnproj.Protocol.Types.{Message}
use ssnproj.Protocol.Buffer.{MessageBuffer, try_deserialize}
use ssnproj.Paths.{is_abs, print_abs}
use ssnproj.Paths.Clean.{IsName}
use ssnproj.Paths.Absolute.{abs_names}
use ssnproj.Crypto.{CryptoLib}
use ssnproj.Effects.{Action}
use ssnproj.Effects.Keeps.{Ends}
use ssnproj.Server.World.{Os}
use ssnproj.Server.Directory.{client_id}
use ssnproj.Server.Loop.{is_not_ready}
use ssnproj.Server.Connection.{ConnectionHandler, Session, handle_message}
use ssnproj.Server.Connection.States.{IsConsistent, handle_message-Keeps}
use ssnproj.Server.Connection.Frame.{QuietWorld, KeysUsable, IsForeign, handle_message-Rest}
use ssnproj.Server.System.{
  Peer, System, with_data, handled, on_turn, round, still_open, Step, accept, receive, hang_up,
  turn, Reach, here, next, listening,
}
use mathlib.Core.Path.{subst}

All-of_middle :
    {A : Type 0} (P : A → Type 0) (xs : List A) (y : A) (ys : List A)
    → All P (xs ++ y ∷ ys)
    → All P xs × P y × All P ys
All-of_middle P [] y ys h = (tt, h.0, h.1)
All-of_middle P (x ∷ xs) y ys (hx, h) = let (l, m, r) = All-of_middle P xs y ys h in ((hx, l), m, r)

All-middle :
    {A : Type 0} (P : A → Type 0) (xs ms ys : List A)
    → All P xs
    → All P ms
    → All P ys
    → All P (xs ++ (ms ++ ys))
All-middle P xs ms ys hx hm hy = All-append P xs (ms ++ ys) hx (All-append P ms ys hm hy)

-- No open connection has a key with this client's identifier.
abbrev pub IsAway : {W : Type 0} → Os W → (Bytes → Bytes) → Bytes → System W → Type 0
IsAway os sha256 own s = All (λ p. IsForeign os sha256 own p.handler.aes_key) s.peers

module _ {W : Type 0} (os : Os W) (lib : CryptoLib W) (net : ℕ → Bytes → Action W (Unit {0}))
    (sha256 : Bytes → Bytes) (root : Bytes) where
  abbrev pub IsOurs : Peer → Type 0
  IsOurs p = IsConsistent root p.handler

  -- What holds of the connection that a round leaves open, and of the world after any round.
  abbrev Leaves : (ConnectionHandler → Type 0) → (W → Type 0) → Option (Option Peer × W) → Type 0
  Leaves P Q none = Unit
  Leaves P Q (some (o, w)) = All (λ p. P p.handler) (still_open o) × Q w

  handled-Leaves :
      (P : ConnectionHandler → Type 0) (Q : W → Type 0) (p : Peer) (mb : MessageBuffer)
      (o : Option (Result (Unit {0}) × Session W))
      → Ends (λ s. P s.0) o
      → Ends (λ s. Q s.1) o
      → Leaves P Q (handled os lib net sha256 p mb o)
  handled-Leaves P Q p mb none h k = tt
  handled-Leaves P Q p mb (some (ok _, s)) h k = ((h, tt), k)
  handled-Leaves P Q p mb (some (err e, s)) h k = (tt, k)

  if-Leaves :
      (P : ConnectionHandler → Type 0) (Q : W → Type 0) (b : Bool) (x y : Option (Option Peer × W))
      → Leaves P Q x
      → Leaves P Q y
      → Leaves P Q (if b then x else y)
  if-Leaves P Q true x y hx hy = hx
  if-Leaves P Q false x y hx hy = hy

  -- A round keeps of the handler and of the world what the handling of any message keeps.
  on_turn-Leaves :
      (P : ConnectionHandler → Type 0) (Q : W → Type 0) (p : Peer) (w : W)
      (q : Result Message × MessageBuffer)
      → P p.handler
      → Q w
      → ((m : Message)
          → Ends (λ s. P s.0) (handle_message os lib (net p.socket) sha256 m (p.handler, w)))
      → ((m : Message)
          → Ends (λ s. Q s.1) (handle_message os lib (net p.socket) sha256 m (p.handler, w)))
      → Leaves P Q (on_turn os lib net sha256 p w q)
  on_turn-Leaves P Q p w (ok m, mb) hp hq h k = handled-Leaves P Q p mb _ (h m) (k m)
  on_turn-Leaves P Q p w (err e, mb) hp hq h k =
      if-Leaves P Q (is_not_ready e) _ _ ((hp, tt), hq) (tt, hq)

  any_world : (o : Option (Result (Unit {0}) × Session W)) → Ends (λ s. Unit {0}) o
  any_world none = tt
  any_world (some (r, s)) = tt

  round-IsConsistent :
      (p : Peer) (w v : W) (o : Option Peer)
      → IsOurs p
      → round os lib net sha256 p w ≡ some (o, v)
      → All IsOurs (still_open o)
  unfolding round
  round-IsConsistent p w v o h e =
      (subst (Leaves (IsConsistent root) (λ _. Unit {0})) e (
        on_turn-Leaves (IsConsistent root) (λ _. Unit {0}) p w (try_deserialize p.buffer) h tt
          (λ m. handle_message-Keeps os lib (net p.socket) sha256 root m (p.handler, w) h)
          (λ m. any_world _))).0

  Step-IsOurs :
      {s t : System W} → Step os lib net sha256 root s t → All IsOurs s.peers → All IsOurs t.peers
  Step-IsOurs (accept socket ps w) h =
      (record { same_root = refl; same_key = refl; key_state = refl }, h)
  Step-IsOurs (receive before later p read w at) h =
      let (l, m, r) = All-of_middle IsOurs before p later h in
      All-append IsOurs before (with_data read p ∷ later) l (m, r)
  Step-IsOurs (hang_up before later p w at) h =
      let (l, m, r) = All-of_middle IsOurs before p later h in All-append IsOurs before later l r
  Step-IsOurs (turn before later p w v o at e) h =
      let (l, m, r) = All-of_middle IsOurs before p later h in
      All-middle IsOurs before (still_open o) later l (round-IsConsistent p w v o m e) r

  -- Whatever connections come, send and go, in any order, the handler of each open connection has
  -- the server's root directory, the command handler of its key, and a state that fits the key.
  pub Reach-IsConsistent :
      {Q : System W → Type 0} (w : W) {s : System W}
      → Reach os lib net sha256 root Q (listening w) s
      → All IsOurs s.peers
  Reach-IsConsistent w here = tt
  Reach-IsConsistent w (next r q st) = Step-IsOurs st (Reach-IsConsistent w r)

  -- A file of the client with the key `j ∷ js`.
  module _ (j : ℕ) (js : Bytes) (cs : List Bytes)
      (quiet : (socket : ℕ) → QuietWorld os lib (net socket)) (rooted : is_abs root ≡ true)
      (usable : KeysUsable lib sha256)
      (names : All IsName ((abs_names root ++ (client_id os sha256 (j ∷ js) ∷ [])) ++ cs)) where
    abbrev theirs : Bytes
    theirs = print_abs ((abs_names root ++ (client_id os sha256 (j ∷ js) ∷ [])) ++ cs)

    abbrev Held : Result Bytes → W → Type 0
    Held held w = os.read_file theirs w ≡ held

    round-Held :
        (held : Result Bytes) (p : Peer) (w v : W) (o : Option Peer)
        → IsOurs p
        → IsForeign os sha256 (j ∷ js) p.handler.aes_key
        → Held held w
        → round os lib net sha256 p w ≡ some (o, v)
        → Held held v
    unfolding round
    round-Held held p w v o h f k e =
        (subst (Leaves (λ _. Unit {0}) (Held held)) e (
          on_turn-Leaves (λ _. Unit {0}) (Held held) p w (try_deserialize p.buffer) tt k
            (λ m. any_world _)
            (λ m.
              handle_message-Rest os lib (net p.socket) sha256 (quiet p.socket) root j js cs held
                rooted usable names m p.handler w h f k))).1

    Step-Held :
        (held : Result Bytes) {s t : System W}
        → Step os lib net sha256 root s t
        → All IsOurs s.peers
        → IsAway os sha256 (j ∷ js) s
        → Held held s.world
        → Held held t.world
    Step-Held held (accept socket ps w) h f k = k
    Step-Held held (receive before later p read w at) h f k = k
    Step-Held held (hang_up before later p w at) h f k = k
    Step-Held held (turn before later p w v o at e) h f k =
        round-Held held p w v o (All-of_middle IsOurs before p later h).1
          (All-of_middle _ before p later f).1 k e

    -- While a client is away, whatever the others do, in any order, each of its files stays as it
    -- was. Away means that in no system on the way a connection has a key with this client's
    -- identifier. The root is absolute, what a clean path holds changes only by a call that names it
    -- or that makes directories at or below it, AES takes no empty key, and no hash is empty.
    pub Reach-untouched :
        (w : W) {s : System W}
        → Reach os lib net sha256 root (IsAway os sha256 (j ∷ js)) (listening w) s
        → os.read_file theirs s.world ≡ os.read_file theirs w
    Reach-untouched w here = refl
    Reach-untouched w (next r away st) =
        Step-Held _ st (Reach-IsConsistent w r) away (Reach-untouched w r)
