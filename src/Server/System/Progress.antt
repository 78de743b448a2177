-- ===== src/Server/System/Progress.antt =====
-- The turns of one connection come to the end that the loop over its data comes to.
use ssnproj.Base.{
  ℕ, zero, suc, ◌<◌, ◌≡◌, refl, sym, ap, ◌∙◌, [], ◌∷◌, List, ◌++◌, length, arith, if◌then◌else◌,
}
use ssnproj.Base.{Option, none, some, Result, ok, err}
use ssnproj.Bytes.BigEndian.{Bytes}
use ssnproj.Protocol.Buffer.{MessageBuffer, add_data}
use ssnproj.Crypto.{CryptoLib}
use ssnproj.Effects.{Action}
use ssnproj.Server.World.{Os}
use ssnproj.Server.Loop.{
  Status, waiting, closed, ended, stuck, after, on_status, rounds, drain, serve,
}
use ssnproj.Server.Loop.Fragments.{
  message, partial, broken, taken, drain_message, drain_partial, drain_broken,
}
use ssnproj.Server.Connection.{ConnectionHandler, Session, handle_message}
use ssnproj.Server.System.{
  Peer, Phase, reading, draining, System, handled, on_turn, round, receive, turn, Reach, here, next,
}
use mathlib.Core.Path.{subst}

module _ {W : Type 0} (os : Os W) (lib : CryptoLib W) (net : ℕ → Bytes → Action W (Unit {0}))
    (sha256 : Bytes → Bytes) (root : Bytes) (before later : List Peer) (socket : ℕ) where
  abbrev pub peer : Phase → ConnectionHandler → MessageBuffer → Peer
  peer phase h mb = record { socket = socket; phase = phase; handler = h; buffer = mb }

  -- The system with this connection among the others, and without it.
  abbrev pub having : Peer → W → System W
  having p w = record { peers = before ++ p ∷ later; world = w }

  abbrev pub without : W → System W
  without w = record { peers = before ++ later; world = w }

  abbrev pub Leads : System W → System W → Type 0
  Leads = Reach os lib net sha256 root (λ _. Unit {0})

  -- The end of a loop, as a system that steps lead to, in which the others have not moved; or as a
  -- turn of the connection that ends the process.
  abbrev pub Ending : System W → Status (Session W) → Type 0
  Ending from (waiting mb (h, w)) = Leads from (having (peer reading h mb) w)
  Ending from (closed e (h, w)) = Leads from (without w)
  Ending from ended =
      (h : ConnectionHandler) × (mb : MessageBuffer) × (w : W) × Leads from
        (having (peer draining h mb) w)
      × (round os lib net sha256 (peer draining h mb) w ≡ none)
  Ending from stuck = ⊥

  after-Ending :
      (from : System W) (h : ConnectionHandler) (mb mb' : MessageBuffer) (w : W)
      (rest : MessageBuffer → Session W → Status (Session W))
      (o : Option (Result (Unit {0}) × Session W))
      → round os lib net sha256 (peer draining h mb) w
        ≡ handled os lib net sha256 (peer draining h mb) mb' o
      → Leads from (having (peer draining h mb) w)
      → ((h' : ConnectionHandler) (v : W)
          → Leads from (having (peer draining h' mb') v)
          → Ending from (rest mb' (h', v)))
      → Ending from (after rest mb' o)
  after-Ending from h mb mb' w rest none e r k = (h, mb, w, r, e)
  after-Ending from h mb mb' w rest (some (ok tt, (h', v))) e r k =
      k h' v (
        next r tt (turn before later (peer draining h mb) w v (some (peer draining h' mb')) refl e))
  after-Ending from h mb mb' w rest (some (err x, (h', v))) e r k =
      next r tt (turn before later (peer draining h mb) w v none refl e)

  drain-Ending :
      (from : System W) (fuel : ℕ) (h : ConnectionHandler) (mb : MessageBuffer) (w : W)
      → length mb.buffer < fuel
      → Leads from (having (peer draining h mb) w)
      → Ending from (drain (handle_message os lib (net socket) sha256) fuel mb (h, w))
  unfolding round
  drain-Ending from zero h mb w few r = absurd (omega arith)
  drain-Ending from (suc fuel) h mb w few r =
      let handle = handle_message os lib (net socket) sha256 in
      let p : Peer = peer draining h mb in
      elim (taken mb) [
        | message m mb' e shorter ↦
            subst (Ending from) (sym (drain_message handle fuel mb mb' m (h, w) e)) (
              after-Ending from h mb mb' w (drain handle fuel) (handle m (h, w))
                (ap (on_turn os lib net sha256 p w) e) r
                (λ h' v r'. drain-Ending from fuel h' mb' v (omega arith) r'))
        | partial x e wait ↦
            subst (Ending from) (sym (drain_partial handle fuel mb x (h, w) e wait)) (
              next r tt (
                turn before later p w w (some (peer reading h mb)) refl (
                  ap (on_turn os lib net sha256 p w) e
                  ∙ ap (λ b. if b then some (some (peer reading h mb), w) else some (none, w))
                      wait)))
        | broken x e bad ↦
            subst (Ending from) (sym (drain_broken handle fuel mb mb x (h, w) e bad)) (
              next r tt (
                turn before later p w w none refl (
                  ap (on_turn os lib net sha256 p w) e
                  ∙ ap (λ b. if b then some (some (peer reading h mb), w) else some (none, w))
                      bad)))
      ]

  on_status-Ending :
      (from : System W) (t : Status (Session W))
      → Ending from t
      → Ending from (on_status (λ mb s. waiting mb s) t)
  on_status-Ending from (waiting mb s) e = e
  on_status-Ending from (closed x s) e = e
  on_status-Ending from ended e = e
  on_status-Ending from stuck e = elim e [ ]

  -- When data arrives on a connection, its own steps lead to where the loop over the data comes:
  -- to the connection that waits for more, to its close, or to the end of the process. They are
  -- never endless, and the other connections need not move.
  pub serve-Ending :
      (h : ConnectionHandler) (mb : MessageBuffer) (w : W) (read : Bytes)
      → Ending
          (having (peer reading h mb) w)
          (serve (handle_message os lib (net socket) sha256) (read ∷ []) mb (h, w))
  unfolding serve
  serve-Ending h mb w read =
      let from : System W = having (peer reading h mb) w in
      on_status-Ending from _ (
        drain-Ending from (rounds (add_data read mb)) h (add_data read mb) w (omega arith)
          (next here tt (receive before later (peer reading h mb) read w refl)))
