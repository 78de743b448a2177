-- ===== src/Server/Loop/Invariant.antt =====
-- What the handling of each message keeps, the loops keep; and the loops never run out of fuel.
use ssnproj.Base.{ℕ, zero, suc, ◌<◌, sym, List, [], ◌∷◌, length, arith}
use ssnproj.Base.{Result, Option, none, some, ok, err}
use ssnproj.Bytes.BigEndian.{Bytes}
use ssnproj.Protocol.Types.{Message}
use ssnproj.Protocol.Buffer.{MessageBuffer, add_data}
use ssnproj.Effects.{Process}
use ssnproj.Effects.Keeps.{Ends, KeepsProcess}
use ssnproj.Server.Loop.{
  Status, waiting, closed, ended, stuck, after, on_status, rounds, drain, serve,
}
use ssnproj.Server.Loop.Fragments.{
  message, partial, broken, taken, drain_message, drain_partial, drain_broken,
}
use mathlib.Core.Path.{subst}

module _ {S : Type 0} (P : S → Type 0) where
  -- The loop stands in a state with `P`, has closed in one, or the process has ended.
  abbrev pub Stands : Status S → Type 0
  Stands (waiting mb s) = P s
  Stands (closed e s) = P s
  Stands ended = Unit
  Stands stuck = ⊥

  module _ (handle_message : Message → Process S (Unit {0}))
      (keeps : (m : Message) → KeepsProcess P (handle_message m)) where
    after-Stands :
        (rest : MessageBuffer → S → Status S) (mb : MessageBuffer)
        (o : Option (Result (Unit {0}) × S))
        → Ends P o
        → ((s : S) → P s → Stands (rest mb s))
        → Stands (after rest mb o)
    after-Stands rest mb none p h = tt
    after-Stands rest mb (some (ok tt, s)) p h = h s p
    after-Stands rest mb (some (err e, s)) p h = p

    drain-Stands :
        (fuel : ℕ) (mb : MessageBuffer) (s : S)
        → length mb.buffer < fuel
        → P s
        → Stands (drain handle_message fuel mb s)
    drain-Stands zero mb s h p = absurd (omega arith)
    drain-Stands (suc fuel) mb s h p = elim (taken mb) [
      | message m mb' e shorter ↦
          subst Stands (sym (drain_message handle_message fuel mb mb' m s e)) (
            after-Stands (drain handle_message fuel) mb' (handle_message m s) (keeps m s p)
              (λ s' p'. drain-Stands fuel mb' s' (omega arith) p'))
      | partial x e wait ↦ subst Stands (sym (drain_partial handle_message fuel mb x s e wait)) p
      | broken x e bad ↦ subst Stands (sym (drain_broken handle_message fuel mb mb x s e bad)) p
    ]

    on_status-Stands :
        (rest : MessageBuffer → S → Status S) (t : Status S)
        → Stands t
        → ((mb : MessageBuffer) (s : S) → P s → Stands (rest mb s))
        → Stands (on_status rest t)
    on_status-Stands rest (waiting mb s) p h = h mb s p
    on_status-Stands rest (closed e s) p h = p
    on_status-Stands rest ended p h = tt
    on_status-Stands rest stuck p h = absurd p

    -- Whatever arrives, in whatever pieces, the loops end and keep what each message keeps.
    pub serve-Stands :
        (reads : List Bytes) (mb : MessageBuffer) (s : S)
        → P s
        → Stands (serve handle_message reads mb s)
    unfolding serve
    serve-Stands [] mb s p = p
    serve-Stands (read ∷ reads) mb s p =
        on_status-Stands (serve handle_message reads) _
          (drain-Stands (rounds (add_data read mb)) (add_data read mb) s (omega arith) p)
          (λ mb' s' p'. serve-Stands reads mb' s' p')
