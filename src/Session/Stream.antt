-- ===== src/Session/Stream.antt =====
-- Several messages in a row over the link: what waits after the server has sent them.
use ssnproj.Base.{
  ◌^◌, ◌<◌, ◌≡◌, refl, sym, ap, ◌∙◌, append_assoc, append-nil, [], ◌∷◌, ◌++◌, List, map, All,
  length, arith, Result, ok, some, send_chunk,
}
use ssnproj.Bytes.BigEndian.{Bytes}
use ssnproj.Protocol.Types.{Message, ChunkDataMessage, new_message}
use ssnproj.Protocol.Message.{serialize}
use ssnproj.Protocol.Chunk.{serialize_chunk_data}
use ssnproj.Crypto.{CryptoLib, encrypt}
use ssnproj.Crypto.RoundTrip.{Documented}
use ssnproj.Effects.{Action, wrapping}
use ssnproj.Effects.Laws.{>>=-eq-ok, wrapping-eq-ok}
use ssnproj.Server.World.{Os}
use ssnproj.Server.Transfer.{chunk_message}
use ssnproj.Server.Transfer.Sends.{send_all}
use ssnproj.Server.Connection.{send_secure_message, secure_sender}
use ssnproj.Session.{Network}
use ssnproj.Session.Replies.{GcmSizes, Carries, length-encrypt, encrypt-Keeps}
use mathlib.Core.Path.{subst}

-- A message as it is sent: its payload encrypted under the key.
pub record Sealed {W : Type 0} (lib : CryptoLib W) (key : Bytes) (m : Message) : Type 0 where
  pub sealed : Bytes
  pub before : W
  pub later : W
  pub encrypted : encrypt lib m.payload key before ≡ (ok sealed, later)
  pub fits : length sealed < 2 ^ 32

module _ {W : Type 0} (lib : CryptoLib W) (key : Bytes) where
  -- Bytes that are these messages, each encrypted under the key, one after the other.
  abbrev pub Waiting : List Message → Bytes → Type 0
  Waiting [] bytes = bytes ≡ []
  Waiting (m ∷ ms) bytes =
      (s : Sealed lib key m) × (rest : Bytes) × (bytes
        ≡ serialize (new_message m.kind s.sealed) ++ rest)
      × Waiting ms rest

module _ {W : Type 0} (os : Os W) (lib : CryptoLib W) (net : Bytes → Action W (Unit {0}))
    (sha256 : Bytes → Bytes) (network : Network W) (key : Bytes) where
  -- What is sent goes behind what is in the outbox.
  send_secure_message-Sealed :
      (m : Message) (w u : W)
      → Documented lib
      → GcmSizes lib
      → Carries os lib net network
      → length m.payload < 2 ^ 31
      → send_secure_message os lib net sha256 (some key) m w ≡ (ok tt, u)
      → (s : Sealed lib key m) × (network.pending u
          ≡ network.pending w ++ serialize (new_message m.kind s.sealed))
  unfolding send_secure_message
  send_secure_message-Sealed m w u documented sizes carries small done =
      let (c, y, sealed, written) = >>=-eq-ok (encrypt lib m.payload key) _ w u {b = tt} done in
      let size = length-encrypt lib m.payload key c w y documented sizes sealed in
      let same =
        subst (λ (q : Result Bytes × W). network.pending q.1 ≡ network.pending w) sealed
          (encrypt-Keeps lib (λ x. network.pending x ≡ network.pending w) m.payload key
            (λ n x e. carries.by_random n x ∙ e) w refl) in
      (
        record {
          sealed = c;
          before = w;
          later = y;
          encrypted = sealed;
          fits = omega (arith, size);
        },
        carries.by_net _ y u written ∙ ap (λ b. b ++ serialize (new_message m.kind c)) same,
      )

  -- All chunks that were sent wait, in order, behind what was in the outbox.
  pub send_all-Waiting :
      (cs : List ChunkDataMessage) (w u : W)
      → Documented lib
      → GcmSizes lib
      → Carries os lib net network
      → All (λ c. length (serialize_chunk_data c) < 2 ^ 31) cs
      → send_all (secure_sender os lib net sha256 (some key)) cs w ≡ (ok tt, u)
      → (b : Bytes) × (network.pending u ≡ network.pending w ++ b)
        × Waiting lib key (map chunk_message cs) b
  send_all-Waiting [] w u documented sizes carries small done = (
    [],
    ap (λ (q : Result (Unit {0}) × W). network.pending q.1) (sym done) ∙ sym (append-nil _),
    refl,
  )
  send_all-Waiting (c ∷ cs) w u documented sizes carries (fits, small) done =
      let m = chunk_message c in
      let one = send_secure_message os lib net sha256 (some key) m in
      let (_, v, sent, more) = >>=-eq-ok (wrapping send_chunk one) _ w u {b = tt} done in
      let (s, behind) =
        send_secure_message-Sealed m w v documented sizes carries fits
          (wrapping-eq-ok send_chunk one w v sent) in
      let (b, all, waiting) = send_all-Waiting cs v u documented sizes carries small more in
      (
        serialize (new_message m.kind s.sealed) ++ b,
        all ∙ ap (λ x. x ++ b) behind ∙ append_assoc (network.pending w) _ b,
        (s, b, refl, waiting),
      )
