-- ===== src/Client/Receive.antt =====
-- What the client receives of what the server sends.
use ssnproj.Base.{
  ℕ, ◌%◌, ◌^◌, ◌<◌, ◌≡◌, refl, sym, ap, ◌∙◌, [], ◌∷◌, ◌++◌, length, take, drop, arith,
}
use ssnproj.Base.{append_assoc, Result, ok, read_header, read_payload, decrypt_payload}
use ssnproj.Bytes.BigEndian.{Bytes, put_uint32, from_be, from_be-put_uint32}
use ssnproj.Protocol.Types.{Message, new_message}
use ssnproj.Protocol.Message.{serialize}
use ssnproj.Crypto.{CryptoLib, encrypt, decrypt}
use ssnproj.Crypto.RoundTrip.{Documented, decrypt-encrypt}
use ssnproj.Effects.{wrapping, gets}
use ssnproj.Effects.Laws.{>>=-ok, wrapping-ok}
use ssnproj.Effects.Keeps.{Keeps, check-Keeps, wrapping-Keeps}
use ssnproj.Base.{Bool, true, false, ltb, if◌then◌else◌, payload_too_large}
use ssnproj.Effects.{Action, pure, raise}
use ssnproj.Client.{
  max_payload_size, Conn, receive_payload, receive_message, receive_secure_message,
}

-- Full reads of bytes that have arrived.
pub record Arrives {W : Type 0} (conn : Conn W) (pending : W → Bytes) : Type 0 where
  pub reads :
      (xs ys : Bytes) (w : W)
      → pending w ≡ xs ++ ys
      → (v : W) × (conn.read_full (length xs) w ≡ (ok xs, v)) × (pending v ≡ ys)

-- The type and the length field.
abbrev header_of : Message → Bytes
header_of m = m.kind ∷ put_uint32 (length m.payload % 2 ^ 32)

length-header_of : (m : Message) → length (header_of m) ≡ 5
unfolding put_uint32
length-header_of m = omega arith

header_kind : (m : Message) → from_be 0 (take 1 (header_of m)) ≡ m.kind
unfolding from_be
header_kind m = omega arith

header_length :
    (m : Message)
    → length m.payload < 2 ^ 32
    → from_be 0 (take 4 (drop 1 (header_of m))) ≡ length m.payload
header_length m fits = field ∙ from_be-put_uint32 0 (length m.payload % 2 ^ 32) ∙ omega arith
  where
    field :
        from_be 0 (take 4 (drop 1 (header_of m)))
        ≡ from_be 0 (put_uint32 (length m.payload % 2 ^ 32))
    field = unfold put_uint32 in refl

module _ {W : Type 0} (lib : CryptoLib W) (conn : Conn W) (pending : W → Bytes)
    (arrives : Arrives conn pending) where
  payload_arrives :
      (payload rest : Bytes) (w : W)
      → length payload < 2 ^ 32
      → pending w ≡ payload ++ rest
      → (v : W) × (receive_payload lib conn (length payload) w ≡ (ok payload, v))
        × (pending v ≡ rest)
  payload_arrives [] rest w fits e = (w, refl, e)
  payload_arrives (b ∷ payload) rest w fits e =
      let (v, got, left) = arrives.reads (b ∷ payload) rest w e in
      (
        v,
        ground (arith, wrapping-ok read_payload (conn.read_full (length (b ∷ payload))) w v got),
        left,
      )

  -- A message of up to `2 ^ 32 - 1` bytes that has arrived is received as it was serialized, an
  -- empty one too, and nothing behind it is read.
  pub receive_message-serialize :
      (m : Message) (rest : Bytes) (w : W)
      → length m.payload < 2 ^ 32
      → pending w ≡ serialize m ++ rest
      → (v : W) × (receive_message lib conn w ≡ (ok m, v)) × (pending v ≡ rest)
  unfolding receive_message
  receive_message-serialize m rest w fits e =
      let split : pending w ≡ header_of m ++ (m.payload ++ rest) =
        e
        ∙ unfold serialize in
          ap (◌∷◌ m.kind) (append_assoc (put_uint32 (length m.payload % 2 ^ 32)) m.payload rest) in
      let (u, got_header, left) = arrives.reads (header_of m) (m.payload ++ rest) w split in
      let (v, got, after) = payload_arrives m.payload rest u fits left in
      let five = ap (λ (n : ℕ). conn.read_full n w) (sym (length-header_of m)) ∙ got_header in
      let body = ap (λ (n : ℕ). receive_payload lib conn n u) (header_length m fits) ∙ got in
      (
        v,
        >>=-ok (wrapping read_header (conn.read_full 5)) _ w u
              (wrapping-ok read_header (conn.read_full 5) w u five)
            ∙ >>=-ok (receive_payload lib conn (from_be 0 (take 4 (drop 1 (header_of m))))) _ u v
                body
            ∙ ap (λ (k : ℕ). (ok (new_message k m.payload), v)) (header_kind m),
        after,
      )

  -- The text of a message that was encrypted under the client's key and has arrived is received as
  -- it was before, with a cryptographic library as documented.
  pub receive_secure_message-encrypt :
      (kind : ℕ) (plaintext key ciphertext rest : Bytes) (w v w' : W)
      → Documented lib
      → encrypt lib plaintext key v ≡ (ok ciphertext, w')
      → length ciphertext < 2 ^ 32
      → pending w ≡ serialize (new_message kind ciphertext) ++ rest
      → (u : W) × (receive_secure_message lib conn key w ≡ (ok (new_message kind plaintext), u))
        × (pending u ≡ rest)
  unfolding receive_secure_message
  receive_secure_message-encrypt kind plaintext key ciphertext rest w v w' documented sealed fits
        e =
      let (u, got, left) = receive_message-serialize (new_message kind ciphertext) rest w fits e in
      let opened = decrypt-encrypt lib documented plaintext key ciphertext v w' sealed in
      (
        u,
        >>=-ok (receive_message lib conn) _ w u got
            ∙ >>=-ok (wrapping decrypt_payload (gets (λ _. decrypt lib ciphertext key))) _ u u
                (wrapping-ok decrypt_payload _ u u (ap (λ (r : Result Bytes). (r, u)) opened)),
        left,
      )

-- What each full read keeps, the receipt of a message keeps.
module _ {W : Type 0} (lib : CryptoLib W) (conn : Conn W) (P : W → Type 0)
    (reads : (n : ℕ) → Keeps P (conn.read_full n)) where
  if-Keeps :
      {A : Type 0} (b : Bool) (m k : Action W A)
      → Keeps P m
      → Keeps P k
      → Keeps P (if b then m else k)
  if-Keeps true m k hm hk = hm
  if-Keeps false m k hm hk = hk

  receive_payload-Keeps : (n : ℕ) → Keeps P (receive_payload lib conn n)
  receive_payload-Keeps n =
      if-Keeps (ltb max_payload_size n) (raise (payload_too_large n)) _ (λ w p. p)
        (if-Keeps (ltb 0 n) (wrapping read_payload (conn.read_full n)) (pure [])
          (wrapping-Keeps P read_payload (conn.read_full n) (reads n)) (λ w p. p))

  pub receive_message-Keeps : Keeps P (receive_message lib conn)
  unfolding receive_message
  receive_message-Keeps =
      check-Keeps P (wrapping read_header (conn.read_full 5)) _ _
        (wrapping-Keeps P read_header (conn.read_full 5) (reads 5)) (λ e w p. p)
        (λ header _ v _ p.
          check-Keeps P (receive_payload lib conn (from_be 0 (take 4 (drop 1 header)))) _ _
            (receive_payload-Keeps (from_be 0 (take 4 (drop 1 header)))) (λ e w p. p)
            (λ _ _ v _ p. p) v p)

  pub receive_secure_message-Keeps : (key : Bytes) → Keeps P (receive_secure_message lib conn key)
  unfolding receive_secure_message
  receive_secure_message-Keeps key =
      check-Keeps P (receive_message lib conn) _ _ receive_message-Keeps (λ e w p. p)
        (λ m _ v _ p.
          check-Keeps P (wrapping decrypt_payload (gets (λ _. decrypt lib m.payload key))) _ _
            (wrapping-Keeps P decrypt_payload _ (λ w p. p)) (λ e w p. p) (λ _ _ v _ p. p) v p)
