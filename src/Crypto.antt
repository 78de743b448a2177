-- ===== src/Crypto.antt =====
-- pkg/aes/aes.go, and the two calls of pkg/rsa/rsa.go that the handshake makes. The packages
-- `crypto/aes`, `crypto/cipher`, `crypto/rand` and `crypto/rsa` are parameters.
pub mod RoundTrip
use ssnproj.Base.{
  ℕ, ◌++◌, length, take, drop, Result, ok, err, ciphertext_too_short, ltb, if◌then◌else◌,
}
use ssnproj.Base.{◌>>◌ as andthen}
use ssnproj.Base.{Option, some, none}
use ssnproj.Bytes.BigEndian.{Bytes}
use ssnproj.Effects.{Action, pure, gets, ◌>>=◌, ◌>>◌}

-- `io.ReadFull(rand.Reader, …)` of a number of bytes; `aes.NewCipher` with `cipher.NewGCM`, for
-- the error; `NonceSize`, `Seal` and `Open` of the cipher with a key; OAEP with one pair of keys.
pub record CryptoLib (W : Type 0) : Type 0 where
  pub random : ℕ → Action W Bytes
  pub new_gcm : Bytes → Result (Unit {0})
  pub nonce_size : ℕ
  pub seal : Bytes → Bytes → Bytes → Bytes
  pub open_sealed : Bytes → Bytes → Bytes → Result Bytes
  pub encrypt_oaep : Bytes → Action W Bytes
  pub decrypt_oaep : Bytes → Action W Bytes

module _ {W : Type 0} (lib : CryptoLib W) where
  -- The nonce stands in front of the sealed text.
  unfoldable pub encrypt : Bytes → Bytes → Action W Bytes
  encrypt plaintext key = do
    gets (λ _. lib.new_gcm key)
    nonce ← lib.random lib.nonce_size
    pure (nonce ++ lib.seal key nonce plaintext)

  unfoldable pub decrypt : Bytes → Bytes → Result Bytes
  decrypt ciphertext key = andthen (lib.new_gcm key) (
      if ltb (length ciphertext) lib.nonce_size
      then err ciphertext_too_short
      else lib.open_sealed key (take lib.nonce_size ciphertext) (drop lib.nonce_size ciphertext))

  unfoldable pub generate_key : Action W Bytes
  generate_key = lib.random 32

  -- `log.Fatal` ends the process if the library call fails.
  unfoldable pub or_fatal : {A : Type 0} → Action W A → W → Option (A × W)
  or_fatal m w = let (r, w') = m w in elim r [ ok a ↦ some (a, w') | err e ↦ none ]

  unfoldable pub encrypt_with_public_key : Bytes → W → Option (Bytes × W)
  unfolding or_fatal
  encrypt_with_public_key msg = or_fatal (lib.encrypt_oaep msg)

  unfoldable pub decrypt_with_private_key : Bytes → W → Option (Bytes × W)
  unfolding or_fatal
  decrypt_with_private_key ciphertext = or_fatal (lib.decrypt_oaep ciphertext)
