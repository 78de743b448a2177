-- ===== src/Crypto/RoundTrip.antt =====
-- What is encrypted under a key is decrypted under the same key.
use ssnproj.Base.{
  ℕ, ◌++◌, ◌≡◌, sym, ap, ◌∙◌, length, length-append, take-length, drop-length, Result, ok, ge→ltb,
  arith, take, drop,
}
use ssnproj.Bytes.BigEndian.{Bytes}
use ssnproj.Effects.{pure, gets}
use ssnproj.Effects.Laws.{>>=-eq-ok, gets-eq-ok}
use mathlib.Core.Path.{subst}
use ssnproj.Crypto.{CryptoLib, encrypt, decrypt}

-- What the packages document: a full read has the length asked for, and `Open` undoes `Seal` with
-- the same key and nonce.
pub record Documented {W : Type 0} (lib : CryptoLib W) : Type 0 where
  pub random_length :
      (n : ℕ) (w w' : W) (bytes : Bytes) → lib.random n w ≡ (ok bytes, w') → length bytes ≡ n
  pub opens :
      (key nonce plaintext : Bytes)
      → lib.new_gcm key ≡ ok tt
      → length nonce ≡ lib.nonce_size
      → lib.open_sealed key nonce (lib.seal key nonce plaintext) ≡ ok plaintext

module _ {W : Type 0} (lib : CryptoLib W) (documented : Documented lib) where
  decrypt_sealed :
      (plaintext key nonce : Bytes)
      → lib.new_gcm key ≡ ok tt
      → length nonce ≡ lib.nonce_size
      → decrypt lib (nonce ++ lib.seal key nonce plaintext) key ≡ ok plaintext
  unfolding decrypt
  decrypt_sealed plaintext key nonce valid size =
      let sealed : Bytes = lib.seal key nonce plaintext in
      let front : take lib.nonce_size (nonce ++ sealed) ≡ nonce =
        ap (λ (n : ℕ). take n (nonce ++ sealed)) (sym size) ∙ take-length nonce sealed in
      let back : drop lib.nonce_size (nonce ++ sealed) ≡ sealed =
        ap (λ (n : ℕ). drop n (nonce ++ sealed)) (sym size) ∙ drop-length nonce sealed in
      rw
        (
          valid,
          ge→ltb (length (nonce ++ sealed)) lib.nonce_size
              (omega (arith, length-append nonce sealed)),
          front,
          back,
        )
        (documented.opens key nonce plaintext valid size)

  -- With a library as documented, a text that `encrypt` returned is decrypted to the plaintext
  -- under the same key, whatever nonce was drawn.
  pub decrypt-encrypt :
      (plaintext key ciphertext : Bytes) (w w' : W)
      → encrypt lib plaintext key w ≡ (ok ciphertext, w')
      → decrypt lib ciphertext key ≡ ok plaintext
  unfolding encrypt
  decrypt-encrypt plaintext key ciphertext w w' e =
      let (_, u, valid, e1) = >>=-eq-ok (gets (λ _. lib.new_gcm key)) _ w w' {b = ciphertext} e in
      let (nonce, v, drawn, e2) =
        >>=-eq-ok (lib.random lib.nonce_size) (λ n. pure (n ++ lib.seal key n plaintext)) u w'
          {b = ciphertext} e1 in
      let size = documented.random_length lib.nonce_size u v nonce drawn in
      let whole : nonce ++ lib.seal key nonce plaintext ≡ ciphertext =
        cc (ap (λ (q : Result Bytes × W). q.0) e2) in
      subst (λ (c : Bytes). decrypt lib c key ≡ ok plaintext) whole
        (decrypt_sealed plaintext key nonce (gets-eq-ok (λ (_ : W). lib.new_gcm key) w u valid).0
          size)
