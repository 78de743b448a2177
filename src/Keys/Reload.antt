-- ===== src/Keys/Reload.antt =====
-- The keys that `LoadKeypair` returned are returned again.
use ssnproj.Base.{◌≡◌, sym, ap, ◌∙◌, false, Bool-cases, inl, inr, some, Result, ok}
use ssnproj.Base.{read_private_key, read_public_key}
use ssnproj.Bytes.BigEndian.{Bytes}
use ssnproj.Effects.{gets, wrapping, lift}
use ssnproj.Effects.Processes.{fatal, need, >>=-eq-ok, >>=-ok, fatal-ok, lift-eq-ok, need-ok}
use ssnproj.Effects.Laws.{wrapping-ok}
use ssnproj.Server.World.{Os, is_not_exist, text}
use mathlib.Core.Path.{subst}
use ssnproj.Keys.{
  KeyPair, KeyLib, private_path, public_path, private_key_to_bytes, block_contents,
  bytes_to_private_key, bytes_to_public_key, ensure_folder, is_key_missing, read_keys,
  make_or_read_keys, load_keypair,
}
use ssnproj.Keys.Made.{
  KeyCodec, KeyFiles, HasKeys, made_keys, ensured, ensured_noop, read_keys-Still,
}

module _ {W Priv Pub Block Parsed : Type 0} (lib : KeyLib W Priv Pub Block Parsed) (os : Os W)
    (codec : KeyCodec lib) where
  contents_back :
      (kind bytes : Bytes) (w : W)
      → block_contents lib (lib.pem_encode kind bytes) w ≡ some (ok bytes, w)
  unfolding block_contents
  contents_back kind bytes w =
      let (k, decoded, plain, same) = codec.decoded kind bytes in
      >>=-ok (need (lib.pem_decode (lib.pem_encode kind bytes))) _ w w (need-ok _ w decoded)
      ∙ rw (plain, same)

  private_back :
      (p : Priv) (w : W) → bytes_to_private_key lib (private_key_to_bytes lib p) w ≡ some (ok p, w)
  unfolding bytes_to_private_key private_key_to_bytes
  private_back p w =
      >>=-ok (block_contents lib (private_key_to_bytes lib p)) _ w w
        (contents_back _ (lib.marshal_pkcs1 p) w)
      ∙ fatal-ok (gets (λ _. lib.parse_pkcs1 (lib.marshal_pkcs1 p))) w w
          (ap (λ (r : Result Priv). (r, w)) (codec.parsed_pkcs1 p))

  pub public_back :
      (p : Pub) (kind asn1 : Bytes) (w : W)
      → lib.marshal_pkix p ≡ ok asn1
      → bytes_to_public_key lib (lib.pem_encode kind asn1) w ≡ some (ok p, w)
  unfolding bytes_to_public_key
  public_back p kind asn1 w marshalled =
      let (k, parsed, is_rsa) = codec.parsed_pkix p asn1 marshalled in
      >>=-ok (block_contents lib (lib.pem_encode kind asn1)) _ w w (contents_back kind asn1 w)
      ∙ >>=-ok (fatal (gets (λ _. lib.parse_pkix asn1))) _ w w (
          fatal-ok (gets (λ _. lib.parse_pkix asn1)) w w
            (ap (λ (r : Result Parsed). (r, w)) parsed))
      ∙ need-ok (lib.as_rsa k) w is_rsa

  read_back :
      (c : Bytes) (pair : KeyPair Priv Pub) (w : W)
      → HasKeys lib os c pair w
      → read_keys lib os c w ≡ some (ok pair, w)
  unfolding read_keys
  read_back c pair w keys =
      >>=-ok (lift (wrapping read_private_key (gets (os.read_file (private_path c))))) _ w w (
        ap some (
          wrapping-ok read_private_key (gets (os.read_file (private_path c))) w w
            (ap (λ (r : Result Bytes). (r, w)) keys.private_held)))
      ∙ >>=-ok (lift (wrapping read_public_key (gets (os.read_file (public_path c))))) _ w w (
          ap some (
            wrapping-ok read_public_key (gets (os.read_file (public_path c))) w w
              (ap (λ (r : Result Bytes). (r, w)) keys.public_held)))
      ∙ >>=-ok (bytes_to_private_key lib (private_key_to_bytes lib pair.private_key)) _ w w
          (private_back pair.private_key w)
      ∙ >>=-ok (bytes_to_public_key lib (lib.pem_encode (text "RSA PUBLIC KEY") keys.asn1)) _ w w
          (public_back pair.public_key (text "RSA PUBLIC KEY") keys.asn1 w keys.marshalled)

  -- Both branches of the first call: the second call reads what the first one left or read.
  again :
      (c : Bytes) (pair : KeyPair Priv Pub) (w v : W)
      → KeyFiles lib os
      → is_not_exist (os.stat c w) ≡ false
      → make_or_read_keys lib os c w ≡ some (ok pair, v)
      → (is_not_exist (os.stat c v) ≡ false) × (make_or_read_keys lib os c v ≡ some (ok pair, v))
  unfolding make_or_read_keys
  again c pair w v files there e = elim (Bool-cases (is_key_missing lib os c w)) [
    | inl missing ↦
        let keys = made_keys lib os c pair w v files there (rw missing at e) in
        (keys.folder, rw (keys.private_there, keys.public_there) (read_back c pair v keys))
    | inr complete ↦
        let same : v ≡ w = read_keys-Still lib os c w v pair (rw complete at e) in
        subst
          (λ (u : W).
            (is_not_exist (os.stat c u) ≡ false)
            × (make_or_read_keys lib os c u ≡ some (ok pair, v)))
          (sym same) (there, e)
  ]

  -- If `LoadKeypair` returns keys, a second call returns the same keys and changes nothing,
  -- whether the first call generated them or read them. The packages and the file system are as
  -- documented.
  pub load_keypair_again :
      (config_folder : Bytes) (pair : KeyPair Priv Pub) (w v : W)
      → KeyFiles lib os
      → load_keypair lib os config_folder w ≡ some (ok pair, v)
      → load_keypair lib os config_folder v ≡ some (ok pair, v)
  unfolding load_keypair
  load_keypair_again c pair w v files e =
      let (_, u, made, e1) =
        >>=-eq-ok (lift (ensure_folder lib os c)) (λ _. make_or_read_keys lib os c) w v {b = pair}
          e in
      let there = ensured lib os c w u files (lift-eq-ok _ u {a = tt} made) in
      let (still_there, read) = again c pair u v files there e1 in
      >>=-ok (lift (ensure_folder lib os c)) (λ _. make_or_read_keys lib os c) v v
        (ap some (ensured_noop lib os c v still_there))
      ∙ read
