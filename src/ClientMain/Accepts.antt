-- ===== src/ClientMain/Accepts.antt =====
-- The key file of the server as the key of the client.
use ssnproj.Base.{◌≡◌, ap, ◌∙◌, false, some, ok}
use ssnproj.Bytes.BigEndian.{Bytes}
use ssnproj.Server.World.{Os, is_not_exist, text}
use ssnproj.Keys.{KeyPair, KeyLib, public_path, make_keys}
use ssnproj.Keys.Made.{KeyCodec, KeyFiles, made_keys}
use ssnproj.ClientMain.{from_any, from_parsed, from_block, parse_pem}

module _ {W Priv Pub Block Key : Type 0} (lib : KeyLib W Priv Pub Block Key) (os : Os W)
    (codec : KeyCodec lib) where
  parse_pem-pem_encode :
      (p : Pub) (kind asn1 : Bytes)
      → lib.marshal_pkix p ≡ ok asn1
      → parse_pem lib (lib.pem_encode kind asn1) ≡ ok p
  unfolding parse_pem
  parse_pem-pem_encode p kind asn1 marshalled =
      let (block, decoded, plain, same) = codec.decoded kind asn1 in
      let (key, parsed, is_rsa) = codec.parsed_pkix p asn1 marshalled in
      ap (from_block lib) decoded
      ∙ ap (λ b. from_parsed lib (lib.parse_pkix b)) same
      ∙ ap (from_parsed lib) parsed
      ∙ ap (from_any lib) is_rsa

  -- The public key file that `LoadKeypair` writes holds a text that the client accepts as the public
  -- key of the very pair that the server uses. The packages and the file system are as documented.
  pub parse_pem-make_keys :
      (config_folder : Bytes) (pair : KeyPair Priv Pub) (w v : W)
      → KeyFiles lib os
      → is_not_exist (os.stat config_folder w) ≡ false
      → make_keys lib os config_folder w ≡ some (ok pair, v)
      → (pem_key : Bytes) × (os.read_file (public_path config_folder) v ≡ ok pem_key)
        × (parse_pem lib pem_key ≡ ok pair.public_key)
  parse_pem-make_keys config_folder pair w v files there made =
      let held = made_keys lib os config_folder pair w v files there made in
      (
        lib.pem_encode (text "RSA PUBLIC KEY") held.asn1,
        held.public_held,
        parse_pem-pem_encode pair.public_key (text "RSA PUBLIC KEY") held.asn1 held.marshalled,
      )
