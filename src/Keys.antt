-- ===== src/Keys.antt =====
-- pkg/rsa/rsa.go: the key pair, its PEM files and `LoadKeypair`. The packages `crypto/rsa`,
-- `crypto/x509` and `encoding/pem` are parameters.
pub mod Made
pub mod Reload
use ssnproj.Base.{
  ◌++◌, ◌||◌, ℕ, Bool, true, false, if◌then◌else◌, Option, none, some, Result, Error, ok, err,
}
use ssnproj.Base.{
  create_config, save_private_key, save_public_key, read_private_key, read_public_key,
}
use ssnproj.Bytes.BigEndian.{Bytes}
use ssnproj.Effects.{Action, Process, pure, gets, wrapping, lift}
use ssnproj.Effects.Processes.{◌>>=◌, ◌>>◌, fatal, need}
use ssnproj.Server.World.{Os, is_not_exist, text}

-- The struct `RSAKeyPair`.
pub record KeyPair (Priv Pub : Type 0) : Type 0 where
  pub private_key : Priv
  pub public_key : Pub

-- Private and public keys, PEM blocks, and what `ParsePKIXPublicKey` may return besides an RSA key.
pub record KeyLib (W Priv Pub Block Parsed : Type 0) : Type 0 where
  pub generate : ℕ → Action W Priv
  pub public_of : Priv → Pub
  pub marshal_pkcs1 : Priv → Bytes
  pub marshal_pkix : Pub → Result Bytes
  pub parse_pkcs1 : Bytes → Result Priv
  pub parse_pkix : Bytes → Result Parsed
  pub as_rsa : Parsed → Option Pub
  pub pem_encode : Bytes → Bytes → Bytes
  pub pem_decode : Bytes → Option Block
  pub block_bytes : Block → Bytes
  pub is_encrypted : Block → Bool
  pub decrypt_block : Block → Result Bytes

abbrev default_rsa_key_size : ℕ
default_rsa_key_size = 2048

abbrev pub private_path : Bytes → Bytes
private_path config_folder = config_folder ++ text "/private.pem"

abbrev pub public_path : Bytes → Bytes
public_path config_folder = config_folder ++ text "/public.pem"

module _ {W Priv Pub Block Parsed : Type 0} (lib : KeyLib W Priv Pub Block Parsed) where
  unfoldable pub generate_key_pair : ℕ → Process W (KeyPair Priv Pub)
  generate_key_pair bits = do
    privkey ← fatal (lib.generate bits)
    lift (pure (record { private_key = privkey; public_key = lib.public_of privkey }))

  unfoldable pub private_key_to_bytes : Priv → Bytes
  private_key_to_bytes priv = lib.pem_encode (text "RSA PRIVATE KEY") (lib.marshal_pkcs1 priv)

  unfoldable pub public_key_to_bytes : Pub → Process W Bytes
  public_key_to_bytes pub_key = do
    pub_asn1 ← fatal (gets (λ _. lib.marshal_pkix pub_key))
    lift (pure (lib.pem_encode (text "RSA PUBLIC KEY") pub_asn1))

  -- The bytes of the PEM block. Where there is none, the test for encryption ends in a nil
  -- dereference.
  unfoldable pub block_contents : Bytes → Process W Bytes
  block_contents bytes = do
    block ← need (lib.pem_decode bytes)
    if lib.is_encrypted block
        then fatal (gets (λ _. lib.decrypt_block block))
        else lift (pure (lib.block_bytes block))

  unfoldable pub bytes_to_private_key : Bytes → Process W Priv
  bytes_to_private_key priv = do b ← block_contents priv; fatal (gets (λ _. lib.parse_pkcs1 b))

  unfoldable pub bytes_to_public_key : Bytes → Process W Pub
  bytes_to_public_key pub_bytes = do
    b ← block_contents pub_bytes
    ifc ← fatal (gets (λ _. lib.parse_pkix b))
    need (lib.as_rsa ifc)

  module _ (os : Os W) where
    unfoldable pub ensure_folder : Bytes → Action W (Unit {0})
    ensure_folder config_folder w =
        if is_not_exist (os.stat config_folder w)
        then wrapping create_config (os.mkdir_all config_folder) w
        else pure tt w

    unfoldable pub make_keys : Bytes → Process W (KeyPair Priv Pub)
    make_keys config_folder = do
      pair ← generate_key_pair default_rsa_key_size
      lift (
          wrapping save_private_key
            (os.write_file (private_path config_folder) (private_key_to_bytes pair.private_key)))
      pub_key_bytes ← public_key_to_bytes pair.public_key
      lift (wrapping save_public_key (os.write_file (public_path config_folder) pub_key_bytes))
      lift (pure pair)

    unfoldable pub read_keys : Bytes → Process W (KeyPair Priv Pub)
    read_keys config_folder = do
      priv_key_bytes ←
          lift (wrapping read_private_key (gets (os.read_file (private_path config_folder))))
      pub_key_bytes ←
          lift (wrapping read_public_key (gets (os.read_file (public_path config_folder))))
      priv_key ← bytes_to_private_key priv_key_bytes
      pub_key ← bytes_to_public_key pub_key_bytes
      lift (pure (record { private_key = priv_key; public_key = pub_key }))

    abbrev pub is_key_missing : Bytes → W → Bool
    is_key_missing config_folder w =
        is_not_exist (os.stat (private_path config_folder) w)
        || is_not_exist (os.stat (public_path config_folder) w)

    unfoldable pub make_or_read_keys : Bytes → Process W (KeyPair Priv Pub)
    make_or_read_keys config_folder w =
        if is_key_missing config_folder w
        then make_keys config_folder w
        else read_keys config_folder w

    unfoldable pub load_keypair : Bytes → Process W (KeyPair Priv Pub)
    load_keypair config_folder =
        lift (ensure_folder config_folder) >> make_or_read_keys config_folder
