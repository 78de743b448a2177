-- ===== src/Keys/Made.antt =====
-- What `LoadKeypair` leaves behind: key files after keys were made, and the same world after keys
-- were read.
use ssnproj.Base.{◌≡◌, sym, ap, ◌∙◌, false, Bool-cases, inl, inr, some, Result, ok, Context}
use ssnproj.Base.{
  create_config, save_private_key, save_public_key, read_private_key, read_public_key, ℕ,
}
use ssnproj.Bytes.BigEndian.{Bytes}
use ssnproj.Effects.{Process, pure, gets, wrapping, lift}
use ssnproj.Effects.Processes.{◌>>=◌, ◌>>◌, fatal, need, >>=-eq-ok, fatal-eq-ok, lift-eq-ok}
use ssnproj.Effects.Still.{
  Still, >>=-Still, pure-Still, fatal-gets-Still, wrapping-gets-Still, need-Still, if-Still,
}
use ssnproj.Effects.Laws.{wrapping-eq-ok}
use mathlib.Core.Path.{subst}
use ssnproj.Server.World.{Os, is_not_exist, text}
use ssnproj.Keys.{
  KeyPair, KeyLib, private_path, public_path, generate_key_pair, private_key_to_bytes,
  public_key_to_bytes, block_contents, bytes_to_private_key, bytes_to_public_key, ensure_folder,
  make_keys, read_keys,
}

-- What the packages document: a block that was encoded is decoded, and a key that was written is
-- read back.
pub record KeyCodec {W Priv Pub Block Parsed : Type 0} (lib : KeyLib W Priv Pub Block Parsed)
    : Type 0 where
  pub decoded :
      (kind bytes : Bytes)
      → (k : Block) × (lib.pem_decode (lib.pem_encode kind bytes) ≡ some k)
        × (lib.is_encrypted k ≡ false)
        × (lib.block_bytes k ≡ bytes)
  pub parsed_pkcs1 : (p : Priv) → lib.parse_pkcs1 (lib.marshal_pkcs1 p) ≡ ok p
  pub parsed_pkix :
      (p : Pub) (bytes : Bytes)
      → lib.marshal_pkix p ≡ ok bytes
      → (k : Parsed) × (lib.parse_pkix bytes ≡ ok k) × (lib.as_rsa k ≡ some p)

-- Files and folders that were made are there, and hold what was written to them; the two key files
-- of a folder are different files.
pub record KeyFiles {W Priv Pub Block Parsed : Type 0} (lib : KeyLib W Priv Pub Block Parsed)
    (os : Os W) : Type 0 where
  pub made :
      (d : Bytes) (w v : W) → os.mkdir_all d w ≡ (ok tt, v) → is_not_exist (os.stat d v) ≡ false
  pub written :
      (p contents : Bytes) (w v : W)
      → os.write_file p contents w ≡ (ok tt, v)
      → (os.read_file p v ≡ ok contents) × (is_not_exist (os.stat p v) ≡ false)
  pub apart :
      (c contents : Bytes) (w v : W)
      → os.write_file (public_path c) contents w ≡ (ok tt, v)
      → os.read_file (private_path c) v ≡ os.read_file (private_path c) w
  pub stays :
      (p contents q : Bytes) (w v : W)
      → os.write_file p contents w ≡ (ok tt, v)
      → is_not_exist (os.stat q w) ≡ false
      → is_not_exist (os.stat q v) ≡ false
  pub drawn :
      (n : ℕ) (q : Bytes) (w : W)
      → is_not_exist (os.stat q w) ≡ false
      → is_not_exist (os.stat q (lib.generate n w).1) ≡ false

module _ {W Priv Pub Block Parsed : Type 0} (lib : KeyLib W Priv Pub Block Parsed) (os : Os W) where
  block_contents-Still : (bytes : Bytes) → Still (block_contents lib bytes)
  unfolding block_contents
  block_contents-Still bytes =
      >>=-Still (need (lib.pem_decode bytes)) _ (need-Still _)
        (λ block. if-Still (lib.is_encrypted block) _ _ (fatal-gets-Still _) (pure-Still _))

  bytes_to_private_key-Still : (bytes : Bytes) → Still (bytes_to_private_key lib bytes)
  unfolding bytes_to_private_key
  bytes_to_private_key-Still bytes =
      >>=-Still (block_contents lib bytes) _ (block_contents-Still bytes) (λ b. fatal-gets-Still _)

  bytes_to_public_key-Still : (bytes : Bytes) → Still (bytes_to_public_key lib bytes)
  unfolding bytes_to_public_key
  bytes_to_public_key-Still bytes =
      >>=-Still (block_contents lib bytes) _ (block_contents-Still bytes) (λ b.
        >>=-Still (fatal (gets (λ _. lib.parse_pkix b))) _ (fatal-gets-Still _)
          (λ ifc. need-Still _))

  pub read_keys-Still : (c : Bytes) → Still (read_keys lib os c)
  unfolding read_keys
  read_keys-Still c =
      >>=-Still (lift (wrapping read_private_key (gets (os.read_file (private_path c))))) _
        (wrapping-gets-Still _ _)
        (λ x.
          >>=-Still (lift (wrapping read_public_key (gets (os.read_file (public_path c))))) _
            (wrapping-gets-Still _ _)
            (λ y. >>=-Still (bytes_to_private_key lib x) _ (bytes_to_private_key-Still x) (λ p.
              >>=-Still (bytes_to_public_key lib y) _ (bytes_to_public_key-Still y)
                (λ q. pure-Still _))))

  pub ensured :
      (c : Bytes) (w v : W)
      → KeyFiles lib os
      → ensure_folder lib os c w ≡ (ok tt, v)
      → is_not_exist (os.stat c v) ≡ false
  unfolding ensure_folder
  ensured c w v files e = elim (Bool-cases (is_not_exist (os.stat c w))) [
    | inl missing ↦
        files.made c w v
          (wrapping-eq-ok create_config (os.mkdir_all c) w v {a = tt} (rw missing at e))
    | inr there ↦
        subst (λ (u : W). is_not_exist (os.stat c u) ≡ false)
          (ap (λ (q : Result (Unit {0}) × W). q.1) (rw there at e)) there
  ]

  pub ensured_noop :
      (c : Bytes) (w : W)
      → is_not_exist (os.stat c w) ≡ false
      → ensure_folder lib os c w ≡ (ok tt, w)
  unfolding ensure_folder
  ensured_noop c w there = rw there

  -- What the folder holds after the keys were made.
  pub record HasKeys (c : Bytes) (pair : KeyPair Priv Pub) (w : W) : Type 0 where
    pub folder : is_not_exist (os.stat c w) ≡ false
    pub private_there : is_not_exist (os.stat (private_path c) w) ≡ false
    pub public_there : is_not_exist (os.stat (public_path c) w) ≡ false
    pub private_held :
        os.read_file (private_path c) w ≡ ok (private_key_to_bytes lib pair.private_key)
    pub asn1 : Bytes
    pub marshalled : lib.marshal_pkix pair.public_key ≡ ok asn1
    pub public_held :
        os.read_file (public_path c) w ≡ ok (lib.pem_encode (text "RSA PUBLIC KEY") asn1)

  generated :
      (n : ℕ) (pair : KeyPair Priv Pub) (w v : W)
      → generate_key_pair lib n w ≡ some (ok pair, v)
      → v ≡ (lib.generate n w).1
  unfolding generate_key_pair
  generated n pair w v e =
      let (k, u, drew, e1) = >>=-eq-ok (fatal (lib.generate n)) _ w v {b = pair} e in
      sym (ap (λ (q : Result (KeyPair Priv Pub) × W). q.1) (lift-eq-ok _ v {a = pair} e1))
      ∙ sym (ap (λ (q : Result Priv × W). q.1) (fatal-eq-ok (lib.generate n) w u {a = k} drew))

  public_bytes :
      (pub_key : Pub) (bytes : Bytes) (w v : W)
      → public_key_to_bytes lib pub_key w ≡ some (ok bytes, v)
      → (asn1 : Bytes) × (lib.marshal_pkix pub_key ≡ ok asn1)
        × (bytes ≡ lib.pem_encode (text "RSA PUBLIC KEY") asn1)
        × (v ≡ w)
  unfolding public_key_to_bytes
  public_bytes pub_key bytes w v e =
      let (asn1, u, first, e1) =
        >>=-eq-ok (fatal (gets (λ _. lib.marshal_pkix pub_key))) _ w v {b = bytes} e in
      let marshalled =
        fatal-eq-ok (gets (λ (_ : W). lib.marshal_pkix pub_key)) w u {a = asn1} first in
      let ended =
        lift-eq-ok (pure (lib.pem_encode (text "RSA PUBLIC KEY") asn1) u) v {a = bytes} e1 in
      (
        asn1,
        ap (λ (q : Result Bytes × W). q.0) marshalled,
        cc (ap (λ (q : Result Bytes × W). q.0) ended),
        sym (
            ap (λ (q : Result Bytes × W). q.1) marshalled
            ∙ ap (λ (q : Result Bytes × W). q.1) ended),
      )

  -- A file was written, and the chain went on.
  wrote :
      {A : Type 0} (reason : Context) (path contents : Bytes) (k : Unit {0} → Process W A) (w v : W)
      {a : A}
      → (lift (wrapping reason (os.write_file path contents)) >>= k) w ≡ some (ok a, v)
      → (u : W) × (os.write_file path contents w ≡ (ok tt, u)) × (k tt u ≡ some (ok a, v))
  wrote reason path contents k w v {a} e =
      let (_, u, saved, rest) =
        >>=-eq-ok (lift (wrapping reason (os.write_file path contents))) k w v {b = a} e in
      (u, wrapping-eq-ok reason _ w u {a = tt} (lift-eq-ok _ u {a = tt} saved), rest)

  abbrev save_public : Bytes → KeyPair Priv Pub → Bytes → Process W (KeyPair Priv Pub)
  save_public c p bytes = do
    lift (wrapping save_public_key (os.write_file (public_path c) bytes))
    lift (pure p)

  -- What the second half of `make_keys` did.
  saved_public :
      (c : Bytes) (p pair : KeyPair Priv Pub) (w v : W)
      → (public_key_to_bytes lib p.public_key >>= save_public c p) w ≡ some (ok pair, v)
      → (asn1 : Bytes) × (lib.marshal_pkix p.public_key ≡ ok asn1)
        × (os.write_file (public_path c) (lib.pem_encode (text "RSA PUBLIC KEY") asn1) w
            ≡ (ok tt, v))
        × (p ≡ pair)
  saved_public c p pair w v e =
      let (bytes, w3, got, rest) =
        >>=-eq-ok (public_key_to_bytes lib p.public_key) (save_public c p) w v {b = pair} e in
      let (asn1, marshalled, same_bytes, same_w3) = public_bytes p.public_key bytes w w3 got in
      let (u, written, last) =
        wrote save_public_key (public_path c) bytes (λ _. lift (pure p)) w3 v {a = pair} rest in
      let ended = lift-eq-ok (pure p u) v {a = pair} last in
      (
        asn1,
        marshalled,
        ap (λ (b : Bytes). os.write_file (public_path c) b w) (sym same_bytes)
            ∙ ap (os.write_file (public_path c) bytes) (sym same_w3)
            ∙ written
            ∙ ap (λ (q : Result (KeyPair Priv Pub) × W). (ok tt, q.1)) ended,
        cc (ap (λ (q : Result (KeyPair Priv Pub) × W). q.0) ended),
      )

  pub made_keys :
      (c : Bytes) (pair : KeyPair Priv Pub) (w v : W)
      → KeyFiles lib os
      → is_not_exist (os.stat c w) ≡ false
      → make_keys lib os c w ≡ some (ok pair, v)
      → HasKeys c pair v
  unfolding make_keys
  made_keys c pair w v files there e =
      let (p, w1, gen, e1) = >>=-eq-ok (generate_key_pair lib 2048) _ w v {b = pair} e in
      let (w2, wrote1, e2) =
        wrote save_private_key (private_path c) (private_key_to_bytes lib p.private_key) _ w1 v
          {a = pair} e1 in
      let (asn1, marshalled, wrote2, same_pair) = saved_public c p pair w2 v e2 in
      let there1 : is_not_exist (os.stat c w1) ≡ false =
        subst (λ (u : W). is_not_exist (os.stat c u) ≡ false) (sym (generated 2048 p w w1 gen))
          (files.drawn 2048 c w there) in
      let (held1, found1) = files.written _ _ w1 w2 wrote1 in
      let (held2, found2) = files.written _ _ w2 v wrote2 in
      subst (λ q. HasKeys c q v) same_pair
        (record {
          folder = files.stays _ _ c w2 v wrote2 (files.stays _ _ c w1 w2 wrote1 there1);
          private_there = files.stays _ _ (private_path c) w2 v wrote2 found1;
          public_there = found2;
          private_held = files.apart c _ w2 v wrote2 ∙ held1;
          asn1 = asn1;
          marshalled = marshalled;
          public_held = held2;
        })
