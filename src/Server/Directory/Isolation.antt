-- ===== src/Server/Directory/Isolation.antt =====
-- The directories of two clients have no path in common.
use ssnproj.Base.{
  ℕ, ◌/◌, ◌%◌, true, [], ◌∷◌, ◌++◌, List, ◌≡◌, ◌≢◌, ◌≤◌, ◌<◌, sym, ◌∙◌, All, All-append, arith, ok,
}
use ssnproj.Base.{
  length, take, length-take, some, absolute_path, empty_filename, resolve_root, create_client_dir,
}
use ssnproj.Bytes.BigEndian.{Bytes}
use ssnproj.Paths.{slash, bytes_eq, is_abs, abs_path, print_abs, join}
use ssnproj.Paths.Split.{HasNoSlash}
use ssnproj.Paths.Clean.{IsName}
use ssnproj.Paths.Absolute.{abs_names, abs_names-IsName, join_name, abs_path-print_abs}
use ssnproj.Paths.Within.{print_abs-injective}
use ssnproj.Effects.{wrapping, gets, pure}
use ssnproj.Server.World.{Os, CommandHandler}
use ssnproj.Effects.Laws.{guarded-eq-ok, wrapping-gets-eq-ok, >>=-eq-ok}
use ssnproj.Server.Directory.{
  hex, hex_digit, client_id, get_client_dir, client_root, path_under, validate_path,
}
use ssnproj.Server.Directory.Containment.{path_under_contained}

hex_digit-lower : (d : ℕ) → b'0' ≤ hex_digit d
hex_digit-lower d = ground arith

hex_digit-ne-slash : (d : ℕ) → hex_digit d ≢ slash
hex_digit-ne-slash d e = absurd (omega (arith, hex_digit-lower d))

hex-HasNoSlash : (bs : Bytes) → HasNoSlash (hex bs)
hex-HasNoSlash [] = tt
hex-HasNoSlash (b ∷ bs) =
    (hex_digit-ne-slash (b / 16), (hex_digit-ne-slash (b % 16), hex-HasNoSlash bs))

-- The digits of one byte or more name an entry.
hex-IsName : (bs : Bytes) → 0 < length bs → IsName (hex bs)
hex-IsName [] h = absurd (omega arith)
hex-IsName (b ∷ bs) h = record {
  ne_empty = λ e. cc;
  ne_dot = λ e. cc;
  ne_dot_dot = λ e. ground (arith, hex_digit-lower (b / 16));
  no_slash = hex-HasNoSlash (b ∷ bs);
}

-- Lists that agree up to an element after the same beginning have that element in common.
pub same_next {ℓ} :
    {A : Type ℓ} (base xs ys : List A) {a b : A}
    → (base ++ (a ∷ [])) ++ xs ≡ (base ++ (b ∷ [])) ++ ys
    → a ≡ b
same_next [] xs ys e = ground arith
same_next (x ∷ base) xs ys e = same_next base xs ys (ground arith)

module _ {W : Type 0} (os : Os W) (sha256 : Bytes → Bytes) where
  pub client_id-IsName : (key : Bytes) → 0 < length (sha256 key) → IsName (client_id os sha256 key)
  unfolding client_id
  client_id-IsName key h =
      hex-IsName (take 8 (sha256 key)) (omega (arith, length-take 8 (sha256 key)))

  client_root-eq :
      (root : Bytes) (k : ℕ) (key : Bytes) (w w' : W) {r : Bytes}
      → is_abs root ≡ true
      → 0 < length (sha256 (k ∷ key))
      → client_root os sha256 (record { root_dir = root; aes_key = some (k ∷ key) }) w ≡ (ok r, w')
      → r ≡ print_abs (abs_names root ++ (client_id os sha256 (k ∷ key) ∷ []))
  unfolding client_root get_client_dir
  client_root-eq root k key w w' {r} rooted hashed e =
      let client_dir = join root (client_id os sha256 (k ∷ key)) in
      let names = abs_names root ++ (client_id os sha256 (k ∷ key) ∷ []) in
      let is_name = client_id-IsName (k ∷ key) hashed in
      let clean_dir : client_dir ≡ print_abs names =
        join_name root (client_id os sha256 (k ∷ key)) rooted is_name in
      let all =
        All-append IsName (abs_names root) (client_id os sha256 (k ∷ key) ∷ [])
          (abs_names-IsName root) (is_name, tt) in
      let (dir, u, got, e1) =
        >>=-eq-ok (get_client_dir os sha256 (record { root_dir = root; aes_key = some (k ∷ key) }))
          (λ dir. wrapping resolve_root (gets (λ v. abs_path (os.getwd v) dir))) w w' {b = r} e in
      let (found, stay) =
        wrapping-gets-eq-ok resolve_root (λ v. abs_path (os.getwd v) dir) u w' {a = r} e1 in
      let (_, v, _, e2) =
        >>=-eq-ok (wrapping create_client_dir (os.mkdir_all client_dir)) (λ _. pure client_dir) w u
          {b = dir} got in
      let same_dir : client_dir ≡ dir = ground arith in
      ground (arith, found, abs_path-print_abs (os.getwd u) names all)

  -- What a client with a key may name lies below the directory of the absolute root that is named
  -- after the key, or is that directory. The hash of the key is taken not to be empty.
  pub validate_path_own :
      (root : Bytes) (k : ℕ) (key filename : Bytes) (w w' : W) {p : Bytes}
      → is_abs root ≡ true
      → 0 < length (sha256 (k ∷ key))
      → validate_path os sha256 (record { root_dir = root; aes_key = some (k ∷ key) }) filename w
        ≡ (ok p, w')
      → let own = abs_names root ++ (client_id os sha256 (k ∷ key) ∷ []) in
        (cs : List Bytes) × (p ≡ print_abs (own ++ cs)) × All IsName (own ++ cs)
  unfolding validate_path
  validate_path_own root k key filename w w' {p} rooted hashed e =
      let handler : CommandHandler = record { root_dir = root; aes_key = some (k ∷ key) } in
      let own = abs_names root ++ (client_id os sha256 (k ∷ key) ∷ []) in
      let all =
        All-append IsName (abs_names root) (client_id os sha256 (k ∷ key) ∷ [])
          (abs_names-IsName root) (client_id-IsName (k ∷ key) hashed, tt) in
      let accepted =
        guarded-eq-ok (is_abs filename) absolute_path _ w w' {a = p}
          (guarded-eq-ok (bytes_eq filename []) empty_filename _ w w' {a = p} e) in
      let (r, v, got_root, e1) =
        >>=-eq-ok (client_root os sha256 handler)
          (λ abs_root. path_under os sha256 abs_root filename) w w' {b = p} accepted in
      let (cs, p_cs, hc, stay) =
        path_under_contained os sha256 own filename v w' {p = p} all
          (rw (client_root-eq root k key w v rooted hashed got_root) at e1) in
      (cs, p_cs, All-append IsName own cs all hc)

  -- Two clients under one absolute root whose keys have different identifiers are never given the
  -- same path, whatever names they send. The hashes of the keys are taken not to be empty.
  pub validate_path_isolated :
      (root : Bytes) (j k : ℕ) (js ks f g : Bytes) (v v' w w' : W) {p q : Bytes}
      → is_abs root ≡ true
      → 0 < length (sha256 (j ∷ js))
      → 0 < length (sha256 (k ∷ ks))
      → client_id os sha256 (j ∷ js) ≢ client_id os sha256 (k ∷ ks)
      → validate_path os sha256 (record { root_dir = root; aes_key = some (j ∷ js) }) f v
        ≡ (ok p, v')
      → validate_path os sha256 (record { root_dir = root; aes_key = some (k ∷ ks) }) g w
        ≡ (ok q, w')
      → p ≢ q
  validate_path_isolated root j k js ks f g v v' w w' rooted hj hk distinct ep eq same =
      let (xs, p_xs, hx) = validate_path_own root j js f v v' rooted hj ep in
      let (ys, q_ys, hy) = validate_path_own root k ks g w w' rooted hk eq in
      distinct
        (same_next (abs_names root) xs ys (print_abs-injective _ _ hx hy (sym p_xs ∙ same ∙ q_ys)))
