-- ===== src/Server/Directory/Keeps.antt =====
-- What `validate_path` and `get_client_dir` do to the world: they make the client's directory.
use ssnproj.Base.{
  ℕ, [], ◌∷◌, ◌++◌, ◌≡◌, refl, Option, none, some, Bool-cases, inl, inr, not, ◌&&◌, resolve_root,
  create_client_dir,
}
use ssnproj.Bytes.BigEndian.{Bytes}
use ssnproj.Paths.{slash, bytes_eq, has_prefix, abs_path, is_abs, join}
use ssnproj.Effects.{raise, gets}
use ssnproj.Server.World.{Os, CommandHandler}
use ssnproj.Effects.Keeps.{Keeps, check-Keeps, wrapping-Keeps}
use ssnproj.Server.Directory.{
  client_id, client_dir_of, get_client_dir, client_root, path_under, validate_path,
}

module _ {W : Type 0} (os : Os W) (sha256 : Bytes → Bytes) (P : W → Type 0) where
  client_dir_of-Keeps :
      (root : Bytes) (o : Option Bytes)
      → ((k : ℕ) (key : Bytes)
          → o ≡ some (k ∷ key)
          → Keeps P (os.mkdir_all (join root (client_id os sha256 (k ∷ key)))))
      → Keeps P (client_dir_of os sha256 root o)
  client_dir_of-Keeps root none makes w p = p
  client_dir_of-Keeps root (some []) makes w p = p
  client_dir_of-Keeps root (some (k ∷ key)) makes w p =
      check-Keeps P _ raise _ (wrapping-Keeps P create_client_dir _ (makes k key refl)) (λ e w p. p)
        (λ _ _ _ _ p. p) w p

module _ {W : Type 0} (os : Os W) (sha256 : Bytes → Bytes) (P : W → Type 0)
    (handler : CommandHandler)
    (makes : (k : ℕ) (key : Bytes)
      → handler.aes_key ≡ some (k ∷ key)
      → Keeps P (os.mkdir_all (join handler.root_dir (client_id os sha256 (k ∷ key))))) where
  pub get_client_dir-Keeps : Keeps P (get_client_dir os sha256 handler)
  unfolding get_client_dir
  get_client_dir-Keeps = client_dir_of-Keeps os sha256 P handler.root_dir handler.aes_key makes

  path_under-Keeps : (abs_root filename : Bytes) → Keeps P (path_under os sha256 abs_root filename)
  unfolding path_under
  path_under-Keeps abs_root filename =
      check-Keeps P _ _ _ (wrapping-Keeps P _ _ (λ w p. p)) (λ e w p. p)
        (λ path _ u _ p.
          elim (Bool-cases
            (not (has_prefix (abs_root ++ (slash ∷ [])) path) && not (bytes_eq path abs_root))) [
              | inl outside ↦ rw outside p
              | inr inside ↦ rw inside p
            ])

  client_root-Keeps : Keeps P (client_root os sha256 handler)
  unfolding client_root
  client_root-Keeps =
      check-Keeps P _ _ _ get_client_dir-Keeps (λ e w p. p)
        (λ dir _ v _ p.
          wrapping-Keeps P resolve_root (gets (λ w. abs_path (os.getwd w) dir)) (λ w p. p) v p)

  pub validate_path-Keeps : (filename : Bytes) → Keeps P (validate_path os sha256 handler filename)
  unfolding validate_path
  validate_path-Keeps filename = λ w p. elim (Bool-cases (bytes_eq filename [])) [
    | inl empty ↦ rw empty p
    | inr named ↦ elim (Bool-cases (is_abs filename)) [
      | inl rooted_name ↦ rw (named, rooted_name) p
      | inr relative ↦
          rw (named, relative)
            (check-Keeps P (client_root os sha256 handler) raise
              (λ abs_root. path_under os sha256 abs_root filename) client_root-Keeps (λ e w p. p)
              (λ abs_root _ v _ p. path_under-Keeps abs_root filename v p) w p)
    ]
  ]
