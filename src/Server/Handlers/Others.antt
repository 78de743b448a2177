-- ===== src/Server/Handlers/Others.antt =====
-- The commands of one client and the files of another.
use ssnproj.Base.{
  sym, append_assoc, append-nil, All-append, ℕ, [], ◌∷◌, ◌++◌, List, true, ◌≡◌, ◌≢◌, ◌<◌, refl, ◌∙◌,
  Result, some, All, length,
}
use ssnproj.Bytes.BigEndian.{Bytes}
use ssnproj.Paths.{is_abs, print_abs, join}
use ssnproj.Paths.Clean.{IsName}
use ssnproj.Paths.Absolute.{abs_names, abs_names-IsName, join_name}
use ssnproj.Paths.Within.{print_abs-injective}
use ssnproj.Protocol.Types.{Message, CommandMessage}
use ssnproj.Server.World.{Os, ConnectionSender}
use ssnproj.Effects.Keeps.{Ends}
use ssnproj.Server.Directory.{client_id}
use ssnproj.Server.Directory.Isolation.{same_next, client_id-IsName}
use ssnproj.Server.Handlers.{handle}
use ssnproj.Server.Handlers.Confined.{own_names, Allowed, handle-Keeps}
use mathlib.Core.Path.{subst}

-- What a path holds changes only by a call that names the path, or that makes directories at or
-- below it. The paths are clean.
pub record FileFrame {W : Type 0} (os : Os W) (conn : ConnectionSender W) : Type 0 where
  pub by_send :
      (m : Message) (q : Bytes) (w : W)
      → os.read_file q (conn.send_secure_message m w).1 ≡ os.read_file q w
  pub by_mkdir :
      (ds qs : List Bytes) (w : W)
      → All IsName ds
      → All IsName qs
      → ((rest : List Bytes) → qs ++ rest ≢ ds)
      → os.read_file (print_abs qs) (os.mkdir_all (print_abs ds) w).1
        ≡ os.read_file (print_abs qs) w
  pub by_write :
      (ps qs : List Bytes) (contents : Bytes) (w : W)
      → All IsName ps
      → All IsName qs
      → print_abs qs ≢ print_abs ps
      → os.read_file (print_abs qs) (os.write_file (print_abs ps) contents w).1
        ≡ os.read_file (print_abs qs) w
  pub by_remove :
      (ps qs : List Bytes) (w : W)
      → All IsName ps
      → All IsName qs
      → print_abs qs ≢ print_abs ps
      → os.read_file (print_abs qs) (os.remove (print_abs ps) w).1 ≡ os.read_file (print_abs qs) w

module _ {W : Type 0} (os : Os W) (conn : ConnectionSender W) (sha256 : Bytes → Bytes) where
  -- Under one absolute root, no command of a client changes a file of another client whose key has
  -- a different identifier, whatever the command is and however it ends, unless it ends the
  -- process. What a clean path holds is taken to change only by a call that names it or that makes
  -- directories at or below it, and the hash of the first client's key is taken not to be empty.
  pub handle_others :
      (root : Bytes) (j k : ℕ) (js ks : Bytes) (cs : List Bytes) (c : CommandMessage) (w w' : W)
      {r : Result (Unit {0})}
      → FileFrame os conn
      → is_abs root ≡ true
      → 0 < length (sha256 (k ∷ ks))
      → client_id os sha256 (j ∷ js) ≢ client_id os sha256 (k ∷ ks)
      → let theirs = print_abs ((abs_names root ++ (client_id os sha256 (j ∷ js) ∷ [])) ++ cs) in
        All IsName ((abs_names root ++ (client_id os sha256 (j ∷ js) ∷ [])) ++ cs)
        → handle os conn sha256 (record { root_dir = root; aes_key = some (k ∷ ks) }) c w
          ≡ some (r, w')
        → os.read_file theirs w' ≡ os.read_file theirs w
  handle_others root j k js ks cs c w w' frame rooted hashed distinct names e =
      subst (Ends P) e (handle-Keeps os conn sha256 P root k ks allowed rooted hashed c w refl)
    where
      theirs : Bytes
      theirs = print_abs ((abs_names root ++ (client_id os sha256 (j ∷ js) ∷ [])) ++ cs)

      P : W → Type 0
      P v = os.read_file theirs v ≡ os.read_file theirs w

      elsewhere :
          (ds : List Bytes)
          → All IsName (own_names os conn sha256 P root k ks ++ ds)
          → theirs ≢ print_abs (own_names os conn sha256 P root k ks ++ ds)
      elsewhere ds ns same =
          distinct (same_next (abs_names root) cs ds (print_abs-injective _ _ names ns same))

      is_name : IsName (client_id os sha256 (k ∷ ks))
      is_name = client_id-IsName os sha256 (k ∷ ks) hashed

      own_dir :
          join root (client_id os sha256 (k ∷ ks))
          ≡ print_abs (own_names os conn sha256 P root k ks)
      own_dir = join_name root (client_id os sha256 (k ∷ ks)) rooted is_name

      own-IsName : All IsName (own_names os conn sha256 P root k ks)
      own-IsName =
          All-append IsName (abs_names root) (client_id os sha256 (k ∷ ks) ∷ [])
            (abs_names-IsName root) (is_name, tt)

      not_above :
          (rest : List Bytes)
          → ((abs_names root ++ (client_id os sha256 (j ∷ js) ∷ [])) ++ cs) ++ rest
            ≢ own_names os conn sha256 P root k ks
      not_above rest same = distinct (
          same_next (abs_names root) (cs ++ rest) [] (
            sym (append_assoc (abs_names root ++ (client_id os sha256 (j ∷ js) ∷ [])) cs rest)
            ∙ same
            ∙ sym (append-nil _)))

      allowed : Allowed os conn sha256 P root k ks
      allowed = record {
        sends = λ m v p. frame.by_send m theirs v ∙ p;
        makes = λ v p.
            subst (λ d. os.read_file theirs (os.mkdir_all d v).1 ≡ os.read_file theirs w)
              (sym own_dir) (frame.by_mkdir _ _ v own-IsName names not_above ∙ p);
        writes = λ ds contents ns v p. frame.by_write _ _ contents v ns names (elsewhere ds ns) ∙ p;
        removes = λ ds ns v p. frame.by_remove _ _ v ns names (elsewhere ds ns) ∙ p;
      }
