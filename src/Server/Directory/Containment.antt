-- ===== src/Server/Directory/Containment.antt =====
-- `validate_path` keeps every path in the client's directory.
use ssnproj.Effects.{check}
use ssnproj.Base.{
  [], ◌∷◌, ◌++◌, List, Bool, ◌≡◌, ◌⊎◌, sym, ap, ◌∙◌, All, All-of_append_right, arith, append-nil,
}
use ssnproj.Base.{true, false, inl, inr, ok, err, not, ◌&&◌, if◌then◌else◌, Result}
use ssnproj.Base.{path_traversal}
use ssnproj.Bytes.BigEndian.{Bytes}
use ssnproj.Paths.{slash, bytes_eq, has_prefix, is_abs, abs_path, print_abs}
use ssnproj.Paths.Names.{bytes_eq→eq, ne→bytes_eq}
use ssnproj.Paths.Clean.{IsName, resolve, resolve_name, resolve-IsName, join-print_abs}
use ssnproj.Paths.Clean.{clean-print_abs}
use ssnproj.Paths.Absolute.{IsName-relative, abs_path-print_abs, abs_path-IsCleanAbs}
use ssnproj.Paths.Within.{within, has_prefix-print_abs, print_abs-injective}
use ssnproj.Base.{absolute_path, empty_filename, resolve_root}
use ssnproj.Effects.Laws.{guarded-eq-ok, wrapping-gets-eq-ok, >>=-eq-ok}
use ssnproj.Effects.{wrapping, gets}
use ssnproj.Server.World.{Os, CommandHandler}
use ssnproj.Server.Directory.{client_root, get_client_dir, path_under, validate_path}

check_accepts :
    {W : Type 0} (below root : Bool) (path p : Bytes) (w w' : W)
    → ◌≡◌ {A = Result Bytes × W}
        (if not below && not root then err path_traversal else ok path, w)
        (ok p, w')
    → (path ≡ p) × (w' ≡ w) × ((below ≡ true) ⊎ (root ≡ true))
check_accepts true root path p w w' e = ground arith
check_accepts false true path p w w' e = ground arith
check_accepts false false path p w w' e = cc

within_or_root :
    (rs ds : List Bytes)
    → All IsName rs
    → All IsName ds
    → (has_prefix (print_abs rs ++ (slash ∷ [])) (print_abs ds) ≡ true)
      ⊎ (bytes_eq (print_abs ds) (print_abs rs) ≡ true)
    → (cs : List Bytes) × (ds ≡ rs ++ cs)
within_or_root rs ds hr hd (inl below) = within rs ds hr hd below
within_or_root rs ds hr hd (inr root) =
    ([], print_abs-injective ds rs hd hr (bytes_eq→eq _ _ root) ∙ sym (append-nil rs))

module _ {W : Type 0} (os : Os W) (sha256 : Bytes → Bytes) where
  -- What the path leads to decides: below a clean root all calls but the check succeed.
  path_under_lem :
      (rs : List Bytes) (f : Bytes) (w : W)
      → All IsName rs
      → let path = print_abs (resolve rs f) in
        path_under os sha256 (print_abs rs) f w ≡ (
          if not (has_prefix (print_abs rs ++ (slash ∷ [])) path)
                && not (bytes_eq path (print_abs rs))
              then err path_traversal
              else ok path,
          w,
        )
  unfolding path_under check wrapping
  path_under_lem rs f w h =
      let ds = resolve-IsName rs f h in
      rw (join-print_abs rs f h, clean-print_abs (resolve rs f) ds)
        (ground (arith, abs_path-print_abs (os.getwd w) (resolve rs f) ds))

  -- An accepted path stands for entries below the root, or for the root itself.
  pub path_under_contained :
      (rs : List Bytes) (f : Bytes) (w w' : W) {p : Bytes}
      → All IsName rs
      → path_under os sha256 (print_abs rs) f w ≡ (ok p, w')
      → (cs : List Bytes) × (p ≡ print_abs (rs ++ cs)) × All IsName cs × (w' ≡ w)
  path_under_contained rs f w w' {p} h e =
      let ds = resolve-IsName rs f h in
      let (same_path, same_world, inside) =
        check_accepts _ _ (print_abs (resolve rs f)) p w w' (sym (path_under_lem rs f w h) ∙ e) in
      let (cs, same) = within_or_root rs (resolve rs f) h ds inside in
      (
        cs,
        sym same_path ∙ ap print_abs same,
        All-of_append_right IsName rs cs (rw same at ds),
        same_world,
      )

  client_root-eq-ok :
      (handler : CommandHandler) (w w' : W) {r : Bytes}
      → client_root os sha256 handler w ≡ (ok r, w')
      → (dir : Bytes) × (get_client_dir os sha256 handler w ≡ (ok dir, w'))
        × (abs_path (os.getwd w') dir ≡ ok r)
  unfolding client_root
  client_root-eq-ok handler w w' {r} e =
      let (dir, u, got, e1) =
        >>=-eq-ok (get_client_dir os sha256 handler)
          (λ dir. wrapping resolve_root (gets (λ v. abs_path (os.getwd v) dir))) w w' {b = r} e in
      let (found, stay) =
        wrapping-gets-eq-ok resolve_root (λ v. abs_path (os.getwd v) dir) u w' {a = r} e1 in
      (dir, got ∙ ap (λ (v : W). (ok dir, v)) (sym stay), rw (sym stay) at found)

  -- A path that `validate_path` accepts lies in the client's directory: behind the elements of
  -- that directory stand only names, none of them empty, `.` or `..`, and none with a slash.
  -- The working directory is taken to be absolute.
  pub validate_path_contained :
      (handler : CommandHandler) (filename : Bytes) (w w' : W) {p : Bytes}
      → ((v : W) (wd : Bytes) → os.getwd v ≡ ok wd → is_abs wd ≡ true)
      → validate_path os sha256 handler filename w ≡ (ok p, w')
      → (dir : Bytes) × (rs cs : List Bytes) × (get_client_dir os sha256 handler w ≡ (ok dir, w'))
        × (abs_path (os.getwd w') dir ≡ ok (print_abs rs))
        × (p ≡ print_abs (rs ++ cs))
        × All IsName rs
        × All IsName cs
  unfolding validate_path
  validate_path_contained handler filename w w' {p} wd_abs e =
      let accepted =
        guarded-eq-ok (is_abs filename) absolute_path _ w w' {a = p}
          (guarded-eq-ok (bytes_eq filename []) empty_filename _ w w' {a = p} e) in
      let (root, v, got_root, e1) =
        >>=-eq-ok (client_root os sha256 handler)
          (λ abs_root. path_under os sha256 abs_root filename) w w' {b = p} accepted in
      let (dir, got_dir, resolved) = client_root-eq-ok handler w v got_root in
      let (rs, root_rs, hr) = abs_path-IsCleanAbs (os.getwd v) dir (wd_abs v) resolved in
      let (cs, p_cs, hc, stay) =
        path_under_contained rs filename v w' {p = p} hr (rw root_rs at e1) in
      let still = ap (λ (u : W). abs_path (os.getwd u) dir) stay ∙ resolved ∙ ap ok root_rs in
      (dir, rs, cs, got_dir ∙ ap (λ (u : W). (ok dir, u)) (sym stay), still, p_cs, hr, hc)

  -- The name of an entry is accepted, and is taken below the client's directory, which is some
  -- directory other than the root of the file system.
  pub validate_path_name :
      (handler : CommandHandler) (filename dir r : Bytes) (rs : List Bytes) (w w' : W)
      → IsName filename
      → All IsName (r ∷ rs)
      → get_client_dir os sha256 handler w ≡ (ok dir, w')
      → abs_path (os.getwd w') dir ≡ ok (print_abs (r ∷ rs))
      → validate_path os sha256 handler filename w
        ≡ (ok (print_abs ((r ∷ rs) ++ (filename ∷ []))), w')
  unfolding validate_path client_root check wrapping
  validate_path_name handler filename dir r rs w w' hf hr got resolved =
      let path : Bytes = print_abs ((r ∷ rs) ++ (filename ∷ [])) in
      let accepted : path_under os sha256 (print_abs (r ∷ rs)) filename w' ≡ (ok path, w') =
        path_under_lem (r ∷ rs) filename w' hr
        ∙ rw (resolve_name (r ∷ rs) filename hf, has_prefix-print_abs r rs filename []) in
      rw (ne→bytes_eq filename [] hf.ne_empty, IsName-relative filename hf)
        (ground (arith, got, resolved, accepted))
