-- ===== src/Effects/Keeps.antt =====
-- What keeps a predicate on the world: the rules for the steps of the handlers.
use ssnproj.Base.{◌≡◌, refl, ap, ok, err, Result, Error, Context, wrap, some, none, Option}
use ssnproj.Effects.{
  Action, Process, check, check_process, wrapping, or_crash, or_crash-some, or_crash-none,
}

module _ {W : Type 0} (P : W → Type 0) where
  -- The step keeps `P`, however it ends.
  abbrev pub Keeps : {A : Type 0} → Action W A → Type 0
  Keeps m = (w : W) → P w → P (m w).1

  abbrev pub Ends : {A : Type 0} → Option (Result A × W) → Type 0
  Ends none = Unit
  Ends (some (r, w)) = P w

  abbrev pub KeepsProcess : {A : Type 0} → Process W A → Type 0
  KeepsProcess m = (w : W) → P w → Ends (m w)

  pub check-Keeps :
      {A B : Type 0} (m : Action W A) (failed : Error → Action W B) (k : A → Action W B)
      → Keeps m
      → ((e : Error) → Keeps (failed e))
      → ((a : A) (w v : W) → m w ≡ (ok a, v) → P v → P (k a v).1)
      → Keeps (check m failed k)
  unfolding check
  check-Keeps {A} {B} m failed k hm hf hk w p = go (m w).0 refl
    where
      go :
          (r : Result A)
          → (m w).0 ≡ r
          → P (elim r as (λ _. Result B × W) [ ok a ↦ k a (m w).1 | err e ↦ failed e (m w).1 ]).1
      go (ok a) e = hk a w (m w).1 (ap (λ (r : Result A). (r, (m w).1)) e) (hm w p)
      go (err x) e = hf x (m w).1 (hm w p)

  pub check_process-Keeps :
      {A B : Type 0} (m : Action W A) (failed : Error → Action W B) (k : A → Process W B)
      → Keeps m
      → ((e : Error) → Keeps (failed e))
      → ((a : A) (w v : W) → m w ≡ (ok a, v) → P v → Ends (k a v))
      → KeepsProcess (check_process m failed k)
  unfolding check_process
  check_process-Keeps {A} {B} m failed k hm hf hk w p = go (m w).0 refl
    where
      go :
          (r : Result A)
          → (m w).0 ≡ r
          → Ends (elim r as (λ _. Option (Result B × W)) [
            | ok a ↦ k a (m w).1
            | err e ↦ some (failed e (m w).1)
          ])
      go (ok a) e = hk a w (m w).1 (ap (λ (r : Result A). (r, (m w).1)) e) (hm w p)
      go (err x) e = hf x (m w).1 (hm w p)

  pub wrapping-Keeps : {A : Type 0} (c : Context) (m : Action W A) → Keeps m → Keeps (wrapping c m)
  unfolding wrapping
  wrapping-Keeps {A} c m hm w p = go (m w).0
    where
      go :
          (r : Result A)
          → P
              (elim r as (λ _. Result A × W) [
                | ok a ↦ (ok a, (m w).1)
                | err e ↦ (err (wrap c e), (m w).1)
              ]).1
      go (ok a) = hm w p
      go (err e) = hm w p

  pub or_crash-Keeps :
      {A B : Type 0} (o : Option A) (k : A → Process W B)
      → ((a : A) → KeepsProcess (k a))
      → KeepsProcess (or_crash o k)
  or_crash-Keeps none k h w p = rw or_crash-none tt
  or_crash-Keeps (some a) k h w p = rw or_crash-some (h a w p)
