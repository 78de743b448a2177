-- ===== src/Effects/Laws.antt =====
-- Inversion of the steps of an action that succeeded.
use ssnproj.Effects.{check, check_process}
use ssnproj.Base.{
  Bool, true, false, ◌≡◌, refl, sym, ap, arith, Result, Error, Context, ok, err, wrap, Option, some,
  if◌then◌else◌,
}
use ssnproj.Effects.{Action, Process, then_process, raise, gets, wrapping, ◌>>=◌}

module _ {W A : Type 0} where
  pub guarded-eq-ok :
      (b : Bool) (x : Error) (m : Action W A) (w w' : W) {a : A}
      → (if b then raise x else m) w ≡ (ok a, w')
      → m w ≡ (ok a, w')
  guarded-eq-ok true x m w w' e = cc
  guarded-eq-ok false x m w w' e = e

  invert_gets :
      (c : Context) (r : Result A) (v w' : W) {a : A}
      → ◌≡◌ {A = Result A × W}
          (elim r [ ok b ↦ (ok b, v) | err x ↦ (err (wrap c x), v) ])
          (ok a, w')
      → (r ≡ ok a) × (w' ≡ v)
  invert_gets c (ok b) v w' e =
      (ap (λ (q : Result A × W). q.0) e, sym (ap (λ (q : Result A × W). q.1) e))
  invert_gets c (err x) v w' e = cc

  pub wrapping-gets-eq-ok :
      (c : Context) (f : W → Result A) (w w' : W) {a : A}
      → wrapping c (gets f) w ≡ (ok a, w')
      → (f w ≡ ok a) × (w' ≡ w)
  unfolding wrapping
  wrapping-gets-eq-ok c f w w' e = invert_gets c (f w) w w' e

  pub gets-eq-ok :
      (f : W → Result A) (w w' : W) {a : A} → gets f w ≡ (ok a, w') → (f w ≡ ok a) × (w' ≡ w)
  gets-eq-ok f w w' e = (ap (λ (q : Result A × W). q.0) e, sym (ap (λ (q : Result A × W). q.1) e))

module _ {W A B : Type 0} where
  invert_bind :
      (r : Result A) (v w' : W) (f : A → Action W B) {b : B}
      → ◌≡◌ {A = Result B × W} (elim r [ ok a ↦ f a v | err x ↦ (err x, v) ]) (ok b, w')
      → (a : A) × (u : W) × (◌≡◌ {A = Result A × W} (r, v) (ok a, u)) × (f a u ≡ (ok b, w'))
  invert_bind (ok a) v w' f e = (a, v, refl, e)
  invert_bind (err x) v w' f e = cc

  pub >>=-eq-ok :
      (m : Action W A) (f : A → Action W B) (w w' : W) {b : B}
      → (m >>= f) w ≡ (ok b, w')
      → (a : A) × (u : W) × (m w ≡ (ok a, u)) × (f a u ≡ (ok b, w'))
  unfolding check
  >>=-eq-ok m f w w' e = invert_bind (m w).0 (m w).1 w' f e

  bind_lift :
      (r : Result A) (v : W) (f : A → Process W B) (g : A → Action W B)
      → ((a : A) (u : W) → f a u ≡ some (g a u))
      → ◌≡◌ {A = Option (Result B × W)}
          (elim r [ ok a ↦ f a v | err x ↦ some (err x, v) ])
          (some (elim r [ ok a ↦ g a v | err x ↦ (err x, v) ]))
  bind_lift (ok a) v f g h = h a v
  bind_lift (err x) v f g h = refl

  -- A process whose rest never ends early is an action.
  pub then_process-eq :
      (m : Action W A) (f : A → Process W B) (g : A → Action W B) (w : W)
      → ((a : A) (u : W) → f a u ≡ some (g a u))
      → then_process m f w ≡ some ((m >>= g) w)
  unfolding check check_process
  then_process-eq m f g w h = bind_lift (m w).0 (m w).1 f g h

  pub then_process-ok :
      (m : Action W A) (f : A → Process W B) (w : W) {a : A}
      → (m w).0 ≡ ok a
      → then_process m f w ≡ f a (m w).1
  unfolding check_process
  then_process-ok m f w e = ground (arith, e)

  -- Where a failure never ends well, a check that ends well was passed.
  pub check-eq-ok :
      (m : Action W A) (failed : Error → Action W B) (f : A → Action W B) (w w' : W) {b : B}
      → ((e : Error) (v : W) → (failed e v).0 ≡ err e)
      → check m failed f w ≡ (ok b, w')
      → (a : A) × (v : W) × (m w ≡ (ok a, v)) × (f a v ≡ (ok b, w'))
  unfolding check
  check-eq-ok m failed f w w' {b} fails e = go (m w).0 refl e
    where
      go :
          (r : Result A)
          → (m w).0 ≡ r
          → elim r as (λ _. Result B × W) [ ok a ↦ f a (m w).1 | err x ↦ failed x (m w).1 ]
            ≡ (ok b, w')
          → (a : A) × (v : W) × (m w ≡ (ok a, v)) × (f a v ≡ (ok b, w'))
      go (ok a) same h = (a, (m w).1, ap (λ (q : Result A). (q, (m w).1)) same, h)
      go (err x) same h = cc (fails x (m w).1, ap (λ (q : Result B × W). q.0) h)

  pub check_process-ok :
      (m : Action W A) (failed : Error → Action W B) (f : A → Process W B) (w v : W) {a : A}
      → m w ≡ (ok a, v)
      → check_process m failed f w ≡ f a v
  unfolding check_process
  check_process-ok m failed f w v e = ground (arith, e)

  pub check-ok :
      (m : Action W A) (failed : Error → Action W B) (f : A → Action W B) (w v : W) {a : A}
      → m w ≡ (ok a, v)
      → check m failed f w ≡ f a v
  unfolding check
  check-ok m failed f w v e = ground (arith, e)

  pub check-err :
      (m : Action W A) (failed : Error → Action W B) (f : A → Action W B) (w v : W) {x : Error}
      → m w ≡ (err x, v)
      → check m failed f w ≡ failed x v
  unfolding check
  check-err m failed f w v e = ground (arith, e)

  pub check_process-err :
      (m : Action W A) (failed : Error → Action W B) (f : A → Process W B) (w v : W) {x : Error}
      → m w ≡ (err x, v)
      → check_process m failed f w ≡ some (failed x v)
  unfolding check_process
  check_process-err m failed f w v e = ground (arith, e)

  -- A bind goes on behind a success.
  pub >>=-ok :
      (m : Action W A) (f : A → Action W B) (w v : W) {a : A}
      → m w ≡ (ok a, v)
      → (m >>= f) w ≡ f a v
  unfolding check
  >>=-ok m f w v e = ground (arith, e)

pub wrapping-ok :
    {W A : Type 0} (c : Context) (m : Action W A) (w v : W) {a : A}
    → m w ≡ (ok a, v)
    → wrapping c m w ≡ (ok a, v)
unfolding wrapping
wrapping-ok c m w v e = ground (arith, e)

pub wrapping-eq-ok :
    {W A : Type 0} (c : Context) (m : Action W A) (w v : W) {a : A}
    → wrapping c m w ≡ (ok a, v)
    → m w ≡ (ok a, v)
unfolding wrapping
wrapping-eq-ok c m w v e = ground arith
