-- ===== src/Effects/Processes.antt =====
-- Chains of process steps: a failure returns early, and the end of the process is the end of the
-- chain.
use ssnproj.Base.{◌≡◌, refl, ap, arith, Option, none, some, Result, ok, err}
use ssnproj.Effects.{Action, Process}

abbrev pub continue :
    {W A B : Type 0} → (A → Process W B) → Option (Result A × W) → Option (Result B × W)
continue f none = none
continue f (some (err e, w)) = some (err e, w)
continue f (some (ok a, w)) = f a w

infixl 5 ◌>>=◌ ◌>>◌
unfoldable pub ◌>>=◌ : {W A B : Type 0} → Process W A → (A → Process W B) → Process W B
◌>>=◌ m f w = continue f (m w)

abbrev pub ◌>>◌ : {W A B : Type 0} → Process W A → Process W B → Process W B
m >> k = m >>= λ _. k

module _ {W A : Type 0} where
  abbrev pub fatal_on : Result A × W → Option (Result A × W)
  fatal_on (err e, w) = none
  fatal_on (ok a, w) = some (ok a, w)

  -- `a, err := m; if err != nil { log.Fatal(err) }`
  unfoldable pub fatal : Action W A → Process W A
  fatal m w = fatal_on (m w)

  abbrev pub ended_on : Option (Result A × W) → Option (Result A × W)
  ended_on none = none
  ended_on (some q) = fatal_on q

  -- The same for a step that may end the process itself.
  unfoldable pub or_end : Process W A → Process W A
  or_end m w = ended_on (m w)

  -- A value that a panic or `log.Fatal` would prevent.
  unfoldable pub need : Option A → Process W A
  need none w = none
  need (some a) w = some (ok a, w)

module _ {W A B : Type 0} where
  -- Inversion of a chain that ended well.
  continue-eq-ok :
      (f : A → Process W B) (o : Option (Result A × W)) (w' : W) {b : B}
      → continue f o ≡ some (ok b, w')
      → (a : A) × (v : W) × (o ≡ some (ok a, v)) × (f a v ≡ some (ok b, w'))
  continue-eq-ok f none w' e = cc
  continue-eq-ok f (some (err x, v)) w' e = cc
  continue-eq-ok f (some (ok a, v)) w' e = (a, v, refl, e)

  pub >>=-eq-ok :
      (m : Process W A) (f : A → Process W B) (w w' : W) {b : B}
      → (m >>= f) w ≡ some (ok b, w')
      → (a : A) × (v : W) × (m w ≡ some (ok a, v)) × (f a v ≡ some (ok b, w'))
  unfolding ◌>>=◌
  >>=-eq-ok m f w w' e = continue-eq-ok f (m w) w' e

  pub >>=-ok :
      (m : Process W A) (f : A → Process W B) (w v : W) {a : A}
      → m w ≡ some (ok a, v)
      → (m >>= f) w ≡ f a v
  unfolding ◌>>=◌
  >>=-ok m f w v e = ap (continue f) e

module _ {W A : Type 0} where
  fatal_on-eq-ok : (q : Result A × W) (v : W) {a : A} → fatal_on q ≡ some (ok a, v) → q ≡ (ok a, v)
  fatal_on-eq-ok (err e, w) v h = cc
  fatal_on-eq-ok (ok b, w) v h = cc h

  pub lift-eq-ok : (q : Result A × W) (v : W) {a : A} → some q ≡ some (ok a, v) → q ≡ (ok a, v)
  lift-eq-ok q v h = cc h

  pub fatal-eq-ok :
      (m : Action W A) (w v : W) {a : A} → fatal m w ≡ some (ok a, v) → m w ≡ (ok a, v)
  unfolding fatal
  fatal-eq-ok m w v h = fatal_on-eq-ok (m w) v h

  pub need-eq-ok :
      (o : Option A) (w v : W) {a : A} → need o w ≡ some (ok a, v) → (o ≡ some a) × (v ≡ w)
  unfolding need
  need-eq-ok none w v h = cc
  need-eq-ok (some b) w v h = ground arith

  -- What a chain has at hand, it keeps.
  pub need-ok : (o : Option A) (w : W) {a : A} → o ≡ some a → need o w ≡ some (ok a, w)
  unfolding need
  need-ok none w h = cc
  need-ok (some b) w h = ground arith

  pub fatal-ok : (m : Action W A) (w v : W) {a : A} → m w ≡ (ok a, v) → fatal m w ≡ some (ok a, v)
  unfolding fatal
  fatal-ok m w v e = ap fatal_on e

  ended_on-eq-ok :
      (o : Option (Result A × W)) (v : W) {a : A} → ended_on o ≡ some (ok a, v) → o ≡ some (ok a, v)
  ended_on-eq-ok none v h = cc
  ended_on-eq-ok (some (err e, w)) v h = cc
  ended_on-eq-ok (some (ok b, w)) v h = h

  pub or_end-eq-ok :
      (m : Process W A) (w v : W) {a : A} → or_end m w ≡ some (ok a, v) → m w ≡ some (ok a, v)
  unfolding or_end
  or_end-eq-ok m w v h = ended_on-eq-ok (m w) v h

  pub or_end-ok :
      (m : Process W A) (w v : W) {a : A} → m w ≡ some (ok a, v) → or_end m w ≡ some (ok a, v)
  unfolding or_end
  or_end-ok m w v e = ap ended_on e
