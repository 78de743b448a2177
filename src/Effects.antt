-- ===== src/Effects.antt =====
-- Steps of a program that change a world and may fail, and those that may also end the process.
pub mod Laws
pub mod Keeps
pub mod Processes
pub mod Still
use ssnproj.Base.{◌≡◌, refl, Bool, Option, none, some, Result, Error, Context, ok, err, wrap}

-- A step that changes the world and may fail; what it has changed stays changed.
abbrev pub Action : Type 0 → Type 0 → Type 0
Action W A = W → Result A × W

module _ {W A : Type 0} where
  abbrev pub pure : A → Action W A
  pure a w = (ok a, w)

  abbrev pub raise : Error → Action W A
  raise e w = (err e, w)

  -- A call that only looks at the world.
  abbrev pub gets : (W → Result A) → Action W A
  gets f w = (f w, w)

  -- `fmt.Errorf("...: %w", err)`
  unfoldable pub wrapping : Context → Action W A → Action W A
  wrapping c m w = let (r, w') = m w in elim r [ ok a ↦ (ok a, w') | err e ↦ (err (wrap c e), w') ]

module _ {W A B : Type 0} where
  -- `a, err := m; if err != nil { return failed(err) }; return k(a)`
  unfoldable pub check : Action W A → (Error → Action W B) → (A → Action W B) → Action W B
  check m failed k w = let (r, w') = m w in elim r [ ok a ↦ k a w' | err e ↦ failed e w' ]

-- A call whose result is dropped.
unfoldable pub ignoring : {W A : Type 0} → Action W A → Action W (Unit {0})
ignoring m w = (ok tt, (m w).1)

infixl 5 ◌>>=◌ ◌>>◌
abbrev pub ◌>>=◌ : {W A B : Type 0} → Action W A → (A → Action W B) → Action W B
◌>>=◌ m f = check m raise f

abbrev pub ◌>>◌ : {W A B : Type 0} → Action W A → Action W B → Action W B
m >> k = m >>= λ _. k

-- A step of a process that may end there and then, by a run-time panic or by `log.Fatal`: `none`.
abbrev pub Process : Type 0 → Type 0 → Type 0
Process W A = W → Option (Result A × W)

module _ {W A : Type 0} where
  abbrev pub crash : Process W A
  crash w = none

  abbrev pub lift : Action W A → Process W A
  lift m w = some (m w)

-- A value that a panic would prevent.
unfoldable pub or_crash : {W A B : Type 0} → Option A → (A → Process W B) → Process W B
or_crash none k = crash
or_crash (some a) k = k a

pub or_crash-some : {W A B : Type 0} (a : A) (k : A → Process W B) → or_crash (some a) k ≡ k a
unfolding or_crash
or_crash-some a k = refl

pub or_crash-none : {W A B : Type 0} (k : A → Process W B) (w : W) → or_crash none k w ≡ none
unfolding or_crash
or_crash-none k w = refl

-- `check` where what follows a success is a process.
unfoldable pub check_process :
    {W A B : Type 0} → Action W A → (Error → Action W B) → (A → Process W B) → Process W B
check_process m failed f w =
    let (r, w') = m w in elim r [ ok a ↦ f a w' | err e ↦ some (failed e w') ]

abbrev pub then_process : {W A B : Type 0} → Action W A → (A → Process W B) → Process W B
then_process m f = check_process m raise f
