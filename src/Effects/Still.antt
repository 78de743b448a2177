-- ===== src/Effects/Still.antt =====
-- Process steps that leave the world as it is, where they end well.
use ssnproj.Base.{
  ◌≡◌, sym, ap, ◌∙◌, Bool, true, false, if◌then◌else◌, Option, some, Result, Context, ok,
}
use ssnproj.Effects.{Process, pure, gets, wrapping, lift}
use ssnproj.Effects.Laws.{wrapping-gets-eq-ok}
use ssnproj.Effects.Processes.{◌>>=◌, fatal, need, >>=-eq-ok, fatal-eq-ok, need-eq-ok, lift-eq-ok}

module _ {W : Type 0} where
  abbrev pub Still : {A : Type 0} → Process W A → Type 0
  Still {A} m = (w w' : W) (a : A) → m w ≡ some (ok a, w') → w' ≡ w

  pub >>=-Still :
      {A B : Type 0} (m : Process W A) (f : A → Process W B)
      → Still m
      → ((a : A) → Still (f a))
      → Still (m >>= f)
  >>=-Still m f hm hf w w' b e =
      let (a, v, first, then_) = >>=-eq-ok m f w w' {b = b} e in hf a v w' b then_ ∙ hm w v a first

  pub pure-Still : {A : Type 0} (a : A) → Still (lift (pure a))
  pure-Still {A} a w w' b e =
      sym (ap (λ (q : Result A × W). q.1) (lift-eq-ok (ok a, w) w' {a = b} e))

  pub fatal-gets-Still : {A : Type 0} (f : W → Result A) → Still (fatal (gets f))
  fatal-gets-Still {A} f w w' a e =
      sym (ap (λ (q : Result A × W). q.1) (fatal-eq-ok (gets f) w w' {a = a} e))

  pub wrapping-gets-Still :
      {A : Type 0} (c : Context) (f : W → Result A) → Still (lift (wrapping c (gets f)))
  wrapping-gets-Still c f w w' a e =
      (wrapping-gets-eq-ok c f w w' {a = a} (lift-eq-ok (wrapping c (gets f) w) w' {a = a} e)).1

  pub need-Still : {A : Type 0} (o : Option A) → Still (need o)
  need-Still o w w' a e = (need-eq-ok o w w' {a = a} e).1

  pub if-Still :
      {A : Type 0} (b : Bool) (m n : Process W A) → Still m → Still n → Still (if b then m else n)
  if-Still true m n hm hn = hm
  if-Still false m n hm hn = hn
