-- ===== src/Server/Loop/Fragments.antt =====
-- How the network cuts the stream into reads makes no difference.
use ssnproj.Base.{
  ℕ, zero, suc, ◌<◌, ◌≡◌, ◌≢◌, inl, inr, refl, sym, ap, ◌∙◌, List, [], ◌∷◌, ◌++◌, length,
  length-append, arith,
}
use ssnproj.Base.{Bool, true, false, if◌then◌else◌, append_assoc, append-nil}
use ssnproj.Base.{
  Result, Error, Option, none, some, ok, err, insufficient_data, incomplete_payload, Bool-cases,
}
use ssnproj.Bytes.BigEndian.{Bytes}
use ssnproj.Protocol.Types.{Message}
use ssnproj.Protocol.Buffer.{MessageBuffer, add_data, try_deserialize}
use ssnproj.Protocol.Buffer.Try.{
  try_deserialize_takes, try_deserialize_keeps, try_deserialize-add_data_ok,
  try_deserialize-add_data_err,
}
use ssnproj.Effects.{Process}
use ssnproj.Server.Loop.{
  Status, waiting, closed, ended, stuck, is_not_ready, after, on_taken, on_status, rounds, drain,
  serve,
}

abbrev pub join_reads : List Bytes → Bytes
join_reads [] = []
join_reads (read ∷ reads) = read ++ join_reads reads

-- What `try_deserialize` does with a buffer, by its three kinds of answer.
pub data Taken (mb : MessageBuffer) : Type 0 where
  message :
      (m : Message) (mb' : MessageBuffer)
      → try_deserialize mb ≡ (ok m, mb')
      → length mb'.buffer < length mb.buffer
      → Taken mb
  partial : (e : Error) → try_deserialize mb ≡ (err e, mb) → is_not_ready e ≡ true → Taken mb
  broken : (e : Error) → try_deserialize mb ≡ (err e, mb) → is_not_ready e ≡ false → Taken mb

pub taken : (mb : MessageBuffer) → Taken mb
taken mb = go (try_deserialize mb).0 (try_deserialize mb).1 refl
  where
    go : (r : Result Message) (mb' : MessageBuffer) → try_deserialize mb ≡ (r, mb') → Taken mb
    go (ok m) mb' e = message m mb' e (omega (arith, try_deserialize_takes mb mb' m e))
    go (err x) mb' e =
        let same = e ∙ ap (λ (b : MessageBuffer). (err x, b)) (try_deserialize_keeps mb mb' x e) in
        elim (Bool-cases (is_not_ready x)) [
          | inl wait ↦ partial x same wait
          | inr bad ↦ broken x same bad
        ]

not_insufficient : (x : Error) → is_not_ready x ≡ false → x ≢ insufficient_data
not_insufficient x bad e = cc (rw e at bad)

not_incomplete : (x : Error) → is_not_ready x ≡ false → x ≢ incomplete_payload
not_incomplete x bad e = cc (rw e at bad)

module _ {S : Type 0} (handle_message : Message → Process S (Unit {0})) where
  pub drain_message :
      (fuel : ℕ) (mb mb' : MessageBuffer) (m : Message) (s : S)
      → try_deserialize mb ≡ (ok m, mb')
      → drain handle_message (suc fuel) mb s
        ≡ after (drain handle_message fuel) mb' (handle_message m s)
  unfolding drain
  drain_message fuel mb mb' m s e = ap (on_taken handle_message (drain handle_message fuel) s) e

  drain_err :
      (fuel : ℕ) (mb mb' : MessageBuffer) (x : Error) (s : S)
      → try_deserialize mb ≡ (err x, mb')
      → drain handle_message (suc fuel) mb s
        ≡ (if is_not_ready x then waiting mb' s else closed x s)
  unfolding drain
  drain_err fuel mb mb' x s e = ap (on_taken handle_message (drain handle_message fuel) s) e

  pub drain_partial :
      (fuel : ℕ) (mb : MessageBuffer) (x : Error) (s : S)
      → try_deserialize mb ≡ (err x, mb)
      → is_not_ready x ≡ true
      → drain handle_message (suc fuel) mb s ≡ waiting mb s
  drain_partial fuel mb x s e wait =
      drain_err fuel mb mb x s e ∙ ap (λ (b : Bool). if b then waiting mb s else closed x s) wait

  pub drain_broken :
      (fuel : ℕ) (mb mb' : MessageBuffer) (x : Error) (s : S)
      → try_deserialize mb ≡ (err x, mb')
      → is_not_ready x ≡ false
      → drain handle_message (suc fuel) mb s ≡ closed x s
  drain_broken fuel mb mb' x s e bad =
      drain_err fuel mb mb' x s e ∙ ap (λ (b : Bool). if b then waiting mb' s else closed x s) bad

  after-eq :
      (k l : MessageBuffer → S → Status S) (mb : MessageBuffer) (o : Option (Result (Unit {0}) × S))
      → ((s : S) → k mb s ≡ l mb s)
      → after k mb o ≡ after l mb o
  after-eq k l mb none h = refl
  after-eq k l mb (some (ok tt, s)) h = h s
  after-eq k l mb (some (err e, s)) h = refl

  -- Any fuel above the length of the buffer does.
  drain_fuel :
      (f g : ℕ) (mb : MessageBuffer) (s : S)
      → length mb.buffer < f
      → length mb.buffer < g
      → drain handle_message f mb s ≡ drain handle_message g mb s
  drain_fuel zero g mb s hf hg = absurd (omega arith)
  drain_fuel (suc f) zero mb s hf hg = absurd (omega arith)
  drain_fuel (suc f) (suc g) mb s hf hg = elim (taken mb) [
    | message m mb' e shorter ↦
        drain_message f mb mb' m s e
        ∙ after-eq (drain handle_message f) (drain handle_message g) mb' (handle_message m s)
            (λ s'. drain_fuel f g mb' s' (omega arith) (omega arith))
        ∙ sym (drain_message g mb mb' m s e)
    | partial x e _ ↦ drain_err f mb mb x s e ∙ sym (drain_err g mb mb x s e)
    | broken x e _ ↦ drain_err f mb mb x s e ∙ sym (drain_err g mb mb x s e)
  ]

  -- More data arrives where the inner loop waits.
  abbrev resume : Bytes → Status S → Status S
  resume more =
      on_status (λ mb s. drain handle_message (rounds (add_data more mb)) (add_data more mb) s)

  after-resume :
      (f : ℕ) (more : Bytes) (mb : MessageBuffer) (o : Option (Result (Unit {0}) × S))
      → ((s : S)
          → drain handle_message f (add_data more mb) s ≡ resume more (drain handle_message f mb s))
      → after (drain handle_message f) (add_data more mb) o
        ≡ resume more (after (drain handle_message f) mb o)
  after-resume f more mb none h = refl
  after-resume f more mb (some (ok tt, s)) h = h s
  after-resume f more mb (some (err e, s)) h = refl

  -- The inner loop over data that came at once, or in two parts.
  drain-add_data :
      (f : ℕ) (more : Bytes) (mb : MessageBuffer) (s : S)
      → length (mb.buffer ++ more) < f
      → drain handle_message f (add_data more mb) s ≡ resume more (drain handle_message f mb s)
  drain-add_data zero more mb s h = absurd (omega arith)
  drain-add_data (suc f) more mb s h = elim (taken mb) [
    | message m mb' e shorter ↦
        drain_message f (add_data more mb) (add_data more mb') m s
          (try_deserialize-add_data_ok mb mb' m more e)
        ∙ after-resume f more mb' (handle_message m s) (λ s'.
          drain-add_data f more mb' s'
            (omega (arith, length-append mb.buffer more, length-append mb'.buffer more)))
        ∙ ap (resume more) (sym (drain_message f mb mb' m s e))
    | partial x e wait ↦
        drain_fuel (suc f) (rounds (add_data more mb)) (add_data more mb) s h (omega arith)
        ∙ ap (resume more) (sym (drain_partial f mb x s e wait))
    | broken x e bad ↦
        drain_broken f (add_data more mb) (add_data more mb) x s
          (try_deserialize-add_data_err mb mb x more (not_insufficient x bad) (not_incomplete x bad)
            e)
          bad
        ∙ ap (resume more) (sym (drain_broken f mb mb x s e bad))
  ]

  on_status-on_status :
      (k l : MessageBuffer → S → Status S) (t : Status S)
      → on_status k (on_status l t) ≡ on_status (λ mb s. on_status k (l mb s)) t
  on_status-on_status k l (waiting mb s) = refl
  on_status-on_status k l (closed e s) = refl
  on_status-on_status k l ended = refl
  on_status-on_status k l stuck = refl

  -- Two reads do what one read of both would: where the stream is cut makes no difference.
  pub serve-append :
      (xs ys : Bytes) (reads : List Bytes) (mb : MessageBuffer) (s : S)
      → serve handle_message (xs ∷ ys ∷ reads) mb s ≡ serve handle_message ((xs ++ ys) ∷ reads) mb s
  unfolding serve
  serve-append xs ys reads mb s =
      let both : add_data (xs ++ ys) mb ≡ add_data ys (add_data xs mb) =
        ap (λ (b : Bytes). record { buffer = b }) (sym (append_assoc mb.buffer xs ys)) in
      let mb₁ : MessageBuffer = add_data xs mb in
      let at_once : drain handle_message (rounds (add_data ys mb₁)) (add_data ys mb₁) s
          ≡ resume ys (drain handle_message (rounds mb₁) mb₁ s) =
        drain-add_data _ ys mb₁ s (omega arith)
        ∙ ap (resume ys) (
            drain_fuel (rounds (add_data ys mb₁)) (rounds mb₁) mb₁ s
              (omega (arith, length-append mb₁.buffer ys)) (omega arith)) in
      sym (
        ap
          (λ (b : MessageBuffer).
            on_status (serve handle_message reads) (drain handle_message (rounds b) b s))
          both
        ∙ ap (on_status (serve handle_message reads)) at_once
        ∙ on_status-on_status (serve handle_message reads) _
            (drain handle_message (rounds mb₁) mb₁ s))

  -- Any way to cut a stream into reads, empty ones included, ends as one read of all of it.
  pub serve_joined :
      (read : Bytes) (reads : List Bytes) (mb : MessageBuffer) (s : S)
      → serve handle_message (read ∷ reads) mb s
        ≡ serve handle_message (join_reads (read ∷ reads) ∷ []) mb s
  serve_joined read [] mb s =
      ap (λ (b : Bytes). serve handle_message (b ∷ []) mb s) (sym (append-nil read))
  serve_joined read (next ∷ reads) mb s =
      serve-append read next reads mb s
      ∙ serve_joined (read ++ next) reads mb s
      ∙ ap (λ (b : Bytes). serve handle_message (b ∷ []) mb s)
          (append_assoc read next (join_reads reads))
