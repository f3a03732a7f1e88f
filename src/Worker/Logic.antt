-- ===== src/Worker/Logic.antt =====
-- A logic for the runs of the worker: what a run establishes where it returns and where it raises.
use financial_control_engine.Base.{
  ℕ, ◌≡◌, refl, Bool, true, false, Result, ok, err, if◌then◌else◌, inl, inr, Bool-cases,
  Result-cases,
}
use financial_control_engine.Worker.Runs.{
  World, Raised, Run, next, pure, raise, bind_result, ◌>>=◌, handled, attempt, ask, transact,
}

-- What holds of an end: `Q` of a value and the world, `E` of the world after an exception.
abbrev pub Holds :
    {A : Type 0} → (A → World → Type 0) → (World → Type 0) → Result Raised A × World → Type 0
Holds Q E (ok a, w) = Q a w
Holds Q E (err e, w) = E w

pub record Meets {A : Type 0} (P : World → Type 0) (m : Run A) (Q : A → World → Type 0)
    (E : World → Type 0) : Type 0 where
  pub run : (w : World) → P w → Holds Q E (m w)

-- A property that a run keeps however it ends.
abbrev pub Keeps : {A : Type 0} → (World → Type 0) → Run A → Type 0
Keeps P m = Meets P m (λ _. P) P

Holds-weaken :
    {A : Type 0} {Q Q' : A → World → Type 0} {E E' : World → Type 0} (x : Result Raised A × World)
    → ((a : A) (w : World) → Q a w → Q' a w)
    → ((w : World) → E w → E' w)
    → Holds Q E x
    → Holds Q' E' x
Holds-weaken (ok a, w) q e h = q a w h
Holds-weaken (err _, w) q e h = e w h

Holds-world :
    {A : Type 0} (J : World → Type 0) (x : Result Raised A × World) → Holds (λ _. J) J x → J x.1
Holds-world J (ok a, w) h = h
Holds-world J (err e, w) h = h

-- What a run establishes of both ends, it establishes of the world.
pub meets_world :
    {A : Type 0} {P J : World → Type 0} {m : Run A}
    → Meets P m (λ _. J) J
    → (w : World) → P w
    → J (m w).1
meets_world {J = J} {m = m} h w p = Holds-world J (m w) (h.run w p)

pub meets_weaken :
    {A : Type 0} {P P' : World → Type 0} {m : Run A} {Q Q' : A → World → Type 0}
    {E E' : World → Type 0}
    → ((w : World) → P' w → P w)
    → ((a : A) (w : World) → Q a w → Q' a w)
    → ((w : World) → E w → E' w)
    → Meets P m Q E
    → Meets P' m Q' E'
meets_weaken {m = m} p q e h = record { run = λ w x. Holds-weaken (m w) q e (h.run w (p w x)) }

-- A fact that does not speak of the world.
pub meets_given :
    {A F : Type 0} {P : World → Type 0} {m : Run A} {Q : A → World → Type 0} {E : World → Type 0}
    → (F → Meets P m Q E)
    → Meets (λ w. P w × F) m Q E
meets_given h = record { run = λ w p. (h p.1).run w p.0 }

bind-Holds :
    {A B : Type 0} {R : B → World → Type 0} {Q : A → World → Type 0} {E : World → Type 0}
    (x : Result Raised B × World) (f : B → Run A)
    → Holds R E x
    → ((b : B) → Meets (R b) (f b) Q E)
    → Holds Q E (bind_result x f)
bind-Holds (ok b, w) f h k = (k b).run w h
bind-Holds (err e, w) f h k = h

handled-Holds :
    {A : Type 0} {Q : A → World → Type 0} {E E' : World → Type 0} (x : Result Raised A × World)
    (f : Raised → Run A)
    → Holds Q E' x
    → ((e : Raised) → Meets E' (f e) Q E)
    → Holds Q E (handled x f)
handled-Holds (ok a, w) f h k = h
handled-Holds (err e, w) f h k = (k e).run w h

module _ {A : Type 0} {P : World → Type 0} {Q : A → World → Type 0} {E : World → Type 0} where
  pub meets_pure : (a : A) → ((w : World) → P w → Q a w) → Meets P (pure a) Q E
  unfolding pure
  meets_pure a h = record { run = h }

  pub meets_raise : (e : Raised) → ((w : World) → P w → E w) → Meets P (raise e) Q E
  unfolding raise
  meets_raise e h = record { run = h }

  pub meets_ask :
      (f : ℕ → Result Raised A)
      → ((w : World) (a : A) → P w → f w.tick ≡ ok a → Q a (next w))
      → ((w : World) → P w → E (next w))
      → Meets P (ask f) Q E
  unfolding ask
  meets_ask f q e = record {
    run = λ w p. elim (Result-cases (f w.tick)) [
      | inl (a, h) ↦ rw h (q w a p h)
      | inr (r, h) ↦ rw h (e w p)
    ];
  }

  pub meets_transact :
      (outage : ℕ → Bool) (step : World → Result Raised (A × World))
      → ((w after : World) (a : A) → P w → step w ≡ ok (a, after) → Q a (next after))
      → ((w : World) → P w → E (next w))
      → Meets P (transact outage step) Q E
  unfolding transact
  meets_transact outage step q e = record {
    run = λ w p. elim (Bool-cases (outage w.tick)) [
      | inl o ↦ rw o (e w p)
      | inr o ↦ elim (Result-cases (step w)) [
        | inr (r, h) ↦ rw (o, h) (e w p)
        | inl (x, h) ↦ rw (o, h) (q w x.1 x.0 p h)
      ]
    ];
  }

  pub meets_if :
      (b : Bool) {m n : Run A}
      → (b ≡ true → Meets P m Q E)
      → (b ≡ false → Meets P n Q E)
      → Meets P (if b then m else n) Q E
  meets_if true h k = h refl
  meets_if false h k = k refl

  pub meets_bind :
      {B : Type 0} {R : B → World → Type 0} {m : Run B} {f : B → Run A}
      → Meets P m R E
      → ((b : B) → Meets (R b) (f b) Q E)
      → Meets P (m >>= f) Q E
  unfolding ◌>>=◌
  meets_bind {m = m} {f = f} h k = record { run = λ w p. bind-Holds (m w) f (h.run w p) k }

  pub meets_attempt :
      {E' : World → Type 0} {m : Run A} {f : Raised → Run A}
      → Meets P m Q E'
      → ((e : Raised) → Meets E' (f e) Q E)
      → Meets P (attempt m f) Q E
  unfolding attempt
  meets_attempt {m = m} {f = f} h k = record { run = λ w p. handled-Holds (m w) f (h.run w p) k }
