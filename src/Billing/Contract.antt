-- ===== src/Billing/Contract.antt =====
-- Contracts of service methods: what a method keeps true of the tables, and what holds of the
-- value that it returns.
use bondzi_backend.Prelude.{
  ◌≡◌, refl, Bool, true, false, if◌then◌else◌, Option, none, some, HttpError, Result, ok, err,
  Result-cases, inl, inr,
}
use bondzi_backend.Billing.{Store}
use bondzi_backend.Billing.Monad.{Action, pure, throw, gets, or_throw, ◌>>=◌, throw_if, modify}

-- the value of a call that returned
abbrev pub On : {A : Type 0} → (A → Type 0) → Result A → Type 0
On Q (ok a) = Q a
On Q (err e) = Unit

pub trivial : {A : Type 0} (r : Result A) → On (λ _. Unit) r
trivial (ok a) = tt
trivial (err e) = tt

-- From tables with `I` the method leads to tables with `I`, also when it throws; a value that it
-- returns has `Q`.
pub record Triple {A : Type 0} (I : Store → Type 0) (m : Action A) (Q : A → Type 0) : Type 0 where
  pub run : (s : Store) → I s → I (m s).1 × On Q (m s).0

abbrev pub Keeps : {A : Type 0} → (Store → Type 0) → Action A → Type 0
Keeps I m = Triple I m (λ _. Unit)

module _ (I : Store → Type 0) where
  pub Triple-pure : {A : Type 0} (Q : A → Type 0) (a : A) → Q a → Triple I (pure a) Q
  Triple-pure Q a q = record { run = λ s h. (h, q) }

  pub Triple-throw : {A : Type 0} (Q : A → Type 0) (e : HttpError) → Triple I (throw e) Q
  Triple-throw Q e = record { run = λ s h. (h, tt) }

  pub Triple-gets :
      {A : Type 0} (Q : A → Type 0) (f : Store → A)
      → ((s : Store) → I s → Q (f s))
      → Triple I (gets f) Q
  Triple-gets Q f q = record { run = λ s h. (h, q s h) }

  pub Triple-or_throw :
      {A : Type 0} (Q : A → Type 0) (o : Option A) (e : HttpError)
      → ((a : A) → o ≡ some a → Q a)
      → Triple I (or_throw o e) Q
  Triple-or_throw Q none e q = Triple-throw Q e
  Triple-or_throw Q (some a) e q = Triple-pure Q a (q a refl)

  pub Keeps-throw_if : (c : Bool) (e : HttpError) → Keeps I (throw_if c e)
  Keeps-throw_if true e = record { run = λ s h. (h, tt) }
  Keeps-throw_if false e = record { run = λ s h. (h, tt) }

  pub Keeps-modify : (f : Store → Store) → ((s : Store) → I s → I (f s)) → Keeps I (modify f)
  Keeps-modify f k = record { run = λ s h. (k s h, tt) }

  -- the rest of a method, from where its first call ended
  abbrev continue : {A B : Type 0} → (A → Action B) → Result A → Store → Result B × Store
  continue f (ok a) t = f a t
  continue f (err e) t = (err e, t)

  continue-Triple :
      {A B : Type 0} (Q : A → Type 0) (R : B → Type 0) (f : A → Action B) (r : Result A) (t : Store)
      → I t
      → On Q r
      → ((a : A) → Q a → Triple I (f a) R)
      → I (continue f r t).1 × On R (continue f r t).0
  continue-Triple Q R f (ok a) t h q k = (k a q).run t h
  continue-Triple Q R f (err e) t h q k = (h, tt)

  bind-continue :
      {A B : Type 0} (f : A → Action B) (m : Action A) (s : Store)
      → (m >>= f) s ≡ continue f (m s).0 (m s).1
  unfolding ◌>>=◌
  bind-continue f m s = elim (Result-cases (m s).0) [
    | inl (a, e) ↦ rw (e, ◌>>=◌) refl
    | inr (x, e) ↦ rw (e, ◌>>=◌) refl
  ]

  pub Triple-bind :
      {A B : Type 0} (Q : A → Type 0) (R : B → Type 0) (m : Action A) (f : A → Action B)
      → Triple I m Q
      → ((a : A) → Q a → Triple I (f a) R)
      → Triple I (m >>= f) R
  Triple-bind Q R m f hm hf = record {
    run = λ s h.
        let (after, value) = hm.run s h in
        rw (bind-continue f m s) (continue-Triple Q R f (m s).0 (m s).1 after value hf);
  }

  pub Keeps-bind :
      {A B : Type 0} (m : Action A) (f : A → Action B)
      → Keeps I m
      → ((a : A) → Keeps I (f a))
      → Keeps I (m >>= f)
  Keeps-bind m f hm hf = Triple-bind (λ _. Unit) (λ _. Unit) m f hm (λ a _. hf a)

  pub Keeps-if :
      {A : Type 0} (b : Bool) (m n : Action A)
      → Keeps I m
      → Keeps I n
      → Keeps I (if b then m else n)
  Keeps-if true m n hm hn = hm
  Keeps-if false m n hm hn = hn
