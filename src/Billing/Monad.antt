-- ===== src/Billing/Monad.antt =====
-- A service method: it reads and writes the tables, may throw, and what it wrote before the throw
-- stays written, since the repositories commit each statement on its own.
use bondzi_backend.Prelude.{Bool, Option, none, some, HttpError, Result, ok, err, if◌then◌else◌}
use bondzi_backend.Billing.{Store}

abbrev pub Action : Type 0 → Type 0
Action A = Store → Result A × Store

module _ {A : Type 0} where
  abbrev pub pure : A → Action A
  pure a s = (ok a, s)

  abbrev pub throw : HttpError → Action A
  throw e s = (err e, s)

  abbrev pub gets : (Store → A) → Action A
  gets f s = (ok (f s), s)

  -- `if (!o) throw e`
  abbrev pub or_throw : Option A → HttpError → Action A
  or_throw none e = throw e
  or_throw (some a) e = pure a

  abbrev pub lift : Result A → Action A
  lift r s = (r, s)

infixl 5 ◌>>=◌ ◌>>◌
unfoldable pub ◌>>=◌ : {A B : Type 0} → Action A → (A → Action B) → Action B
◌>>=◌ m f s = let (r, s') = m s in elim r [ ok a ↦ f a s' | err e ↦ (err e, s') ]

abbrev pub ◌>>◌ : {A B : Type 0} → Action A → Action B → Action B
m >> k = m >>= λ _. k

abbrev pub throw_if : Bool → HttpError → Action (Unit {0})
throw_if c e s = (if c then err e else ok tt, s)

abbrev pub modify : (Store → Store) → Action (Unit {0})
modify f s = (ok tt, f s)
