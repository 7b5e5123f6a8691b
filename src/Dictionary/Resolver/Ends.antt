-- ===== src/Dictionary/Resolver/Ends.antt =====
-- Resolving that ends: with a value or with an error of the source, and not for want of fuel.
use refix.Base.{◌≡◌, refl}
use refix.Base.Result.{Result, ok, err, ◌>>=◌}
use refix.Dictionary.Checks.{Error}
use refix.Dictionary.Resolver.{Stop, error, raise}

pub data Ends {A : Type 0} (P : A → Type 0) : Result Stop A → Type 0 where
  ends : {a : A} → P a → Ends P (ok a)
  fails : (e : Error) → Ends P (err (error e))

pub Ends-bind :
    {A B : Type 0} {P : A → Type 0} {Q : B → Type 0} (m : Result Stop A) (f : A → Result Stop B)
    → Ends P m
    → ((a : A) → P a → Ends Q (f a))
    → Ends Q (m >>= f)
Ends-bind (ok a) f (ends h) k = k a h
Ends-bind (err _) f (fails e) k = fails e

pub Ends-raise :
    {A : Type 0} {P : A → Type 0} (r : Result Error A)
    → ((a : A) → r ≡ ok a → P a)
    → Ends P (raise r)
Ends-raise (ok a) k = ends (k a refl)
Ends-raise (err e) k = fails e

pub Ends-ok : {A : Type 0} {P : A → Type 0} {a : A} → Ends P (ok a) → P a
Ends-ok (ends h) = h
