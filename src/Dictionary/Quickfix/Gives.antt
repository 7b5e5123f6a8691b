-- ===== src/Dictionary/Quickfix/Gives.antt =====
-- Reading that gives a value or an error of the source, and does not panic.
use refix.Base.{◌≡◌, refl, ◌≢◌}
use refix.Base.Result.{Result, ok, err, ◌>>=◌}
use refix.Dictionary.Quickfix.Xml.{ReadError}
use refix.Dictionary.Quickfix.Lengths.{ReadStop, read_error, panic}
use refix.Dictionary.Quickfix.Parse.{lift}

pub data Gives {A : Type 0} (P : A → Type 0) : Result ReadStop A → Type 0 where
  gives : {a : A} → P a → Gives P (ok a)
  refuses : (e : ReadError) → Gives P (err (read_error e))

pub Gives-bind :
    {A B : Type 0} {P : A → Type 0} {Q : B → Type 0} (m : Result ReadStop A)
    (f : A → Result ReadStop B)
    → Gives P m
    → ((a : A) → P a → Gives Q (f a))
    → Gives Q (m >>= f)
Gives-bind (ok a) f (gives h) k = k a h
Gives-bind (err _) f (refuses e) k = refuses e

-- What a value given satisfies, and what follows from it.
pub Gives-map :
    {A : Type 0} {P Q : A → Type 0} (m : Result ReadStop A)
    → Gives P m
    → ((a : A) → P a → Q a)
    → Gives Q m
Gives-map (ok a) (gives h) k = gives (k a h)
Gives-map (err _) (refuses e) k = refuses e

pub Gives-lift :
    {A : Type 0} {P : A → Type 0} (r : Result ReadError A)
    → ((a : A) → r ≡ ok a → P a)
    → Gives P (lift r)
Gives-lift (ok a) k = gives (k a refl)
Gives-lift (err e) k = refuses e

pub Gives-ok : {A : Type 0} {P : A → Type 0} {a : A} → Gives P (ok a) → P a
Gives-ok (gives h) = h

pub Gives-ne-panic :
    {A : Type 0} {P : A → Type 0} (r : Result ReadStop A) → Gives P r → r ≢ err panic
Gives-ne-panic (ok a) g e = cc
Gives-ne-panic (err _) (refuses x) e = cc
