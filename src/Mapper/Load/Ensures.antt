-- ===== src/Mapper/Load/Ensures.antt =====
-- What the results of reading a configuration satisfy, step by step (pkg/mapper/mapper.go).
use statsd_exporter.Base.{◌≡◌, refl, subst, Bool, true, false}
use statsd_exporter.Mapper.Load.{Result, ok, failed, panicked, ConfigError, ◌>>=◌, ◌>>◌, require}

-- A result that is not an error satisfies the predicate.
abbrev pub Ensures : {A : Type 0} → (A → Type 0) → Result A → Type 0
Ensures P (ok a) = P a
Ensures P (failed e) = Unit
Ensures P panicked = Unit

pub Ensures-bind :
    {A B : Type 0} (Q : A → Type 0) (P : B → Type 0) (m : Result A) (f : A → Result B)
    → Ensures Q m
    → ((a : A) → Q a → Ensures P (f a))
    → Ensures P (m >>= f)
Ensures-bind Q P (ok a) f h k = k a h
Ensures-bind Q P (failed e) f h k = tt
Ensures-bind Q P panicked f h k = tt

pub Ensures-require :
    {B : Type 0} (P : B → Type 0) (b : Bool) (e : ConfigError) (m : Result B)
    → (b ≡ true → Ensures P m)
    → Ensures P (require b e >> m)
Ensures-require P true e m k = k refl
Ensures-require P false e m k = tt

-- Any result of the first step is as good.
pub Ensures-then :
    {A B : Type 0} (P : B → Type 0) (m : Result A) (f : A → Result B)
    → ((a : A) → Ensures P (f a))
    → Ensures P (m >>= f)
Ensures-then P (ok a) f k = k a
Ensures-then P (failed e) f k = tt
Ensures-then P panicked f k = tt

pub Ensures-ok : {A : Type 0} (P : A → Type 0) (r : Result A) (a : A) → Ensures P r → r ≡ ok a → P a
Ensures-ok P r a h e = subst (Ensures P) e h

pub Ensures-required :
    (P : Unit {0} → Type 0) (b : Bool) (e : ConfigError)
    → (b ≡ true → P tt)
    → Ensures P (require b e)
Ensures-required P true e k = k refl
Ensures-required P false e k = tt

pub Ensures-both :
    {A : Type 0} (P Q : A → Type 0) (r : Result A)
    → Ensures P r
    → Ensures Q r
    → Ensures (λ a. P a × Q a) r
Ensures-both P Q (ok a) h k = (h, k)
Ensures-both P Q (failed e) h k = tt
Ensures-both P Q panicked h k = tt
