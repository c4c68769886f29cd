-- ===== src/Base/Run.antt =====
-- Outcomes of C code: a value, or what the C standard or the system leaves without one.
use mathlib.Core.Bool.{Bool, true, false}
use mathlib.Core.Path.{◌≡◌, refl, ap}

pub data Fault : Type 0 where
  null_deref out_of_bounds use_after_free deadlock out_of_fuel : Fault

pub data Run {ℓ} (A : Type ℓ) : Type ℓ where
  ok : A → Run A
  fault : Fault → Run A

infixl 5 ◌>>=◌ ◌>>◌
abbrev pub ◌>>=◌ {ℓ κ} : {A : Type ℓ} {B : Type κ} → Run A → (A → Run B) → Run B
ok a >>= f = f a
fault e >>= f = fault e

abbrev pub ◌>>◌ {ℓ} : {B : Type ℓ} → Run (Unit {0}) → Run B → Run B
m >> k = m >>= λ _. k

-- The code goes on only where `b` holds; past that point C gives no meaning.
abbrev pub require : Bool → Fault → Run (Unit {0})
require true e = ok tt
require false e = fault e

-- A run that ends, with a result that satisfies `P`.
abbrev pub Returns {ℓ} : {A : Type ℓ} → (A → Type 0) → Run A → Type 0
Returns P (ok a) = P a
Returns P (fault e) = ⊥

pub Returns-bind {ℓ κ} :
    {A : Type ℓ} {B : Type κ} (P : A → Type 0) (Q : B → Type 0) (m : Run A) (f : A → Run B)
    → Returns P m
    → ((a : A) → P a → Returns Q (f a))
    → Returns Q (m >>= f)
Returns-bind P Q (ok a) f p next = next a p
Returns-bind P Q (fault e) f p next = absurd p

pub Returns-mono {ℓ} :
    {A : Type ℓ} (P Q : A → Type 0) (m : Run A) → Returns P m → ((a : A) → P a → Q a) → Returns Q m
Returns-mono P Q (ok a) p weaken = weaken a p
Returns-mono P Q (fault e) p weaken = p

-- What holds of the result if there is one, for what never happens.
abbrev pub Ensures {ℓ} : {A : Type ℓ} → (A → Type 0) → Run A → Type 0
Ensures P (ok a) = P a
Ensures P (fault e) = Unit

pub Ensures-bind {ℓ κ} :
    {A : Type ℓ} {B : Type κ} (P : A → Type 0) (Q : B → Type 0) (m : Run A) (f : A → Run B)
    → Ensures P m
    → ((a : A) → P a → Ensures Q (f a))
    → Ensures Q (m >>= f)
Ensures-bind P Q (ok a) f p next = next a p
Ensures-bind P Q (fault e) f p next = tt

pub Ensures-any {ℓ κ} :
    {A : Type ℓ} {B : Type κ} (Q : B → Type 0) (m : Run A) (f : A → Run B)
    → ((a : A) → Ensures Q (f a))
    → Ensures Q (m >>= f)
Ensures-any Q (ok a) f next = next a
Ensures-any Q (fault e) f next = tt

pub Ensures-mono {ℓ} :
    {A : Type ℓ} (P Q : A → Type 0) (m : Run A) → Ensures P m → ((a : A) → P a → Q a) → Ensures Q m
Ensures-mono P Q (ok a) p weaken = weaken a p
Ensures-mono P Q (fault e) p weaken = p

pub Returns-Ensures {ℓ} :
    {A : Type ℓ} (P Q : A → Type 0) (m : Run A)
    → Returns P m
    → Ensures Q m
    → Returns (λ a. P a × Q a) m
Returns-Ensures P Q (ok a) p q = (p, q)
Returns-Ensures P Q (fault e) p q = p

pub Returns-both {ℓ} :
    {A : Type ℓ} (P Q : A → Type 0) (m : Run A)
    → Returns P m
    → Returns Q m
    → Returns (λ a. P a × Q a) m
Returns-both P Q (ok a) p q = (p, q)
Returns-both P Q (fault e) p q = p

-- A run that reads out of bounds where `Bad` holds, and ends as `P` says everywhere else.
pub data EndsUnless {ℓ} {A : Type ℓ} (Bad : Type 0) (P : A → Type 0) (m : Run A) : Type ℓ where
  ends : ¬ Bad → Returns P m → EndsUnless Bad P m
  overreads : Bad → m ≡ fault out_of_bounds → EndsUnless Bad P m

pub EndsUnless-bind {ℓ κ} :
    {A : Type ℓ} {B : Type κ} {Bad : Type 0} (P : A → Type 0) (Q : B → Type 0) (m : Run A)
    (f : A → Run B)
    → EndsUnless Bad P m
    → ((a : A) → P a → Returns Q (f a))
    → EndsUnless Bad Q (m >>= f)
EndsUnless-bind P Q m f (ends good p) next = ends good (Returns-bind P Q m f p next)
EndsUnless-bind P Q m f (overreads bad e) next = overreads bad (ap (λ r. r >>= f) e)

pub EndsUnless-mono {ℓ} :
    {A : Type ℓ} {Bad : Type 0} (P Q : A → Type 0) (m : Run A)
    → EndsUnless Bad P m
    → ((a : A) → P a → Q a)
    → EndsUnless Bad Q m
EndsUnless-mono P Q m (ends good p) weaken = ends good (Returns-mono P Q m p weaken)
EndsUnless-mono P Q m (overreads bad e) weaken = overreads bad e

-- The same condition in other words.
pub EndsUnless-same {ℓ} :
    {A : Type ℓ} {Bad Worse : Type 0} (P : A → Type 0) (m : Run A)
    → (Bad → Worse)
    → (Worse → Bad)
    → EndsUnless Bad P m
    → EndsUnless Worse P m
EndsUnless-same P m to from (ends good p) = ends (λ w. good (from w)) p
EndsUnless-same P m to from (overreads bad e) = overreads (to bad) e

pub EndsUnless-Ensures {ℓ} :
    {A : Type ℓ} {Bad : Type 0} (P Q : A → Type 0) (m : Run A)
    → EndsUnless Bad P m
    → Ensures Q m
    → EndsUnless Bad (λ a. P a × Q a) m
EndsUnless-Ensures P Q m (ends good p) q = ends good (Returns-Ensures P Q m p q)
EndsUnless-Ensures P Q m (overreads bad e) q = overreads bad e

pub EndsUnless-Returns {ℓ} :
    {A : Type ℓ} {Bad : Type 0} (P : A → Type 0) (m : Run A)
    → EndsUnless Bad P m
    → ¬ Bad
    → Returns P m
EndsUnless-Returns P m (ends good p) fine = p
EndsUnless-Returns P m (overreads bad e) fine = absurd (fine bad)

pub Returns-value {ℓ} :
    {A : Type ℓ} (P : A → Type 0) (m : Run A) → Returns P m → (a : A) × (m ≡ ok a) × P a
Returns-value P (ok a) p = (a, refl, p)
Returns-value P (fault e) p = absurd p
