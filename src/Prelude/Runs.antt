-- ===== src/Prelude/Runs.antt =====
-- Runs of C code that may go wrong. A fault is what C leaves undefined: no value is invented for it.
use mathlib.Core.Path.{◌≡◌, refl, ap}
use mathlib.Core.Option.{Option, none, some}

pub data Fault : Type 0 where
  -- a read behind the bytes that the page has
  read_past_end : Fault
  -- an index outside an array
  bad_index : Fault
  -- a copy or a write that does not fit its buffer
  overflow : Fault
  -- a use of a pointer that was never set
  bad_pointer : Fault
  -- a read of the image readers behind the bytes of a picture
  picture_past_end : Fault
  -- a division by zero
  bad_division : Fault
  -- the rounds that a loop is given ran out: those of the parser, and those of the other loops
  out_of_rounds : Fault
  out_of_fuel : Fault

pub data Out {ℓ} (A : Type ℓ) : Type ℓ where
  ok : A → Out A
  fault : Fault → Out A

infixl 5 ◌>>=◌
abbrev pub ◌>>=◌ {ℓ κ} : {A : Type ℓ} {B : Type κ} → Out A → (A → Out B) → Out B
ok a >>= f = f a
fault e >>= f = fault e

-- A missing value is the fault `e`.
abbrev pub or_fault {ℓ} : {A : Type ℓ} → Fault → Option A → Out A
or_fault e none = fault e
or_fault e (some a) = ok a

-- No run into a fault of the kind `Bad`, and every result has the property.
pub data Avoids {ℓ} (Bad : Fault → Type 0) {A : Type ℓ} (P : A → Type 0) : Out A → Type ℓ where
  returns : {a : A} → P a → Avoids Bad P (ok a)
  faults : {f : Fault} → ¬ (Bad f) → Avoids Bad P (fault f)

module _ {ℓ} {Bad : Fault → Type 0} {A : Type ℓ} {P : A → Type 0} where
  pub Avoids-bind {κ} :
      {B : Type κ} {Q : B → Type 0} {m : Out A} {f : A → Out B}
      → Avoids Bad P m
      → ((a : A) → P a → Avoids Bad Q (f a))
      → Avoids Bad Q (m >>= f)
  Avoids-bind (returns p) next = next _ p
  Avoids-bind (faults h) next = faults h

  pub Avoids-mono :
      {Q : A → Type 0} {m : Out A} → Avoids Bad P m → ((a : A) → P a → Q a) → Avoids Bad Q m
  Avoids-mono (returns p) weaken = returns (weaken _ p)
  Avoids-mono (faults h) weaken = faults h

-- A run on more input: where the first run has a result, the second has the same.
pub data Extends {ℓ} {A : Type ℓ} : Out A → Out A → Type ℓ where
  same : {r : Out A} → Extends r r
  faulted : {f : Fault} {r : Out A} → Extends (fault f) r

pub Extends-bind {ℓ κ} :
    {A : Type ℓ} {B : Type κ} {m m' : Out A} {f f' : A → Out B}
    → Extends m m'
    → ((a : A) → m ≡ ok a → Extends (f a) (f' a))
    → Extends (m >>= f) (m' >>= f')
Extends-bind {m = ok a} same next = next a refl
Extends-bind {m = fault e} same next = same
Extends-bind faulted next = faulted

pub Extends-eq_ok {ℓ} : {A : Type ℓ} {r r' : Out A} {a : A} → Extends r r' → r ≡ ok a → r' ≡ ok a
Extends-eq_ok same h = h
Extends-eq_ok faulted h = cc

-- A run that returns has gone through its first part.
pub bind-ok {ℓ κ} :
    {A : Type ℓ} {B : Type κ} (m : Out A) (f : A → Out B) {b : B}
    → m >>= f ≡ ok b
    → (a : A) × (m ≡ ok a) × (f a ≡ ok b)
bind-ok (ok a) f h = (a, refl, h)
bind-ok (fault e) f h = cc

pub ok-injective {ℓ} : {A : Type ℓ} {a b : A} → ok a ≡ ok b → a ≡ b
ok-injective h = cc

-- A run whose first part returns goes on with what that returned.
pub eq_bind {ℓ κ} :
    {A : Type ℓ} {B : Type κ} {m : Out A} {a : A} (f : A → Out B) → m ≡ ok a → m >>= f ≡ f a
eq_bind f e = ap (λ m. m >>= f) e
