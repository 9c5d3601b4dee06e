-- ===== src/Prelude/Outcome.antt =====
-- The result of a call that CHECK may end, and the rules to reason about it.
use mathlib.Core.Path.{◌≡◌, subst}
use mathlib.Core.Bool.{Bool, true, false}
use mathlib.Core.Option.{Option, none, some}

-- A call ends, or a CHECK fails (an access out of bounds counts as that), or, in the model only, the
-- fuel of its loop runs out.
pub data Outcome {ℓ} (A : Type ℓ) : Type ℓ where
  done : A → Outcome A
  abort starved : Outcome A

infixl 5 ◌>>=◌
abbrev pub ◌>>=◌ {ℓ κ} : {A : Type ℓ} {B : Type κ} → Outcome A → (A → Outcome B) → Outcome B
done a >>= f = f a
abort >>= f = abort
starved >>= f = starved

-- A test that chooses between two calls.
unfoldable pub branch {ℓ} : {A : Type ℓ} → Bool → Outcome A → Outcome A → Outcome A
branch true x y = x
branch false x y = y

-- A call that goes on with a value, or without one.
unfoldable pub on_value {ℓ κ} :
    {A : Type ℓ} {B : Type κ} → Option A → Outcome B → (A → Outcome B) → Outcome B
on_value none x f = x
on_value (some a) x f = f a

-- CHECK(...)
abbrev pub check : Bool → Outcome (Unit {0})
check true = done tt
check false = abort

abbrev pub or_abort {ℓ} : {A : Type ℓ} → Option A → Outcome A
or_abort none = abort
or_abort (some a) = done a

-- The call does not run out of fuel, and if it ends its result satisfies P.
unfoldable pub Ensures : {A : Type 0} → (A → Type 0) → Outcome A → Type 0
Ensures P (done a) = P a
Ensures P abort = Unit
Ensures P starved = ⊥

-- The rule for a sequence of two steps.
pub Ensures-bind :
    {A : Type 0} {B : Type 0} (P : A → Type 0) (Q : B → Type 0) (m : Outcome A) (f : A → Outcome B)
    → Ensures P m
    → ((a : A) → P a → Ensures Q (f a))
    → Ensures Q (m >>= f)
unfolding Ensures
Ensures-bind P Q (done a) f h k = k a h
Ensures-bind P Q abort f h k = tt
Ensures-bind P Q starved f h k = elim h [ ]

pub Ensures-check :
    {B : Type 0} (Q : B → Type 0) (b : Bool) (f : Unit {0} → Outcome B)
    → (b ≡ true → Ensures Q (f tt))
    → Ensures Q (check b >>= f)
unfolding Ensures
Ensures-check Q true f k = k (λ i. true)
Ensures-check Q false f k = tt

pub Ensures-or_abort :
    {A B : Type 0} (Q : B → Type 0) (o : Option A) (f : A → Outcome B)
    → ((a : A) → o ≡ some a → Ensures Q (f a))
    → Ensures Q (or_abort o >>= f)
unfolding Ensures
Ensures-or_abort Q none f k = tt
Ensures-or_abort Q (some a) f k = k a (λ i. some a)

pub Ensures-mono :
    {A : Type 0} (P : A → Type 0) (Q : A → Type 0) (m : Outcome A)
    → Ensures P m
    → ((a : A) → P a → Q a)
    → Ensures Q m
unfolding Ensures
Ensures-mono P Q (done a) h k = k a h
Ensures-mono P Q abort h k = tt
Ensures-mono P Q starved h k = elim h [ ]

pub Ensures-done :
    {A : Type 0} (P : A → Type 0) (m : Outcome A) {a : A} → Ensures P m → m ≡ done a → P a
unfolding Ensures
Ensures-done P (done b) {a} h e = let b-a : b ≡ a = cc in subst P b-a h
Ensures-done P abort h e = cc
Ensures-done P starved h e = elim h [ ]

pub Ensures-pure : {A : Type 0} (P : A → Type 0) (a : A) → P a → Ensures P (done a)
unfolding Ensures
Ensures-pure P a h = h

-- The rule for a test.
pub Ensures-branch :
    {A : Type 0} (P : A → Type 0) (b : Bool) (x y : Outcome A)
    → (b ≡ true → Ensures P x)
    → (b ≡ false → Ensures P y)
    → Ensures P (branch b x y)
unfolding branch
Ensures-branch P true x y h k = h (λ i. true)
Ensures-branch P false x y h k = k (λ i. false)

pub Ensures-on_value :
    {A B : Type 0} (P : B → Type 0) (o : Option A) (x : Outcome B) (f : A → Outcome B)
    → (o ≡ none → Ensures P x)
    → ((a : A) → o ≡ some a → Ensures P (f a))
    → Ensures P (on_value o x f)
unfolding on_value
Ensures-on_value P none x f h k = h (λ i. none)
Ensures-on_value P (some a) x f h k = k a (λ i. some a)

-- The call ends with a result that satisfies P: no CHECK fails and no fuel runs out.
unfoldable pub Returns : {A : Type 0} → (A → Type 0) → Outcome A → Type 0
Returns P (done a) = P a
Returns P abort = ⊥
Returns P starved = ⊥

pub Returns-bind :
    {A : Type 0} {B : Type 0} (P : A → Type 0) (Q : B → Type 0) (m : Outcome A) (f : A → Outcome B)
    → Returns P m
    → ((a : A) → P a → Returns Q (f a))
    → Returns Q (m >>= f)
unfolding Returns
Returns-bind P Q (done a) f h k = k a h
Returns-bind P Q abort f h k = elim h [ ]
Returns-bind P Q starved f h k = elim h [ ]

pub Returns-mono :
    {A : Type 0} (P : A → Type 0) (Q : A → Type 0) (m : Outcome A)
    → Returns P m
    → ((a : A) → P a → Q a)
    → Returns Q m
unfolding Returns
Returns-mono P Q (done a) h k = k a h
Returns-mono P Q abort h k = elim h [ ]
Returns-mono P Q starved h k = elim h [ ]

pub Returns-pure : {A : Type 0} (P : A → Type 0) (a : A) → P a → Returns P (done a)
unfolding Returns
Returns-pure P a h = h

pub Returns-branch :
    {A : Type 0} (P : A → Type 0) (b : Bool) (x y : Outcome A)
    → (b ≡ true → Returns P x)
    → (b ≡ false → Returns P y)
    → Returns P (branch b x y)
unfolding branch
Returns-branch P true x y h k = h (λ i. true)
Returns-branch P false x y h k = k (λ i. false)

pub Returns-check :
    {B : Type 0} (Q : B → Type 0) (b : Bool) (f : Unit {0} → Outcome B)
    → b ≡ true
    → Returns Q (f tt)
    → Returns Q (check b >>= f)
unfolding Returns
Returns-check Q true f e k = k
Returns-check Q false f e k = cc

pub Returns-on_value :
    {A B : Type 0} (P : B → Type 0) (o : Option A) (x : Outcome B) (f : A → Outcome B)
    → (o ≡ none → Returns P x)
    → ((a : A) → o ≡ some a → Returns P (f a))
    → Returns P (on_value o x f)
unfolding on_value
Returns-on_value P none x f h k = h (λ i. none)
Returns-on_value P (some a) x f h k = k a (λ i. some a)
