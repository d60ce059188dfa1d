-- ===== src/Base/Process.antt =====
-- A call of the program: it returns a value, or the process stops. It stops at a failed `assert`,
-- and so does the model at a read outside an array, which is undefined in the source.
use Prim.Native.Nat.{ℕ}
use mathlib.Core.Path.{◌≡◌, refl, subst}
use mathlib.Core.Logic.{inl, inr}
use mathlib.Core.Bool.{Bool, true, false}
use mathlib.Core.Option.{Option, none, some}
use mathlib.Core.List.{List}
use mnftl.Base.Lists.{get_elem?}
use mnftl.Base.Tests.{Option-cases}

pub data Run {ℓ} (A : Type ℓ) : Type ℓ where
  ok : A → Run A
  abort : Run A

infixl 5 ◌>>=◌
abbrev pub ◌>>=◌ {ℓ κ} : {A : Type ℓ} {B : Type κ} → Run A → (A → Run B) → Run B
abort >>= next = abort
ok result >>= next = next result

-- A check, and what comes after it.
infixl 5 ◌>>◌
abbrev pub ◌>>◌ {ℓ} : {B : Type ℓ} → Run (Unit {0}) → Run B → Run B
check >> rest = check >>= λ _. rest

abbrev pub assert : Bool → Run (Unit {0})
assert true = ok tt
assert false = abort

abbrev pub or_abort {ℓ} : {A : Type ℓ} → Option A → Run A
or_abort none = abort
or_abort (some a) = ok a

-- `xs[i]`
abbrev pub fetch {ℓ} : {A : Type ℓ} → List A → ℕ → Run A
fetch xs i = or_abort (get_elem? xs i)

-- Every value that a call may return has a property.
abbrev pub Every {ℓ κ} : {A : Type ℓ} → (A → Type κ) → Run A → Type κ
Every P (ok a) = P a
Every P abort = Unit

pub Every-bind {ℓ κ λ₁ λ₂} :
    {A : Type ℓ} {B : Type κ} (Q : A → Type λ₁) (P : B → Type λ₂) (m : Run A) (f : A → Run B)
    → Every Q m
    → ((a : A) → Q a → Every P (f a))
    → Every P (m >>= f)
Every-bind Q P (ok a) f h k = k a h
Every-bind Q P abort f h k = tt

pub Every-assert {ℓ κ} :
    {B : Type ℓ} (P : B → Type κ) (b : Bool) (k : Run B) → Every P k → Every P (assert b >> k)
Every-assert P true k h = h
Every-assert P false k h = tt

pub Every_ok {ℓ κ} : {A : Type ℓ} (P : A → Type κ) (m : Run A) {a : A} → Every P m → m ≡ ok a → P a
Every_ok P m h e = subst (Every P) e h

pub Every-trivial {ℓ} : {A : Type ℓ} (m : Run A) → Every (λ _. Unit {0}) m
Every-trivial (ok a) = tt
Every-trivial abort = tt

pub Every-fetch {ℓ κ μ} :
    {A : Type ℓ} {B : Type κ} (P : B → Type μ) (xs : List A) (i : ℕ) (f : A → Run B)
    → ((x : A) → get_elem? xs i ≡ some x → Every P (f x))
    → Every P (fetch xs i >>= f)
Every-fetch P xs i f h = elim (Option-cases (get_elem? xs i)) [
  | inl q ↦ rw q tt
  | inr (x, q) ↦ rw q (h x q)
]

pub Every-both {ℓ κ μ} :
    {A : Type ℓ} (P : A → Type κ) (Q : A → Type μ) (m : Run A)
    → Every P m
    → Every Q m
    → Every (λ a. P a × Q a) m
Every-both P Q (ok a) p q = (p, q)
Every-both P Q abort p q = tt

pub Every-map {ℓ κ μ} :
    {A : Type ℓ} (P : A → Type κ) (Q : A → Type μ) (m : Run A)
    → ((a : A) → P a → Q a)
    → Every P m
    → Every Q m
Every-map P Q (ok a) f p = f a p
Every-map P Q abort f p = tt

-- A call returns, with a value that has a property.
abbrev pub Returns {ℓ} : {A : Type ℓ} → (A → Type 0) → Run A → Type 0
Returns P (ok a) = P a
Returns P abort = ⊥

pub Returns-bind {ℓ κ} :
    {A : Type ℓ} {B : Type κ} (Q : A → Type 0) (P : B → Type 0) (m : Run A) (f : A → Run B)
    → Returns Q m
    → ((a : A) → Q a → Returns P (f a))
    → Returns P (m >>= f)
Returns-bind Q P (ok a) f h k = k a h
Returns-bind Q P abort f h k = absurd h

pub Returns-assert {ℓ} :
    {B : Type ℓ} (P : B → Type 0) (b : Bool) (k : Run B)
    → b ≡ true
    → Returns P k
    → Returns P (assert b >> k)
Returns-assert P true k e h = h
Returns-assert P false k e h = cc

pub Returns-fetch {ℓ κ} :
    {A : Type ℓ} {B : Type κ} (P : B → Type 0) (xs : List A) (i : ℕ) (f : A → Run B) (x : A)
    → get_elem? xs i ≡ some x
    → Returns P (f x)
    → Returns P (fetch xs i >>= f)
Returns-fetch P xs i f x q h = rw q h

-- What holds of every value of a call that returns holds of its value.
pub Returns-Every {ℓ} :
    {A : Type ℓ} (P : A → Type 0) (Q : A → Type 0) (m : Run A)
    → Returns P m
    → Every Q m
    → Returns (λ a. P a × Q a) m
Returns-Every P Q (ok a) p q = (p, q)
Returns-Every P Q abort p q = absurd p

pub Returns-map {ℓ} :
    {A : Type ℓ} (P : A → Type 0) (Q : A → Type 0) (m : Run A)
    → Returns P m
    → ((a : A) → P a → Q a)
    → Returns Q m
Returns-map P Q (ok a) p f = f a p
Returns-map P Q abort p f = absurd p

pub Returns-eq {ℓ} :
    {A : Type ℓ} (P : A → Type 0) (m : Run A) → Returns P m → (a : A) × (m ≡ ok a) × P a
Returns-eq P (ok a) p = (a, refl, p)
Returns-eq P abort p = absurd p
