-- ===== src/Base/Run.antt =====
-- What a call of a Go function comes to: a value, a returned error, or a panic.
use mathlib.Core.Path.{◌≡◌, refl, subst}
use mathlib.Core.Option.{Option, none, some}
use Prim.Native.String.{String}

pub data Run {ℓ} (A : Type ℓ) : Type ℓ where
  done : A → Run A
  failed : String → Run A
  panic : Run A

infixl 5 ◌>>=◌ ◌>>◌
abbrev pub ◌>>=◌ {ℓ κ} : {A : Type ℓ} {B : Type κ} → Run A → (A → Run B) → Run B
done a >>= f = f a
failed e >>= f = failed e
panic >>= f = panic

abbrev pub ◌>>◌ {ℓ} : {B : Type ℓ} → Run (Unit {0}) → Run B → Run B
m >> k = m >>= λ _. k

-- Reading through a pointer.
abbrev pub deref {ℓ} : {A : Type ℓ} → Option A → Run A
deref none = panic
deref (some a) = done a

pub >>=-eq-done {ℓ κ} :
    {A : Type ℓ} {B : Type κ} (m : Run A) (f : A → Run B) {b : B}
    → (m >>= f) ≡ done b
    → (a : A) × (m ≡ done a) × (f a ≡ done b)
>>=-eq-done (done a) f h = (a, refl, h)
>>=-eq-done (failed e) f h = cc
>>=-eq-done panic f h = cc

-- What holds of the value of a run that ends in one.
abbrev pub Ensures {ℓ κ} : {A : Type ℓ} → (A → Type κ) → Run A → Type κ
Ensures P (done a) = P a
Ensures P (failed _) = Unit
Ensures P panic = Unit

pub Ensures-both :
    {A : Type 0} (P Q : A → Type 0) (r : Run A)
    → Ensures P r
    → Ensures Q r
    → Ensures (λ a. P a × Q a) r
Ensures-both P Q (done a) p q = (p, q)
Ensures-both P Q (failed _) p q = tt
Ensures-both P Q panic p q = tt

pub Ensures-map :
    {A : Type 0} (P Q : A → Type 0) (r : Run A) → ((a : A) → P a → Q a) → Ensures P r → Ensures Q r
Ensures-map P Q (done a) f p = f a p
Ensures-map P Q (failed _) f p = tt
Ensures-map P Q panic f p = tt

pub Ensures-then :
    {A B : Type 0} (P : A → Type 0) (Q : B → Type 0) (f : A → B) (r : Run A)
    → ((a : A) → P a → Q (f a))
    → Ensures P r
    → Ensures Q (r >>= λ a. done (f a))
Ensures-then P Q f (done a) g p = g a p
Ensures-then P Q f (failed _) g p = tt
Ensures-then P Q f panic g p = tt

-- What is ensured holds of the value that a run ends in.
pub Ensures-done :
    {A : Type 0} (P : A → Type 0) (r : Run A) (a : A) → r ≡ done a → Ensures P r → P a
Ensures-done P r a e p = subst (Ensures P) e p
