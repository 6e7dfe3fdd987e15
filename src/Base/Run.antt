-- ===== src/Base/Run.antt =====
-- The result of a step of the program: a value, a reported error (`ErrorReported`), a panic, or, where
-- a model recurs on fuel, that the fuel ran out.
use mathlib.Core.Path.{◌≡◌, refl, sym, subst}
use mathlib.Core.Option.{Option, none, some}

pub data Run {ℓ} (A : Type ℓ) : Type ℓ where
  ok : A → Run A
  err : Run A
  panic : Run A
  out_of_fuel : Run A

infixl 5 ◌>>=◌
abbrev pub ◌>>=◌ {ℓ κ} : {A : Type ℓ} {B : Type κ} → Run A → (A → Run B) → Run B
ok a >>= f = f a
err >>= f = err
panic >>= f = panic
out_of_fuel >>= f = out_of_fuel

-- `unwrap` and `expect`.
abbrev pub expect {ℓ} : {A : Type ℓ} → Option A → Run A
expect none = panic
expect (some a) = ok a

-- A successful result has the property.
abbrev pub Ensures {ℓ κ} : {A : Type ℓ} → (A → Type κ) → Run A → Type κ
Ensures P (ok a) = P a
Ensures P _ = Unit

pub Ensures-bind {ℓ κ μ ν} :
    {A : Type ℓ} {B : Type κ} (Q : A → Type μ) (P : B → Type ν) (m : Run A) (f : A → Run B)
    → Ensures Q m
    → ((a : A) → Q a → Ensures P (f a))
    → Ensures P (m >>= f)
Ensures-bind Q P (ok a) f h k = k a h
Ensures-bind Q P err f h k = tt
Ensures-bind Q P panic f h k = tt
Ensures-bind Q P out_of_fuel f h k = tt

-- What is known of a result is that it is the result.
pub Ensures-self {ℓ} : {A : Type ℓ} (m : Run A) → Ensures (λ a. m ≡ ok a) m
Ensures-self (ok a) = refl
Ensures-self err = tt
Ensures-self panic = tt
Ensures-self out_of_fuel = tt

pub Ensures-ok {ℓ κ} :
    {A : Type ℓ} (P : A → Type κ) (m : Run A) (a : A) → Ensures P m → m ≡ ok a → P a
Ensures-ok P m a h e = subst (Ensures P) e h

pub Ensures-both {ℓ κ μ} :
    {A : Type ℓ} (P : A → Type κ) (Q : A → Type μ) (m : Run A)
    → Ensures P m
    → Ensures Q m
    → Ensures (λ a. P a × Q a) m
Ensures-both P Q (ok a) p q = (p, q)
Ensures-both P Q err p q = tt
Ensures-both P Q panic p q = tt
Ensures-both P Q out_of_fuel p q = tt

pub Ensures-weaken {ℓ κ μ} :
    {A : Type ℓ} (P : A → Type κ) (Q : A → Type μ) (m : Run A)
    → ((a : A) → P a → Q a)
    → Ensures P m
    → Ensures Q m
Ensures-weaken P Q (ok a) f p = f a p
Ensures-weaken P Q err f p = tt
Ensures-weaken P Q panic f p = tt
Ensures-weaken P Q out_of_fuel f p = tt

-- Two results end in the same way, with related values.
abbrev pub Both {ℓ κ} : {A : Type ℓ} {B : Type κ} → (A → B → Type 0) → Run A → Run B → Type 0
Both R (ok a) (ok b) = R a b
Both R err err = Unit
Both R panic panic = Unit
Both R out_of_fuel out_of_fuel = Unit
Both R _ _ = ⊥

pub Both-bind {ℓ κ μ ν} :
    {A : Type ℓ} {B : Type κ} {C : Type μ} {D : Type ν} (Q : A → B → Type 0) (R : C → D → Type 0)
    (m : Run A) (n : Run B) (f : A → Run C) (g : B → Run D)
    → Both Q m n
    → ((a : A) (b : B) → Q a b → Both R (f a) (g b))
    → Both R (m >>= f) (n >>= g)
Both-bind Q R (ok a) (ok b) f g h k = k a b h
Both-bind Q R err err f g h k = tt
Both-bind Q R panic panic f g h k = tt
Both-bind Q R out_of_fuel out_of_fuel f g h k = tt
Both-bind Q R (ok _) err f g h k = absurd h
Both-bind Q R (ok _) panic f g h k = absurd h
Both-bind Q R (ok _) out_of_fuel f g h k = absurd h
Both-bind Q R err (ok _) f g h k = absurd h
Both-bind Q R err panic f g h k = absurd h
Both-bind Q R err out_of_fuel f g h k = absurd h
Both-bind Q R panic (ok _) f g h k = absurd h
Both-bind Q R panic err f g h k = absurd h
Both-bind Q R panic out_of_fuel f g h k = absurd h
Both-bind Q R out_of_fuel (ok _) f g h k = absurd h
Both-bind Q R out_of_fuel err f g h k = absurd h
Both-bind Q R out_of_fuel panic f g h k = absurd h

pub Both-refl {ℓ} : {A : Type ℓ} (R : A → A → Type 0) (m : Run A) → ((a : A) → R a a) → Both R m m
Both-refl R (ok a) h = h a
Both-refl R err h = tt
Both-refl R panic h = tt
Both-refl R out_of_fuel h = tt

-- Where one result is a value, so is the other.
pub Both-ok {ℓ κ} :
    {A : Type ℓ} {B : Type κ} (R : A → B → Type 0) (m : Run A) (n : Run B) (a : A)
    → m ≡ ok a
    → Both R m n
    → (b : B) × (n ≡ ok b) × R a b
Both-ok R m (ok b) a e h = (b, refl, subst (λ r. Both R r (ok b)) e h)
Both-ok R m err a e h = absurd (subst (λ r. Both R r err) e h)
Both-ok R m panic a e h = absurd (subst (λ r. Both R r panic) e h)
Both-ok R m out_of_fuel a e h = absurd (subst (λ r. Both R r out_of_fuel) e h)

pub ok-injective {ℓ} : {A : Type ℓ} (a b : A) → ok a ≡ ok b → a ≡ b
ok-injective a b e = subst (Ensures (λ x. a ≡ x)) e refl

-- The result is a value.
abbrev pub IsOk {ℓ} : {A : Type ℓ} → Run A → Type 0
IsOk (ok _) = Unit
IsOk _ = ⊥

pub ok-IsOk {ℓ} : {A : Type ℓ} (m : Run A) (a : A) → m ≡ ok a → IsOk m
ok-IsOk m a e = subst IsOk (sym e) tt

-- A bind that gives a value did so through a value.
pub bind-inverse {ℓ κ} :
    {A : Type ℓ} {B : Type κ} (m : Run A) (f : A → Run B) (b : B)
    → (m >>= f) ≡ ok b
    → (a : A) × ((m ≡ ok a) × (f a ≡ ok b))
bind-inverse (ok a) f b e = (a, (refl, e))
bind-inverse err f b e = absurd (ok-IsOk err b e)
bind-inverse panic f b e = absurd (ok-IsOk panic b e)
bind-inverse out_of_fuel f b e = absurd (ok-IsOk out_of_fuel b e)
