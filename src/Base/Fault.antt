-- ===== src/Base/Fault.antt =====
-- Sequencing of steps that may fault.
use mathlib.Core.Option.{Option, none, some}

infixl 5 ◌>>=◌
abbrev pub ◌>>=◌ {ℓ κ} : {A : Type ℓ} {B : Type κ} → Option A → (A → Option B) → Option B
none >>= f = none
some a >>= f = f a

-- Of a result, if there is one.
abbrev pub OnSome : {X : Type 0} → (X → Type 0) → Option X → Type 0
OnSome P none = Unit
OnSome P (some x) = P x

pub OnSome-bind :
    {X Y : Type 0} (P : X → Type 0) (Q : Y → Type 0) (o : Option X) (f : X → Option Y)
    → OnSome P o
    → ((x : X) → P x → OnSome Q (f x))
    → OnSome Q (o >>= f)
OnSome-bind P Q none f h k = tt
OnSome-bind P Q (some x) f h k = k x h

pub OnSome-map :
    {X : Type 0} {P Q : X → Type 0}
    → ((x : X) → P x → Q x)
    → (o : Option X) → OnSome P o
    → OnSome Q o
OnSome-map f none h = tt
OnSome-map f (some x) h = f x h

pub OnSome-any : {X : Type 0} (o : Option X) → OnSome (λ _. Unit) o
OnSome-any none = tt
OnSome-any (some x) = tt
