-- ===== src/Base/Outcome.antt =====
-- What a chain of steps that may fault ensures when it ends without a fault.
use mathlib.Core.Path.{◌≡◌, refl, subst}
use mathlib.Core.Bool.{Bool, true, false}
use mathlib.Core.Option.{Option, none, some}
use ajou_etri_project.Base.Tests.{◌>>=◌, if◌then◌else◌}

-- `P` holds of the result, if there is one.
pub data Ensures {ℓ κ} {A : Type ℓ} (P : A → Type κ) : Option A → Type (ℓ ⊔ κ) where
  faults : Ensures P none
  ends : {a : A} → P a → Ensures P (some a)

pub Ensures-bind {ℓ ℓ' κ κ'} :
    {A : Type ℓ} {B : Type ℓ'} {P : A → Type κ} {Q : B → Type κ'} {o : Option A} {f : A → Option B}
    → Ensures P o
    → ((a : A) → P a → Ensures Q (f a))
    → Ensures Q (o >>= f)
Ensures-bind faults k = faults
Ensures-bind (ends {a} h) k = k a h

pub Ensures-if {ℓ κ} :
    {A : Type ℓ} {P : A → Type κ} (b : Bool) {x y : Option A}
    → Ensures P x
    → Ensures P y
    → Ensures P (if b then x else y)
Ensures-if true h k = h
Ensures-if false h k = k

-- Whatever comes out.
pub Ensures-any {ℓ κ} : {A : Type ℓ} {P : A → Type κ} (o : Option A) → ((a : A) → P a) → Ensures P o
Ensures-any none h = faults
Ensures-any (some a) h = ends (h a)

abbrev HoldsAt {ℓ κ} : {A : Type ℓ} (P : A → Type κ) → Option A → Type κ
HoldsAt P none = Unit
HoldsAt P (some a) = P a

holds {ℓ κ} : {A : Type ℓ} (P : A → Type κ) {o : Option A} → Ensures P o → HoldsAt P o
holds P faults = tt
holds P (ends h) = h

pub Ensures-result {ℓ κ} :
    {A : Type ℓ} {P : A → Type κ} {o : Option A} {a : A} → Ensures P o → o ≡ some a → P a
Ensures-result {P} h e = subst (HoldsAt P) e (holds P h)

pub Ensures-map {ℓ κ κ'} :
    {A : Type ℓ} {P : A → Type κ} {Q : A → Type κ'} {o : Option A}
    → Ensures P o
    → ((a : A) → P a → Q a)
    → Ensures Q o
Ensures-map faults k = faults
Ensures-map (ends {a} h) k = ends (k a h)

pub Ensures-elim {ℓ ℓ' κ} :
    {A : Type ℓ} {B : Type ℓ'} {P : A → Type κ} (o : Option B) {x : Option A} {f : B → Option A}
    → Ensures P x
    → ((b : B) → Ensures P (f b))
    → Ensures P (elim o [ none ↦ x | some b ↦ f b ])
Ensures-elim none h k = h
Ensures-elim (some b) h k = k b

pub Ensures-of {ℓ κ} :
    {A : Type ℓ} {P : A → Type κ} (o : Option A) → ((a : A) → o ≡ some a → P a) → Ensures P o
Ensures-of none h = faults
Ensures-of (some a) h = ends (h a refl)

-- Both cases of a result, where the predicate is given.
pub Option-elim {ℓ ℓ' κ} :
    {A : Type ℓ} {B : Type ℓ'} (P : A → Type κ) (o : Option B) {x : A} {f : B → A}
    → P x
    → ((b : B) → P (f b))
    → P (elim o [ none ↦ x | some b ↦ f b ])
Option-elim P none h k = h
Option-elim P (some b) h k = k b

pub if-elim {ℓ κ} :
    {A : Type ℓ} (P : A → Type κ) (b : Bool) {x y : A} → P x → P y → P (if b then x else y)
if-elim P true h k = h
if-elim P false h k = k

pub Ensures-elim_of {ℓ ℓ' κ} :
    {A : Type ℓ} {B : Type ℓ'} {P : A → Type κ} (o : Option B) {x : Option A} {f : B → Option A}
    → Ensures P x
    → ((b : B) → o ≡ some b → Ensures P (f b))
    → Ensures P (elim o [ none ↦ x | some b ↦ f b ])
Ensures-elim_of none h k = h
Ensures-elim_of (some b) h k = k b refl

-- Two ways to go on that agree on what the first step ensures.
pub Ensures-bind_cong {ℓ ℓ' κ} :
    {A : Type ℓ} {B : Type ℓ'} {P : A → Type κ} {o : Option A} (f g : A → Option B)
    → Ensures P o
    → ((a : A) → P a → f a ≡ g a)
    → (o >>= f) ≡ (o >>= g)
Ensures-bind_cong f g faults k = refl
Ensures-bind_cong f g (ends {a} h) k = k a h
