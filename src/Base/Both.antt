-- ===== src/Base/Both.antt =====
-- Two partial results side by side.
use mathlib.Core.Path.{◌≡◌, refl}
use mathlib.Core.Option.{Option, none, some}
use low_latency_prediction_m.Base.Tests.{◌>>=◌, if◌then◌else◌}
use mathlib.Core.Bool.{Bool, true, false}

-- Both calls end, with results that are related, or neither does.
abbrev pub Both : {A B : Type 0} → (A → B → Type 0) → Option A → Option B → Type 0
Both R (some a) (some b) = R a b
Both R none none = Unit
Both R (some a) none = ⊥
Both R none (some b) = ⊥

pub Both-bind :
    {A B C D : Type 0} (R : A → B → Type 0) (S : C → D → Type 0) (f : A → Option C)
    (g : B → Option D) (x : Option A) (y : Option B)
    → Both R x y
    → ((a : A) (b : B) → y ≡ some b → R a b → Both S (f a) (g b))
    → Both S (x >>= f) (y >>= g)
Both-bind R S f g (some a) (some b) h next = next a b refl h
Both-bind R S f g none none h next = tt
Both-bind R S f g (some a) none h next = absurd h
Both-bind R S f g none (some b) h next = absurd h

pub Both-some :
    {A B : Type 0} (R : A → B → Type 0) (x : Option A) (b : B)
    → Both R x (some b)
    → (a : A) × (x ≡ some a) × R a b
Both-some R (some a) b h = (a, refl, h)
Both-some R none b h = absurd h

pub Both-if :
    {A B : Type 0} (R : A → B → Type 0) (p q : Bool) (x x' : Option A) (y y' : Option B)
    → p ≡ q
    → Both R x y
    → Both R x' y'
    → Both R (if p then x else x') (if q then y else y')
Both-if R true true x x' y y' e h h' = h
Both-if R false false x x' y y' e h h' = h'
Both-if R true false x x' y y' e h h' = absurd cc
Both-if R false true x x' y y' e h h' = absurd cc

pub Both-weaken :
    {A B : Type 0} (R S : A → B → Type 0) (x : Option A) (y : Option B)
    → Both R x y
    → ((a : A) (b : B) → R a b → S a b)
    → Both S x y
Both-weaken R S (some a) (some b) h weaken = weaken a b h
Both-weaken R S none none h weaken = tt
Both-weaken R S (some a) none h weaken = absurd h
Both-weaken R S none (some b) h weaken = absurd h
