-- ===== src/Simulator/Results.antt =====
-- What holds of a step that may panic.
use raft_visualizer.Prelude.{◌≡◌, ◌≢◌, refl, Option, none, some}
use mathlib.Core.Option.{map as map_option}

-- What holds of the result, if there is one.
abbrev pub IfSome : {A : Type 0} → (A → Type 0) → Option A → Type 0
IfSome P none = Unit
IfSome P (some x) = P x

pub IfSome-found :
    {A : Type 0} (P : A → Type 0) (o : Option A) → ((x : A) → o ≡ some x → P x) → IfSome P o
IfSome-found P none h = tt
IfSome-found P (some x) h = h x refl

pub IfSome-map :
    {A B : Type 0} (P : B → Type 0) (f : A → B) (o : Option A)
    → IfSome (λ x. P (f x)) o
    → IfSome P (map_option f o)
IfSome-map P f none h = tt
IfSome-map P f (some x) h = h

pub IfSome-elim :
    {A B : Type 0} (P : B → Type 0) (Q : A → Type 0) (o : Option A) (z : Option B)
    (k : A → Option B)
    → IfSome Q o
    → IfSome P z
    → ((x : A) → Q x → IfSome P (k x))
    → IfSome P (elim o [ none ↦ z | some x ↦ k x ])
IfSome-elim P Q none z k h hz hk = hz
IfSome-elim P Q (some x) z k h hz hk = hk x h

pub IfSome-mono :
    {A : Type 0} (P Q : A → Type 0) (o : Option A) → ((x : A) → P x → Q x) → IfSome P o → IfSome Q o
IfSome-mono P Q none f h = tt
IfSome-mono P Q (some x) f h = f x h

pub IfSome-both :
    {A : Type 0} (P Q : A → Type 0) (o : Option A)
    → IfSome P o
    → IfSome Q o
    → IfSome (λ x. P x × Q x) o
IfSome-both P Q none h k = tt
IfSome-both P Q (some x) h k = (h, k)

pub IfSome-tt : {A : Type 0} (o : Option A) → IfSome (λ x. Unit) o
IfSome-tt none = tt
IfSome-tt (some x) = tt

-- There is a result, and what holds of it.
abbrev pub Succeeds : {A : Type 0} → (A → Type 0) → Option A → Type 0
Succeeds P none = ⊥
Succeeds P (some x) = P x

module _ {A B : Type 0} where
  pub Succeeds-map :
      (P : B → Type 0) (Q : A → Type 0) (f : A → B) (o : Option A)
      → Succeeds Q o
      → ((x : A) → Q x → P (f x))
      → Succeeds P (map_option f o)
  Succeeds-map P Q f none h k = absurd h
  Succeeds-map P Q f (some x) h k = k x h

  pub Succeeds-elim :
      (P : B → Type 0) (Q : A → Type 0) (o : Option A) (z : Option B) (f : A → Option B)
      → Succeeds Q o
      → ((x : A) → Q x → Succeeds P (f x))
      → Succeeds P (elim o [ none ↦ z | some x ↦ f x ])
  Succeeds-elim P Q none z f h k = absurd h
  Succeeds-elim P Q (some x) z f h k = k x h

  -- With a default for a result that is missing.
  pub default-elim :
      (P : B → Type 0) (Q : A → Type 0) (o : Option A) (z : Option B) (f : A → Option B)
      → IfSome Q o
      → Succeeds P z
      → ((x : A) → Q x → Succeeds P (f x))
      → Succeeds P (elim o [ none ↦ z | some x ↦ f x ])
  default-elim P Q none z f h d k = d
  default-elim P Q (some x) z f h d k = k x h

pub not_none : {A : Type 0} (P : A → Type 0) (o : Option A) → Succeeds P o → o ≢ none
not_none P none h e = h
not_none P (some x) h e = cc
