-- ===== src/Prelude/Lists.antt =====
-- Lists over the native numbers: `length`, `slice(-n)`, `includes`, `filter`, `find`, `some`.
use Prim.Native.Nat.{ℕ, zero, suc, ◌+◌, ◌-◌, ◌≤◌, min}
use mathlib.Core.Path.{◌≡◌, refl, sym, subst, ap}
use mathlib.Core.Logic.{◌⊎◌, inl, inr}
use mathlib.Core.Bool.{Bool, true, false, ◌||◌}
use mathlib.Core.List.{List, [], ◌∷◌, ◌++◌, map}
use mathlib.Core.Option.{Option, none, some}
use native.Mathlib.Omega.{arith}
use raft_visualizer.Prelude.Tests.{Eq, ◌==◌, if◌then◌else◌}

module _ {ℓ} {A : Type ℓ} where
  abbrev pub length : List A → ℕ
  length [] = 0
  length (_ ∷ xs) = suc (length xs)

  abbrev pub drop : ℕ → List A → List A
  drop zero xs = xs
  drop (suc n) [] = []
  drop (suc n) (_ ∷ xs) = drop n xs

  -- `xs.slice(-n)`, for n > 0.
  abbrev pub slice_last : ℕ → List A → List A
  slice_last n xs = drop (length xs - n) xs

  -- `xs.find(p)`
  abbrev pub find : (A → Bool) → List A → Option A
  find p [] = none
  find p (x ∷ xs) = if p x then some x else find p xs

  -- `xs.filter(p)`
  abbrev pub filter : (A → Bool) → List A → List A
  filter p [] = []
  filter p (x ∷ xs) = if p x then x ∷ filter p xs else filter p xs

  -- `xs.some(p)`
  abbrev pub any : (A → Bool) → List A → Bool
  any p [] = false
  any p (x ∷ xs) = p x || any p xs

  pub length-append : (xs ys : List A) → length (xs ++ ys) ≡ length xs + length ys
  length-append [] ys = omega arith
  length-append (x ∷ xs) ys = omega (arith, length-append xs ys)

  pub length-drop : (n : ℕ) (xs : List A) → length (drop n xs) ≡ length xs - n
  length-drop zero xs = omega arith
  length-drop (suc n) [] = omega arith
  length-drop (suc n) (_ ∷ xs) = omega (arith, length-drop n xs)

  pub length-slice_last : (n : ℕ) (xs : List A) → length (slice_last n xs) ≡ min n (length xs)
  length-slice_last n xs = omega (arith, length-drop (length xs - n) xs)

  pub length-slice_last-le : (n : ℕ) (xs : List A) → length (slice_last n xs) ≤ n
  length-slice_last-le n xs = omega (arith, length-slice_last n xs)

  pub slice_last_all : (n : ℕ) (xs : List A) → length xs ≤ n → slice_last n xs ≡ xs
  slice_last_all n xs h = let e : length xs - n ≡ 0 = omega arith in rw e refl

-- A statement of every element.
abbrev pub All {ℓ κ} : {A : Type ℓ} → (A → Type κ) → List A → Type κ
All P [] = Unit
All P (x ∷ xs) = P x × All P xs

module _ {ℓ κ} {A : Type ℓ} (P : A → Type κ) where
  pub All-append : (xs ys : List A) → All P xs → All P ys → All P (xs ++ ys)
  All-append [] ys hx hy = hy
  All-append (x ∷ xs) ys hx hy = (hx.0, All-append xs ys hx.1 hy)

  pub All-drop : (n : ℕ) (xs : List A) → All P xs → All P (drop n xs)
  All-drop zero xs h = h
  All-drop (suc n) [] h = h
  All-drop (suc n) (x ∷ xs) h = All-drop n xs h.1

pub All-map_mono {ℓ κ μ} :
    {A : Type ℓ} (P : A → Type κ) (Q : A → Type μ) (xs : List A)
    → ((x : A) → P x → Q x)
    → All P xs
    → All Q xs
All-map_mono P Q [] f h = tt
All-map_mono P Q (x ∷ xs) f h = (f x h.0, All-map_mono P Q xs f h.1)

module _ {ℓ} {A : Type ℓ} ⦃e : Eq A⦄ where
  -- `xs.includes(a)`
  abbrev pub includes : List A → A → Bool
  includes [] a = false
  includes (x ∷ xs) a = (x == a) || includes xs a

  -- How often `a` stands in the list.
  abbrev pub count : A → List A → ℕ
  count a [] = 0
  count a (x ∷ xs) = if x == a then suc (count a xs) else count a xs

  pub count-append : (a : A) (xs ys : List A) → count a (xs ++ ys) ≡ count a xs + count a ys
  count-append a [] ys = omega arith
  count-append a (x ∷ xs) ys = ground (arith, count-append a xs ys)

module _ {ℓ} {A : Type ℓ} ⦃e : Eq A⦄ where
  -- No element stands twice.
  abbrev pub IsDistinct : List A → Type 0
  IsDistinct [] = Unit
  IsDistinct (x ∷ xs) = (includes xs x ≡ false) × IsDistinct xs

  -- A list in which nothing occurs is empty.
  pub eq-nil_of_count : (xs : List A) → ((a : A) → count a xs ≡ 0) → xs ≡ []
  eq-nil_of_count [] h = refl
  eq-nil_of_count (x ∷ xs) h = ground (arith, h x, e.same_iff x x)

-- `a` is one of the elements.
abbrev pub Occurs : {A : Type 0} → A → List A → Type 0
Occurs a [] = ⊥
Occurs a (x ∷ xs) = (a ≡ x) ⊎ Occurs a xs

pub of_Occurs : {A : Type 0} (P : A → Type 0) (xs : List A) {a : A} → All P xs → Occurs a xs → P a
of_Occurs P [] h o = elim o [ ]
of_Occurs P (x ∷ xs) h (inl e) = subst P (sym e) h.0
of_Occurs P (x ∷ xs) h (inr o) = of_Occurs P xs h.1 o

module _ {A : Type 0} (p : A → Bool) where
  pub Occurs-filter : (a : A) (xs : List A) → Occurs a (filter p xs) → Occurs a xs × (p a ≡ true)
  Occurs-filter a [] o = elim o [ ]
  Occurs-filter a (x ∷ xs) o = ground (arith, Occurs-filter a xs)

  pub Occurs-filter_of : (a : A) (xs : List A) → Occurs a xs → p a ≡ true → Occurs a (filter p xs)
  Occurs-filter_of a [] o h = elim o [ ]
  Occurs-filter_of a (x ∷ xs) o h = ground (arith, Occurs-filter_of a xs)

module _ {A B : Type 0} (f : A → B) where
  pub Occurs-map : (b : B) (xs : List A) → Occurs b (map f xs) → (a : A) × Occurs a xs × (b ≡ f a)
  Occurs-map b [] o = elim o [ ]
  Occurs-map b (x ∷ xs) (inl e) = (x, inl refl, e)
  Occurs-map b (x ∷ xs) (inr o) = let (a, at, e) = Occurs-map b xs o in (a, inr at, e)

  pub Occurs-map_of : (a : A) (xs : List A) → Occurs a xs → Occurs (f a) (map f xs)
  Occurs-map_of a [] o = elim o [ ]
  Occurs-map_of a (x ∷ xs) (inl e) = inl (ap f e)
  Occurs-map_of a (x ∷ xs) (inr o) = inr (Occurs-map_of a xs o)
