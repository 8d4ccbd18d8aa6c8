-- ===== src/Prelude/Sets.antt =====
-- Lists of ids as finite sets: filters, inclusion and sizes.
use raft_visualizer.Prelude.Tests.{◌==◌, nat_eq, Bool-cases}
use raft_visualizer.Prelude.Lists.{length, filter, includes, IsDistinct}
use Prim.Native.Nat.{ℕ, suc, ◌+◌, ◌≤◌}
use mathlib.Core.Path.{◌≡◌, refl, ◌∙◌}
use mathlib.Core.Logic.{inl, inr}
use mathlib.Core.Bool.{Bool, true, false, not, ◌&&◌, ◌||◌}
use mathlib.Core.List.{List, [], ◌∷◌, ◌++◌}
use native.Mathlib.Omega.{arith}

module _ (p : ℕ → Bool) where
  pub includes-filter : (xs : List ℕ) (a : ℕ) → includes (filter p xs) a ≡ (includes xs a && p a)
  includes-filter [] a = refl
  includes-filter (x ∷ xs) a = elim (Bool-cases (p x)) [
    | inl e ↦ rw (e, filter) (ground (arith, includes-filter xs a, e))
    | inr e ↦ rw (e, filter) (ground (arith, includes-filter xs a, e))
  ]

  pub filter-IsDistinct : (xs : List ℕ) → IsDistinct xs → IsDistinct (filter p xs)
  filter-IsDistinct [] h = tt
  filter-IsDistinct (x ∷ xs) h = ground (arith, filter-IsDistinct xs h.1, includes-filter xs x, h.0)

  pub length-filter-not :
      (xs : List ℕ) → length (filter p xs) + length (filter (λ x. not (p x)) xs) ≡ length xs
  length-filter-not [] = omega arith
  length-filter-not (x ∷ xs) = ground (arith, length-filter-not xs)

pub includes-append :
    (xs : List ℕ) (b a : ℕ) → includes (xs ++ b ∷ []) a ≡ (includes xs a || (b == a))
includes-append [] b a = ground arith
includes-append (x ∷ xs) b a = ground (arith, includes-append xs b a)

-- Inclusion of lists as sets.
abbrev pub IsSubset : List ℕ → List ℕ → Type 0
IsSubset xs ys = (a : ℕ) → includes xs a ≡ true → includes ys a ≡ true

length-without :
    (x : ℕ) (ys : List ℕ)
    → includes ys x ≡ true
    → suc (length (filter (λ y. not (y == x)) ys)) ≤ length ys
length-without x [] h = cc
length-without x (y ∷ ys) h = ground (arith, length-without x ys, le x ys)
  where
    le : (x : ℕ) (ys : List ℕ) → length (filter (λ y. not (y == x)) ys) ≤ length ys
    le x [] = omega arith
    le x (y ∷ ys) = ground (arith, le x ys)

IsSubset-without :
    (x : ℕ) (xs ys : List ℕ)
    → includes xs x ≡ false
    → IsSubset (x ∷ xs) ys
    → IsSubset xs (filter (λ y. not (y == x)) ys)
IsSubset-without x xs ys d h a ha =
    includes-filter (λ y. not (y == x)) ys a ∙ ground (arith, d, ha, h a (ground (arith, ha)))

-- The pigeonhole principle.
pub length-IsSubset : (xs ys : List ℕ) → IsDistinct xs → IsSubset xs ys → length xs ≤ length ys
length-IsSubset [] ys d h = omega arith
length-IsSubset (x ∷ xs) ys d h = omega (
  arith,
  length-without x ys (h x (ground arith)),
  length-IsSubset xs (filter (λ y. not (y == x)) ys) d.1 (IsSubset-without x xs ys d.0 h),
)

-- A sublist given as a set has the size of the elements that it picks out.
pub length-filter-includes :
    (xs ys : List ℕ)
    → IsDistinct xs
    → IsDistinct ys
    → IsSubset xs ys
    → length (filter (includes xs) ys) ≡ length xs
length-filter-includes xs ys dx dy h = omega (
  arith,
  length-IsSubset xs (filter (includes xs) ys) dx
      (λ a ha. includes-filter (includes xs) ys a ∙ ground (arith, h a ha, ha)),
  length-IsSubset (filter (includes xs) ys) xs (filter-IsDistinct (includes xs) ys dy)
      (λ a ha. ground (arith, ha, includes-filter (includes xs) ys a)),
)
