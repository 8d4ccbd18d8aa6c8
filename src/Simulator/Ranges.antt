-- ===== src/Simulator/Ranges.antt =====
-- The ids of a cluster's nodes (`range n`).
use raft_visualizer.Prelude.{
  ℕ, zero, suc, ◌≤◌, ◌<◌, ◌≡◌, refl, ap, ◌∙◌, Bool, false, List, [], ◌∷◌, ◌++◌, map, arith, ltb,
  nat_eq, if_of, length, filter, length-append, All, All-append, includes, includes-append,
  IsDistinct,
}
use raft_visualizer.Simulator.{range}

pub includes-range : (n k : ℕ) → includes (range n) k ≡ ltb k n
includes-range zero k = ground arith
includes-range (suc n) k = ground (arith, includes-append (range n) n k, includes-range n k)

pub IsDistinct-append :
    (xs : List ℕ) (x : ℕ) → IsDistinct xs → includes xs x ≡ false → IsDistinct (xs ++ x ∷ [])
IsDistinct-append [] x d h = (refl, tt)
IsDistinct-append (y ∷ xs) x d h =
    (ground (arith, includes-append xs x y, d.0, h), IsDistinct-append xs x d.1 (ground (arith, h)))

pub range-IsDistinct : (n : ℕ) → IsDistinct (range n)
range-IsDistinct zero = tt
range-IsDistinct (suc n) =
    IsDistinct-append (range n) n (range-IsDistinct n) (ground (arith, includes-range n n))

pub length-map : {A B : Type 0} (f : A → B) (xs : List A) → length (map f xs) ≡ length xs
length-map f [] = refl
length-map f (x ∷ xs) = ap suc (length-map f xs)

pub range-All : (n k : ℕ) → n ≤ k → All (λ i. i < k) (range n)
range-All zero k h = tt
range-All (suc n) k h =
    All-append (λ i. i < k) (range n) (n ∷ []) (range-All n k (omega (arith, h)))
      (omega (arith, h), tt)

pub filter-All :
    (p : ℕ → Bool) (k : ℕ) (is : List ℕ) → All (λ i. i < k) is → All (λ i. i < k) (filter p is)
filter-All p k [] h = tt
filter-All p k (i ∷ is) h =
    if_of (All (λ i. i < k)) (p i) (h.0, filter-All p k is h.1) (filter-All p k is h.1)

pub length-range : (n : ℕ) → length (range n) ≡ n
length-range zero = refl
length-range (suc n) = length-append (range n) (n ∷ []) ∙ omega (arith, length-range n)
