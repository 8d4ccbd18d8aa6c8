-- ===== src/JsMap.antt =====
-- The `Map` of JavaScript: entries in the order of their first insertion. The store indexes nodes
-- by id and messages by signature with it (frontend/src/store/clusterStore.js).
use raft_visualizer.Prelude.{
  ◌≡◌, refl, ◌∙◌, Bool, true, false, Option, none, some, List, [], ◌∷◌, arith, Eq, ◌==◌,
  if◌then◌else◌,
}

module _ {ℓ κ} {K : Type ℓ} {V : Type κ} ⦃e : Eq K⦄ where
  -- `m.get(k)`
  abbrev pub get : List (K × V) → K → Option V
  get [] k = none
  get ((j, v) ∷ m) k = if j == k then some v else get m k

  -- `m.set(k, v)`: a known key keeps its place.
  abbrev pub set : List (K × V) → K → V → List (K × V)
  set [] k v = (k, v) ∷ []
  set ((j, w) ∷ m) k v = if j == k then (j, v) ∷ m else (j, w) ∷ set m k v

  -- `m.has(k)`
  abbrev pub has : List (K × V) → K → Bool
  has m k = elim (get m k) [ none ↦ false | some _ ↦ true ]

  -- `new Map(entries)`, into a map that may hold entries already.
  abbrev pub set_all : List (K × V) → List (K × V) → List (K × V)
  set_all m [] = m
  set_all m ((k, v) ∷ es) = set_all (set m k v) es

  pub get-set :
      (m : List (K × V)) (k j : K) (v : V)
      → get (set m k v) j ≡ (if k == j then some v else get m j)
  get-set [] k j v = refl
  get-set ((i, w) ∷ m) k j v =
      ground (arith, e.same_iff i k, e.same_iff i j, e.same_iff k j, get-set m k j v)

  -- No key stands twice.
  abbrev pub HasDistinctKeys : List (K × V) → Type κ
  HasDistinctKeys [] = Unit
  HasDistinctKeys ((k, v) ∷ m) = (get m k ≡ none) × HasDistinctKeys m

  pub set-HasDistinctKeys :
      (m : List (K × V)) (k : K) (v : V) → HasDistinctKeys m → HasDistinctKeys (set m k v)
  set-HasDistinctKeys [] k v h = (refl, tt)
  set-HasDistinctKeys ((j, w) ∷ m) k v h =
      ground (arith, set-HasDistinctKeys m k v h.1, get-set m k j v, e.same_iff j k, e.same_iff k j)

  -- The value that the entries leave at a key, over the one that was there.
  abbrev pub last_value : Option V → List (K × V) → K → Option V
  last_value o [] k = o
  last_value o ((j, v) ∷ es) k = last_value (if j == k then some v else o) es k

  pub get-set_all : (m es : List (K × V)) (k : K) → get (set_all m es) k ≡ last_value (get m k) es k
  get-set_all m [] k = refl
  get-set_all m ((j, v) ∷ es) k =
      get-set_all (set m j v) es k ∙ (λ i. last_value (get-set m j k v i) es k)
