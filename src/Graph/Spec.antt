-- ===== src/Graph/Spec.antt =====
-- What the topology code is measured by: the shape of a valid node and edge set, the children of
-- a key, the edges that still hold a key back, orders and ranks.
use vaic2026_charcalavong.Prelude.{
  ℕ, suc, ◌<◌, String, ◌≡◌, true, false, not, ◌&&◌, List, [], ◌∷◌, if◌then◌else◌, ◌==◌, string_eq,
  pair_eq, elem, none, some, Dict, lookup,
}
use vaic2026_charcalavong.Graph.{Edge}

-- The heads of the edges out of `k`, in edge order.
abbrev pub children : List Edge → String → List String
children [] k = []
children ((src, dst) ∷ edges) k = if src == k then dst ∷ children edges k else children edges k

-- The tails of the edges into `k`, in edge order.
abbrev pub parents : List Edge → String → List String
parents [] k = []
parents ((src, dst) ∷ edges) k = if dst == k then src ∷ parents edges k else parents edges k

-- The number of edges into `k` from keys outside `finished`.
abbrev pub waiting : List String → List Edge → String → ℕ
waiting finished [] k = 0
waiting finished ((src, dst) ∷ edges) k =
    if (dst == k) && not (elem src finished)
    then suc (waiting finished edges k)
    else waiting finished edges k

-- Both ends of every edge are keys.
abbrev pub EndsIn : List String → List Edge → Type 0
EndsIn keys [] = Unit {0}
EndsIn keys ((src, dst) ∷ edges) =
    (elem src keys ≡ true) × (elem dst keys ≡ true) × EndsIn keys edges

abbrev pub NoSelfLoop : List Edge → Type 0
NoSelfLoop [] = Unit {0}
NoSelfLoop ((src, dst) ∷ edges) = ((src == dst) ≡ false) × NoSelfLoop edges

-- `order` puts every key behind its parents; `before` holds the keys that stand before it.
abbrev pub IsOrdered : List Edge → List String → List String → Type 0
IsOrdered edges before [] = Unit {0}
IsOrdered edges before (k ∷ order) =
    ((s : String) → elem (s, k) edges ≡ true → elem s before ≡ true)
    × IsOrdered edges (k ∷ before) order

-- Every edge climbs: the edge set has no cycle.
abbrev pub IsRanked : (String → ℕ) → List Edge → Type 0
IsRanked rank edges = (s d : String) → elem (s, d) edges ≡ true → rank s < rank d

-- A way along one edge or more.
pub data Walk (edges : List Edge) : String → String → Type 0 where
  edge : {a b : String} → elem (a, b) edges ≡ true → Walk edges a b
  onward : {a b c : String} → elem (a, b) edges ≡ true → Walk edges b c → Walk edges a c

-- A table that has exactly `keys`, with the value `f k` at each.
abbrev pub IsTable {ℓ} : {V : Type ℓ} → List String → (String → V) → Dict String V → Type ℓ
IsTable keys f d = (k : String) → lookup k d ≡ (if elem k keys then some (f k) else none)
