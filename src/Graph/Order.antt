-- ===== src/Graph/Order.antt =====
-- `topological_order` on a node and edge set without a cycle, and ranks from orders.
use text.Mathlib.TextEquality.{eq_iff}
use vaic2026_charcalavong.Prelude.{
  ℕ, zero, suc, ◌<◌, String, ◌≡◌, refl, sym, ◌⊎◌, inl, inr, Bool, true, false, List, [], ◌∷◌, arith,
  if◌then◌else◌, ◌==◌, nat_eq, string_eq, pair_eq, elem, Distinct, ok, Bool-cases, ◌∙◌, beq→≡,
  subst,
}
use vaic2026_charcalavong.Graph.{Edge, topological_order}
use vaic2026_charcalavong.Graph.Spec.{waiting, EndsIn, IsOrdered, IsRanked, Walk, edge, onward}
use vaic2026_charcalavong.Graph.Waiting.{waiting-pos}
use vaic2026_charcalavong.Graph.Drain.{Listed, topological_order-Listed}

pub source_known :
    (keys : List String) (edges : List Edge) (s d : String)
    → EndsIn keys edges
    → elem (s, d) edges ≡ true
    → (elem s keys ≡ true) × (elem d keys ≡ true)
unfolding elem
source_known keys [] s d h m = cc
source_known keys ((a, b) ∷ edges) s d h m =
    ground (arith, source_known keys edges s d h.2, eq_iff a s, eq_iff b d)

module _ (keys : List String) (edges : List Edge) (ends : EndsIn keys edges) (rank : String → ℕ)
    (ranked : IsRanked rank edges) (order : List String) (l : Listed keys edges order) where
  covers_below :
      (bound : ℕ) (k : String) → elem k keys ≡ true → rank k < bound → elem k order ≡ true
  covers_below zero k m h = absurd (omega arith)
  covers_below (suc bound) k m h = elim (Bool-cases (waiting order edges k == 0)) [
    | inl none_left ↦ l.ready k m ∙ none_left
    | inr some_left ↦
        let (s, e, out) = waiting-pos order edges k (ground arith) in
        let inside =
          covers_below bound s (source_known keys edges s k ends e).0
            (omega (arith, ranked s k e)) in
        cc
  ]

  -- Without a cycle nothing is left over.
  pub covers : (k : String) → elem k keys ≡ true → elem k order ≡ true
  covers k m = covers_below (suc (rank k)) k m (omega arith)

-- The place of a key in a list.
unfoldable pub index : String → List String → ℕ
index k [] = 0
index k (x ∷ xs) = if x == k then 0 else suc (index k xs)

index-lt :
    (edges : List Edge) (before order : List String) (s d : String)
    → IsOrdered edges before order
    → elem (s, d) edges ≡ true
    → elem d order ≡ true
    → (elem s before ≡ true) ⊎ (index s order < index d order)
unfolding index elem
index-lt edges before [] s d o e m = cc
index-lt edges before (k ∷ order) s d o e m = elim (Bool-cases (k == d)) [
  | inl t ↦ inl (o.0 s (subst (λ x. elem (s, x) edges ≡ true) (sym (beq→≡ k d t)) e))
  | inr f ↦ ground (arith, index-lt edges (k ∷ before) order s d o.1 e (ground arith))
]

pub index-IsRanked :
    (keys : List String) (edges : List Edge) (order : List String)
    → EndsIn keys edges
    → IsOrdered edges [] order
    → ((k : String) → elem k keys ≡ true → elem k order ≡ true)
    → IsRanked (λ k. index k order) edges
unfolding elem
index-IsRanked keys edges order ends o all s d e =
    ground (arith, index-lt edges [] order s d o e (all d (source_known keys edges s d ends e).1))

pub Walk-climbs :
    {edges : List Edge} {a b : String} (rank : String → ℕ)
    → IsRanked rank edges
    → Walk edges a b
    → rank a < rank b
Walk-climbs rank r (edge e) = r _ _ e
Walk-climbs rank r (onward e w) = omega (arith, r _ _ e, Walk-climbs rank r w)

-- Conditions: the node keys are distinct, every edge joins two of them, no edge occurs twice, and
-- some rank climbs along every edge. Then the function returns a list of keys that holds each node
-- key once and no other key, and in which every key stands behind all of its parents.
pub topological_order_lem :
    (keys : List String) (edges : List Edge) (rank : String → ℕ)
    → Distinct keys
    → EndsIn keys edges
    → Distinct edges
    → IsRanked rank edges
    → (order : List String) × (topological_order keys edges ≡ ok order)
      × Distinct order
      × ((k : String) → elem k order ≡ elem k keys)
      × IsOrdered edges [] order
topological_order_lem keys edges rank distinct ends u ranked =
    let (order, e, l) = topological_order-Listed keys edges distinct ends u in
    (
      order,
      e,
      l.distinct,
      λ k.
          same_test (elem k order) (elem k keys) (l.known k)
            (covers keys edges ends rank ranked order l k),
      l.ordered,
    )
  where
    same_test : (a b : Bool) → (a ≡ true → b ≡ true) → (b ≡ true → a ≡ true) → a ≡ b
    same_test true b f g = sym (f refl)
    same_test false true f g = g refl
    same_test false false f g = refl
