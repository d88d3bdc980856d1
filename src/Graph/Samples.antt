-- ===== src/Graph/Samples.antt =====
-- A diamond, a cycle, and what graph_validation.py does on them.
use vaic2026_charcalavong.Prelude.{
  ℕ, String, ◌≡◌, ◌≢◌, ◌↔◌, refl, true, List, [], ◌∷◌, arith, elem, put, from_keys, keep, Distinct,
  ok, raise, some, lookup, string_eq, nat_eq,
}
use vaic2026_charcalavong.Graph.{
  Edge, cycle, duplicate_key, unknown_to, self_loop, duplicate_edge, assert_valid_graph,
  topological_order, descendants, parents_by_key, root_keys,
}
use vaic2026_charcalavong.Graph.Spec.{IsOrdered, IsRanked, Walk, edge, onward, parents}
use vaic2026_charcalavong.Graph.Spec.{IsTable}
use vaic2026_charcalavong.Graph.Checks.{IsSettled}
use vaic2026_charcalavong.Graph.Order.{topological_order_lem}
use vaic2026_charcalavong.Graph.Valid.{
  IsWellFormed, assert_valid_graph_iff, assert_valid_graph_cycle, assert_valid_graph-IsSettled,
}
use vaic2026_charcalavong.Graph.Reach.{descendants_lem}
use vaic2026_charcalavong.Graph.Parents.{parents_by_key_lem, root_keys_lem}

abbrev keys : List String
keys = "a" ∷ "b" ∷ "c" ∷ "d" ∷ []

abbrev diamond : List Edge
diamond = ("a", "b") ∷ ("a", "c") ∷ ("b", "d") ∷ ("c", "d") ∷ []

abbrev loop : List Edge
loop = ("a", "b") ∷ ("b", "c") ∷ ("c", "b") ∷ []

program : Unit {0}
unfolding assert_valid_graph topological_order descendants parents_by_key root_keys elem lookup put
    from_keys keep
program = tt

order_diamond : topological_order keys diamond ≡ ok keys
unfolding program
order_diamond = refl

valid_diamond : assert_valid_graph keys diamond ≡ ok tt
unfolding program
valid_diamond = refl

errors :
    (assert_valid_graph keys loop ≡ raise cycle)
    × (assert_valid_graph ("a" ∷ "a" ∷ []) [] ≡ raise (duplicate_key "a"))
    × (assert_valid_graph keys (("a", "x") ∷ []) ≡ raise (unknown_to "x"))
    × (assert_valid_graph keys (("a", "a") ∷ []) ≡ raise (self_loop "a"))
    × (assert_valid_graph keys (("a", "b") ∷ ("a", "b") ∷ []) ≡ raise (duplicate_edge "a" "b"))
unfolding program
errors = (refl, refl, refl, refl, refl)

descendants_b : descendants keys diamond "a" ≡ ok ("b" ∷ "d" ∷ "c" ∷ [])
unfolding program
descendants_b = refl

assert_valid_graph_iff_example :
    (assert_valid_graph keys diamond ≡ ok tt)
    ↔ (IsWellFormed keys diamond × ((rank : String → ℕ) × IsRanked rank diamond))
assert_valid_graph_iff_example = assert_valid_graph_iff keys diamond

loop-IsWellFormed : IsWellFormed keys loop
unfolding elem
loop-IsWellFormed = record {
  distinct_keys = ground arith;
  ends = ground arith;
  no_loop = ground arith;
  distinct_edges = ground arith;
}

assert_valid_graph_cycle_example : assert_valid_graph keys loop ≡ raise cycle
unfolding elem
assert_valid_graph_cycle_example =
    assert_valid_graph_cycle keys loop "b" loop-IsWellFormed (onward {b = "c"} refl (edge refl))

assert_valid_graph-IsSettled_example : IsSettled (assert_valid_graph keys loop)
assert_valid_graph-IsSettled_example = assert_valid_graph-IsSettled keys loop

diamond_accepted : IsWellFormed keys diamond × ((rank : String → ℕ) × IsRanked rank diamond)
diamond_accepted = (assert_valid_graph_iff keys diamond).0 valid_diamond

topological_order_lem_example :
    (order : List String) × (topological_order keys diamond ≡ ok order)
    × Distinct order
    × ((k : String) → elem k order ≡ elem k keys)
    × IsOrdered diamond [] order
topological_order_lem_example =
    topological_order_lem keys diamond diamond_accepted.1.0 diamond_accepted.0.distinct_keys
      diamond_accepted.0.ends diamond_accepted.0.distinct_edges diamond_accepted.1.1

descendants_lem_example :
    (seen : List String) × (descendants keys diamond "a" ≡ ok seen)
    × Distinct seen
    × ((k : String) → (elem k seen ≡ true) ↔ (Walk diamond "a" k × (k ≢ "a")))
descendants_lem_example = descendants_lem keys diamond "a" diamond_accepted.0.ends

parents_by_key_lem_example : IsTable keys (parents diamond) (parents_by_key keys diamond)
parents_by_key_lem_example = parents_by_key_lem keys diamond

root_keys_lem_example :
    (elem "a" (root_keys keys diamond) ≡ true)
    ↔ (lookup "a" (parents_by_key keys diamond) ≡ some [])
root_keys_lem_example = root_keys_lem keys diamond "a"
