-- ===== src/Graph/Parents.antt =====
-- `parents_by_key` and `root_keys`.
use text.Mathlib.TextEquality.{eq_iff}
use mathlib.Core.List.{append-nil, append_assoc}
use vaic2026_charcalavong.Prelude.{
  String, ◌≡◌, ◌↔◌, refl, sym, Bool, true, false, not, none, some, List, [], ◌∷◌, ◌++◌, arith, map,
  if◌then◌else◌, ◌==◌, string_eq, pair_eq, elem, elem-keep, Dict, lookup, put, from_keys,
  lookup-from_keys, Bool-cases, inl, inr,
}
use vaic2026_charcalavong.Graph.{Edge, add_parents, parents_by_key, root_keys}
use vaic2026_charcalavong.Graph.Spec.{parents}
use vaic2026_charcalavong.Graph.Filling.{IsTable-put, IsTable-cong}
use vaic2026_charcalavong.Graph.Spec.{IsTable}

add_parents-IsTable :
    (keys : List String) (ps : String → List String) (d : Dict String (List String))
    (edges : List Edge)
    → IsTable keys ps d
    → IsTable keys (λ k. ps k ++ parents edges k) (add_parents d edges)
unfolding add_parents
add_parents-IsTable keys ps d [] t = IsTable-cong keys _ _ d (λ k. sym (append-nil (ps k))) t
add_parents-IsTable keys ps d ((s, c) ∷ edges) t = elim (Bool-cases (elem c keys)) [
  | inl known ↦
      let ps' = λ (k : String). if c == k then ps k ++ s ∷ [] else ps k in
      rw (t c, known)
        (λ k. regroup k (
          add_parents-IsTable keys ps' (put c (ps c ++ s ∷ []) d) edges
            (IsTable-put keys ps ps' d c _ known t (λ k. ground (arith, eq_iff c k))) k))
  | inr unknown ↦
      rw (t c, unknown) (λ k. missing unknown k (add_parents-IsTable keys ps d edges t k))
]
  where
    missing :
        elem c keys ≡ false
        → (k : String)
        → lookup k (add_parents d edges)
          ≡ (if elem k keys then some (ps k ++ parents edges k) else none)
        → lookup k (add_parents d edges) ≡ (
            if elem k keys
            then some (ps k ++ (if c == k then s ∷ parents edges k else parents edges k))
            else none)
    missing out k e = ground (arith, e, eq_iff c k)

    regroup :
        (k : String)
        → lookup k (add_parents (put c (ps c ++ s ∷ []) d) edges) ≡ (
            if elem k keys
            then some ((if c == k then ps k ++ s ∷ [] else ps k) ++ parents edges k)
            else none)
        → lookup k (add_parents (put c (ps c ++ s ∷ []) d) edges) ≡ (
            if elem k keys
            then some (ps k ++ (if c == k then s ∷ parents edges k else parents edges k))
            else none)
    regroup k e = ground (arith, e, append_assoc (ps k) (s ∷ []) (parents edges k))

abbrev is_empty : List String → Bool
is_empty [] = true
is_empty (x ∷ xs) = false

-- For every node key the table lists the tails of the edges into it, in the order in which the
-- edges were given; other keys are not in the table, whatever ends the edges have.
pub parents_by_key_lem :
    (keys : List String) (edges : List Edge)
    → IsTable keys (parents edges) (parents_by_key keys edges)
unfolding parents_by_key
parents_by_key_lem keys edges =
    add_parents-IsTable keys (λ _. []) (from_keys keys []) edges (λ k. lookup-from_keys k [] keys)

pub elem-parents : (edges : List Edge) (s k : String) → elem s (parents edges k) ≡ elem (s, k) edges
unfolding elem
elem-parents [] s k = refl
elem-parents ((a, b) ∷ edges) s k = ground (arith, elem-parents edges s k, eq_iff a s)

elem-heads :
    (edges : List Edge) (k : String)
    → elem k (map (λ (e : Edge). e.1) edges) ≡ not (is_empty (parents edges k))
unfolding elem
elem-heads [] k = refl
elem-heads ((a, b) ∷ edges) k = ground (arith, elem-heads edges k)

-- A root is a node key that `parents_by_key` gives no parent.
pub root_keys_lem :
    (keys : List String) (edges : List Edge) (k : String)
    → (elem k (root_keys keys edges) ≡ true) ↔ (lookup k (parents_by_key keys edges) ≡ some [])
unfolding root_keys elem
root_keys_lem keys edges k = ground (
  arith,
  elem-keep (λ k. not (elem k (map (λ (e : Edge). e.1) edges))) k keys,
  elem-heads edges k,
  parents_by_key_lem keys edges k,
)
