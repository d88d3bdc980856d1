-- ===== src/Graph/Drain.antt =====
-- Kahn's loop ends with the fuel that it is given, with every key that waits for nothing listed.
use vaic2026_charcalavong.Prelude.{
  ℕ, zero, suc, ◌+◌, ◌≤◌, String, ◌≡◌, refl, ap, sym, ◌∙◌, subst, true, List, [], ◌∷◌, ◌++◌, arith,
  ◌==◌, nat_eq, string_eq, pair_eq, elem, Distinct, keep, elem-keep, Distinct-keep, Dict, ok, ◌>>=◌,
  length, length-append, length-le_of_subset, bind_cong, bind_assoc,
}
use mathlib.Core.List.{append-nil}
use vaic2026_charcalavong.Graph.{
  Edge, ℤ, pos, is_zero, relax, drain, consume, subscript, is_root, topological_order, Tables,
  enough,
}
use vaic2026_charcalavong.Graph.Spec.{children, waiting, EndsIn, IsOrdered}
use vaic2026_charcalavong.Graph.Filling.{subscript-eq, Filled, build-Filled, in_degree}
use vaic2026_charcalavong.Graph.Spec.{IsTable}
use vaic2026_charcalavong.Graph.Waiting.{waiting-nil}
use vaic2026_charcalavong.Graph.Kahn.{Progress, Progress-step, head_known}

pub record Listed (keys : List String) (edges : List Edge) (order : List String) : Type 0 where
  pub distinct : Distinct order
  pub known : (k : String) → elem k order ≡ true → elem k keys ≡ true
  pub ready : (k : String) → elem k keys ≡ true → elem k order ≡ (waiting order edges k == 0)
  pub ordered : IsOrdered edges [] order

module _ (keys : List String) (edges : List Edge) (ends : EndsIn keys edges) (u : Distinct edges)
    (adjacency : Dict String (List String)) (links : IsTable keys (children edges) adjacency) where
  Listed-end :
      (order : List String) (d : Dict String ℤ)
      → Progress keys edges order [] d
      → Listed keys edges order
  Listed-end order d p = record {
    distinct = subst Distinct (append-nil order) p.distinct;
    known = λ k m. p.known k (rw append-nil m);
    ready = λ k m. ap (elem k) (sym (append-nil order)) ∙ p.ready k m;
    ordered = p.ordered;
  }

  room :
      (finished : List String) (n : String) (queue : List String) (d : Dict String ℤ)
      → Progress keys edges finished (n ∷ queue) d
      → suc (length finished) ≤ length keys
  room finished n queue d p = omega (
    arith,
    length-append finished (n ∷ queue),
    length-le_of_subset (finished ++ n ∷ queue) keys p.distinct p.known,
  )

  pub drain-Listed :
      (fuel : ℕ) (queue finished : List String) (d : Dict String ℤ)
      → length keys ≤ fuel + length finished
      → Progress keys edges finished queue d
      → (order : List String) × (drain fuel adjacency d queue finished ≡ ok order)
        × Listed keys edges order
  unfolding drain
  drain-Listed zero [] finished d enough_fuel p = (finished, refl, Listed-end finished d p)
  drain-Listed (suc fuel) [] finished d enough_fuel p = (finished, refl, Listed-end finished d p)
  drain-Listed zero (n ∷ queue) finished d enough_fuel p =
      absurd (omega (arith, room finished n queue d p))
  drain-Listed (suc fuel) (n ∷ queue) finished d enough_fuel p =
      let (d', e, p') = Progress-step keys edges ends u finished n queue d p in
      let (order, e', l) =
        drain-Listed fuel _ (finished ++ n ∷ []) d' (omega (arith, length-append finished (n ∷ [])))
          p' in
      (
        order,
        rw
            (subscript-eq keys (children edges) adjacency n
              (head_known keys edges ends u finished n queue d p) links)
            (rw e e'),
        l,
      )

-- The counter counts what the other loop lists.
pub consume-drain :
    (fuel : ℕ) (adjacency : Dict String (List String)) (d : Dict String ℤ)
    (queue order : List String)
    → consume fuel adjacency d queue (length order)
      ≡ (drain fuel adjacency d queue order >>= λ o. ok (length o))
unfolding consume drain
consume-drain zero adjacency d [] order = refl
consume-drain (suc fuel) adjacency d [] order = refl
consume-drain zero adjacency d (n ∷ queue) order = refl
consume-drain (suc fuel) adjacency d (n ∷ queue) order =
    bind_cong (subscript adjacency n) _ _ (λ cs.
      bind_cong (relax d queue cs) _ _ (λ (d', q).
        rw (length-append order (n ∷ [])) at (consume-drain fuel adjacency d' q (order ++ n ∷ [])))
      ∙ sym (bind_assoc (relax d queue cs) _ _))
    ∙ sym (bind_assoc (subscript adjacency n) _ _)

is_zero-pos : (n : ℕ) → is_zero (pos n) ≡ (n == 0)
is_zero-pos zero = refl
is_zero-pos (suc n) = ground arith

module _ (keys : List String) (edges : List Edge) (distinct : Distinct keys)
    (ends : EndsIn keys edges) (u : Distinct edges) where
  module _ (t : Tables) (filled : Filled keys (in_degree edges) (children edges) t) where
    is_root-eq :
        (k : String) → elem k keys ≡ true → is_root t.indegree k ≡ (waiting [] edges k == 0)
    unfolding is_root
    is_root-eq k m =
        ground (arith, filled.degrees k, is_zero-pos (in_degree edges k), waiting-nil edges k)

    start : Progress keys edges [] (keep (is_root t.indegree) keys) t.indegree
    unfolding elem
    start = record {
      degrees = λ k. rw waiting-nil (filled.degrees k);
      distinct = Distinct-keep (is_root t.indegree) keys distinct;
      known = λ k m. ground (arith, elem-keep (is_root t.indegree) k keys);
      ready = λ k m. ground (arith, elem-keep (is_root t.indegree) k keys, is_root-eq k m);
      ordered = tt;
    }

  -- The order that the library function returns on a well-formed node and edge set.
  pub topological_order-Listed :
      (order : List String) × (topological_order keys edges ≡ ok order) × Listed keys edges order
  unfolding topological_order
  topological_order-Listed =
      let (t, e, f) = build-Filled keys edges ends in
      let (order, e', l) =
        drain-Listed keys edges ends u t.adjacency f.links (enough keys)
          (keep (is_root t.indegree) keys) [] t.indegree (omega arith) (start t f) in
      (order, rw e e', l)
