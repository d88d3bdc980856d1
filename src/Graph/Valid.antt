-- ===== src/Graph/Valid.antt =====
-- `assert_valid_graph` accepts exactly the directed acyclic graphs.
use vaic2026_charcalavong.Prelude.{
  ℕ, String, ◌≡◌, ◌↔◌, refl, sym, ap, ◌∙◌, true, List, [], ◌∷◌, arith, if◌then◌else◌, ◌==◌, nat_eq,
  string_eq, pair_eq, elem, Distinct, ok, raise, ◌>>=◌, length, length-le_of_subset, Bool-cases,
  inl, inr, subst, keep, beq→≡, beq_refl, bind-eq-ok, bind_cong, bind_assoc,
}
use vaic2026_charcalavong.Graph.{
  Edge, Checked, cycle, check_keys, check_edges, build, drain, consume, is_root, enough,
  topological_order, assert_valid_graph, Tables,
}
use vaic2026_charcalavong.Graph.Spec.{EndsIn, NoSelfLoop, IsRanked, Walk}
use vaic2026_charcalavong.Graph.Checks.{
  Fresh-Distinct, Distinct-Fresh, check_keys-ok, check_keys-Fresh, check_keys-elem, check_edges-ok,
  check_edges-Passed, EndsIn-cong, IsSettled, IsSettled-bind, check_keys-IsSettled,
  check_edges-IsSettled,
}
use vaic2026_charcalavong.Graph.Drain.{Listed, topological_order-Listed, consume-drain}
use vaic2026_charcalavong.Graph.Order.{covers, index, index-IsRanked, Walk-climbs}

-- What the checks before the Kahn pass establish.
pub record IsWellFormed (keys : List String) (edges : List Edge) : Type 0 where
  pub distinct_keys : Distinct keys
  pub ends : EndsIn keys edges
  pub no_loop : NoSelfLoop edges
  pub distinct_edges : Distinct edges

-- The check at the end, on the order that the other function returns.
abbrev all_consumed : List String → List String → Checked (Unit {0})
all_consumed keys order = if length order == length keys then ok tt else raise cycle

kahn_pass :
    (keys : List String) (edges : List Edge)
    → (build keys edges >>= λ t.
        consume (enough keys) t.adjacency t.indegree (keep (is_root t.indegree) keys) 0
        >>= λ consumed. if consumed == length keys then ok tt else raise cycle)
      ≡ (topological_order keys edges >>= all_consumed keys)
unfolding topological_order
kahn_pass keys edges =
    bind_cong (build keys edges) _ _ (λ t. counted t) ∙ sym (bind_assoc (build keys edges) _ _)
  where
    counted :
        (t : Tables)
        → (consume (enough keys) t.adjacency t.indegree (keep (is_root t.indegree) keys) 0
            >>= λ consumed. if consumed == length keys then ok tt else raise cycle)
          ≡ (drain (enough keys) t.adjacency t.indegree (keep (is_root t.indegree) keys) []
              >>= all_consumed keys)
    counted t =
        ap
          (λ (m : Checked ℕ).
            m >>= λ consumed. if consumed == length keys then ok tt else raise cycle)
          (consume-drain (enough keys) t.adjacency t.indegree (keep (is_root t.indegree) keys) [])
        ∙ bind_assoc
            (drain (enough keys) t.adjacency t.indegree (keep (is_root t.indegree) keys) []) _ _

module _ (keys : List String) (edges : List Edge) where
  -- On a well-formed set only the Kahn pass is left.
  assert_valid_graph-eq :
      IsWellFormed keys edges
      → assert_valid_graph keys edges ≡ (topological_order keys edges >>= all_consumed keys)
  unfolding assert_valid_graph elem
  assert_valid_graph-eq w =
      let (seen, e, same) = check_keys-ok [] keys (Distinct-Fresh keys w.distinct_keys) in
      rw
        (
          e,
          check_edges-ok seen [] edges (EndsIn-cong keys seen edges (λ k. sym (same k)) w.ends)
              w.no_loop (Distinct-Fresh edges w.distinct_edges),
        )
        (kahn_pass keys edges)

  accepted-IsWellFormed : assert_valid_graph keys edges ≡ ok tt → IsWellFormed keys edges
  unfolding assert_valid_graph elem
  accepted-IsWellFormed h =
      let (seen, e, h') = bind-eq-ok (check_keys [] keys) _ h in
      let (u, e', h'') = bind-eq-ok (check_edges seen [] edges) _ h' in
      let f = check_keys-Fresh [] keys seen e in
      let p = check_edges-Passed seen [] edges e' in
      record {
        distinct_keys = Fresh-Distinct keys f;
        ends = EndsIn-cong seen keys edges (check_keys-elem [] keys seen e) p.ends;
        no_loop = p.no_loop;
        distinct_edges = Fresh-Distinct edges p.fresh;
      }

  Listed-complete :
      (order : List String)
      → Listed keys edges order
      → length order ≡ length keys
      → Distinct keys
      → (k : String) → elem k keys ≡ true
      → elem k order ≡ true
  unfolding elem
  Listed-complete order l same distinct k m = elim (Bool-cases (elem k order)) [
    | inl t ↦ t
    | inr f ↦ absurd (
        omega (
          arith,
          length-le_of_subset (k ∷ order) keys (f, l.distinct)
              (λ x in_order. elim (Bool-cases (k == x)) [
                | inl t ↦ subst (λ y. elem y keys ≡ true) (beq→≡ k x t) m
                | inr other ↦ l.known x (ground arith)
              ]),
        ))
  ]

  -- `assert_valid_graph` accepts exactly if the node keys are distinct, every edge joins two node
  -- keys, no edge is a self-loop or occurs twice, and some rank of the keys climbs along every
  -- edge (there is no cycle).
  pub assert_valid_graph_iff :
      (assert_valid_graph keys edges ≡ ok tt)
      ↔ (IsWellFormed keys edges × ((rank : String → ℕ) × IsRanked rank edges))
  assert_valid_graph_iff = (accepted, accepts)
    where
      accepted :
          assert_valid_graph keys edges ≡ ok tt
          → IsWellFormed keys edges × ((rank : String → ℕ) × IsRanked rank edges)
      accepted h =
          let w = accepted-IsWellFormed h in
          let (order, e, l) =
            topological_order-Listed keys edges w.distinct_keys w.ends w.distinct_edges in
          let ended : all_consumed keys order ≡ ok tt =
            (ap (λ (m : Checked (List String)). m >>= all_consumed keys) (sym e)
              ∙ sym (assert_valid_graph-eq w))
            ∙ h in
          let same : length order ≡ length keys = ground arith in
          (
            w,
            (
              (λ k. index k order),
              index-IsRanked keys edges order w.ends l.ordered
                  (Listed-complete order l same w.distinct_keys),
            ),
          )

      accepts :
          IsWellFormed keys edges × ((rank : String → ℕ) × IsRanked rank edges)
          → assert_valid_graph keys edges ≡ ok tt
      accepts (w, (rank, r)) =
          let (order, e, l) =
            topological_order-Listed keys edges w.distinct_keys w.ends w.distinct_edges in
          let same : length order ≡ length keys = omega (
            arith,
            length-le_of_subset order keys l.distinct l.known,
            length-le_of_subset keys order w.distinct_keys
                (covers keys edges w.ends rank r order l),
          ) in
          rw (assert_valid_graph-eq w, e, same, beq_refl (length keys)) refl

  -- Conditions: the set is well formed, and some key has a way back to itself. Then the error is
  -- the one for a cycle.
  pub assert_valid_graph_cycle :
      (k : String)
      → IsWellFormed keys edges
      → Walk edges k k
      → assert_valid_graph keys edges ≡ raise cycle
  assert_valid_graph_cycle k w walk =
      let (order, e, l) =
        topological_order-Listed keys edges w.distinct_keys w.ends w.distinct_edges in
      let outcome : assert_valid_graph keys edges ≡ all_consumed keys order =
        assert_valid_graph-eq w ∙ ap (λ (m : Checked (List String)). m >>= all_consumed keys) e in
      elim (Bool-cases (length order == length keys)) [
        | inl t ↦
            let (_, (rank, r)) = assert_valid_graph_iff.0 (outcome ∙ rw t refl) in
            absurd (omega (arith, Walk-climbs rank r walk))
        | inr f ↦ outcome ∙ rw f refl
      ]

  -- Whatever the input, the outcome is acceptance or a `GraphValidationError`: no subscript misses
  -- its key, and the loop ends.
  pub assert_valid_graph-IsSettled : IsSettled (assert_valid_graph keys edges)
  unfolding assert_valid_graph elem
  assert_valid_graph-IsSettled =
      IsSettled-bind (check_keys [] keys) _ (check_keys-IsSettled [] keys) λ seen e.
        IsSettled-bind (check_edges seen [] edges) _ (check_edges-IsSettled seen [] edges) λ u e'.
          let f = check_keys-Fresh [] keys seen e in
          let p = check_edges-Passed seen [] edges e' in
          let (order, e'', l) =
            topological_order-Listed keys edges (Fresh-Distinct keys f)
              (EndsIn-cong seen keys edges (check_keys-elem [] keys seen e) p.ends)
              (Fresh-Distinct edges p.fresh) in
          subst IsSettled
            (sym (
              kahn_pass keys edges
              ∙ ap (λ (m : Checked (List String)). m >>= all_consumed keys) e''))
            (settled order)
    where
      settled : (order : List String) → IsSettled (all_consumed keys order)
      settled order = elim (Bool-cases (length order == length keys)) [
        | inl t ↦ rw t tt
        | inr f ↦ rw f tt
      ]
