-- ===== src/Graph/Reach.antt =====
-- `descendants` returns the keys that the edges lead to.
use text.Mathlib.TextEquality.{eq_iff}
use mathlib.Core.List.{append-nil, append_assoc, reverse}
use vaic2026_charcalavong.Prelude.{
  ℕ, zero, suc, ◌+◌, ◌≤◌, String, ◌≡◌, ◌≢◌, ◌↔◌, ◌⊎◌, refl, sym, ap, ◌∙◌, true, false, not, ◌||◌,
  List, [], ◌∷◌, ◌++◌, arith, if◌then◌else◌, ◌==◌, string_eq, pair_eq, elem, Distinct, ok, length,
  length-append, length-reverse, elem-reverse, elem-append, elem-keep, Distinct-keep, Bool-cases,
  inl, inr, keep, Dict, put, from_keys, lookup-from_keys, subst, ≢→beq, beq-ne, beq→≡,
}
use vaic2026_charcalavong.Graph.{Edge, link, get_list, visit, descendants}
use vaic2026_charcalavong.Graph.Spec.{children, EndsIn, Walk, edge, onward}
use vaic2026_charcalavong.Graph.Filling.{IsTable-put, IsTable-cong, subscript-eq}
use vaic2026_charcalavong.Graph.Spec.{IsTable}
use vaic2026_charcalavong.Graph.Waiting.{elem-children}

link-IsTable :
    (keys : List String) (cs : String → List String) (d : Dict String (List String))
    (edges : List Edge)
    → EndsIn keys edges
    → IsTable keys cs d
    → (d' : Dict String (List String)) × (link d edges ≡ ok d')
      × IsTable keys (λ k. cs k ++ children edges k) d'
unfolding link
link-IsTable keys cs d [] h t = (d, refl, IsTable-cong keys _ _ d (λ k. sym (append-nil (cs k))) t)
link-IsTable keys cs d ((s, t) ∷ edges) h table =
    let cs' = λ (k : String). if s == k then cs k ++ t ∷ [] else cs k in
    let (d', e, table') =
      link-IsTable keys cs' (put s (cs s ++ t ∷ []) d) edges h.2
        (IsTable-put keys cs cs' d s _ h.0 table (λ k. ground (arith, eq_iff s k))) in
    (
      d',
      rw (subscript-eq keys cs d s h.0 table) e,
      IsTable-cong keys _ _ d'
          (λ k. ground (arith, append_assoc (cs k) (t ∷ []) (children edges k))) table',
    )

no_children :
    (keys : List String) (edges : List Edge) (k : String)
    → EndsIn keys edges
    → elem k keys ≡ false
    → children edges k ≡ []
no_children keys [] k h out = refl
no_children keys ((s, t) ∷ edges) k h out =
    ground (arith, no_children keys edges k h.2 out, eq_iff s k)

get_list-children :
    (keys : List String) (edges : List Edge) (d : Dict String (List String))
    → EndsIn keys edges
    → IsTable keys (children edges) d
    → (k : String) → get_list d k ≡ children edges k
unfolding get_list
get_list-children keys edges d h t k = ground (arith, t k, no_children keys edges k h)

-- The number of edges out of keys that are not in `seen`.
outside : List String → List Edge → ℕ
outside seen [] = 0
outside seen ((s, t) ∷ edges) = if elem s seen then outside seen edges else suc (outside seen edges)

outside-cons :
    (seen : List String) (edges : List Edge) (k : String)
    → elem k seen ≡ false
    → outside (k ∷ seen) edges + length (children edges k) ≡ outside seen edges
unfolding outside elem
outside-cons seen [] k h = refl
outside-cons seen ((s, t) ∷ edges) k h =
    ground (arith, outside-cons seen edges k h, eq_iff k s, eq_iff s k)

outside-le : (seen : List String) (edges : List Edge) → outside seen edges ≤ length edges
unfolding outside
outside-le seen [] = omega arith
outside-le seen ((s, t) ∷ edges) = ground (arith, outside-le seen edges)

length-children-le : (edges : List Edge) (k : String) → length (children edges k) ≤ length edges
length-children-le [] k = omega arith
length-children-le ((s, t) ∷ edges) k = ground (arith, length-children-le edges k)

-- What the search holds on to: all it has met can be reached, and what follows a key that it has
-- left behind has been met.
record Search (edges : List Edge) (target : String) (stack seen : List String) : Type 0 where
  distinct : Distinct seen
  seen_reached : (k : String) → elem k seen ≡ true → Walk edges target k
  stack_reached : (k : String) → elem k stack ≡ true → Walk edges target k
  first : (k : String) → elem (target, k) edges ≡ true → (elem k seen || elem k stack) ≡ true
  closed :
      (j k : String)
      → elem j seen ≡ true
      → elem (j, k) edges ≡ true
      → (elem k seen || elem k stack) ≡ true

Walk-snoc :
    {edges : List Edge} {a b c : String}
    → Walk edges a b
    → elem (b, c) edges ≡ true
    → Walk edges a c
Walk-snoc (edge e) h = onward e (edge h)
Walk-snoc (onward e w) h = onward e (Walk-snoc w h)

module _ (edges : List Edge) (target : String) where
  Search-skip :
      (node : String) (stack seen : List String)
      → elem node seen ≡ true
      → Search edges target (node ∷ stack) seen
      → Search edges target stack seen
  unfolding elem
  Search-skip node stack seen old s = record {
    distinct = s.distinct;
    seen_reached = s.seen_reached;
    stack_reached = λ k m. s.stack_reached k (ground arith);
    first = λ k e. ground (arith, s.first k e, eq_iff node k);
    closed = λ j k m e. ground (arith, s.closed j k m e, eq_iff node k);
  }

  Search-open :
      (node : String) (stack seen : List String)
      → elem node seen ≡ false
      → Search edges target (node ∷ stack) seen
      → Search edges target (reverse (children edges node) ++ stack) (node ∷ seen)
  unfolding elem
  Search-open node stack seen new s = record {
    distinct = (new, s.distinct);
    seen_reached = λ k m. elim (Bool-cases (node == k)) [
      | inl t ↦
          subst (Walk edges target) (beq→≡ node k t)
            (s.stack_reached node (ground (arith, eq_iff node node)))
      | inr f ↦ s.seen_reached k (ground arith)
    ];
    stack_reached = λ k m. elim (Bool-cases (elem k (children edges node))) [
      | inl t ↦
          Walk-snoc (s.stack_reached node (ground (arith, eq_iff node node)))
            (sym (elem-children edges node k) ∙ t)
      | inr f ↦ s.stack_reached k (ground (arith, met k))
    ];
    first = λ k e. ground (arith, s.first k e, met k);
    closed = λ j k m e. elim (Bool-cases (node == j)) [
      | inl t ↦
          ground
            (arith, met k, elem-children edges node k, ap (λ x. elem (x, k) edges) (beq→≡ node j t))
      | inr f ↦ ground (arith, s.closed j k (ground arith) e, met k)
    ];
  }
    where
      met :
          (k : String)
          → elem k (reverse (children edges node) ++ stack)
            ≡ (elem k (children edges node) || elem k stack)
      met k = ground (
        arith,
        elem-append k (reverse (children edges node)) stack,
        elem-reverse k (children edges node),
      )

  module _ (adjacency : Dict String (List String))
      (links : (k : String) → get_list adjacency k ≡ children edges k) where
    visit-Search :
        (fuel : ℕ) (stack seen : List String)
        → length stack + outside seen edges ≤ fuel
        → Search edges target stack seen
        → (seen' : List String) × (visit fuel adjacency stack seen ≡ ok seen')
          × Search edges target [] seen'
    unfolding visit
    visit-Search zero [] seen h s = (seen, refl, s)
    visit-Search (suc fuel) [] seen h s = (seen, refl, s)
    visit-Search zero (node ∷ stack) seen h s = absurd (omega arith)
    visit-Search (suc fuel) (node ∷ stack) seen h s = elim (Bool-cases (elem node seen)) [
      | inl t ↦
          let (seen', e, s') =
            visit-Search fuel stack seen (omega arith) (Search-skip node stack seen t s) in
          (seen', rw t e, s')
      | inr f ↦
          let (seen', e, s') =
            visit-Search fuel (reverse (children edges node) ++ stack) (node ∷ seen)
              (omega (
                arith,
                length-append (reverse (children edges node)) stack,
                length-reverse (children edges node),
                outside-cons seen edges node f,
              ))
              (Search-open node stack seen f s) in
          (seen', rw f (rw (links node) e), s')
    ]

  Search-complete :
      {seen : List String} {a k : String}
      → Search edges target [] seen
      → (elem a seen ≡ true) ⊎ (a ≡ target)
      → Walk edges a k
      → elem k seen ≡ true
  unfolding elem
  Search-complete {a = a} {k = k} s (inl m) (edge e) = ground (arith, s.closed a k m e)
  Search-complete {a = a} {k = k} s (inr p) (edge e) =
      ground (arith, s.first k (subst (λ x. elem (x, k) edges ≡ true) p e))
  Search-complete {a = a} s (inl m) (onward {b = b} e w) =
      Search-complete s (inl (ground (arith, s.closed a b m e))) w
  Search-complete {a = a} s (inr p) (onward {b = b} e w) =
      Search-complete s
        (inl (ground (arith, s.first b (subst (λ x. elem (x, b) edges ≡ true) p e)))) w

-- Condition: every edge joins two node keys. Then the search ends with a set, each key once, that
-- holds a key exactly if some walk leads from `target` to it and it is not `target` itself.
pub descendants_lem :
    (keys : List String) (edges : List Edge) (target : String)
    → EndsIn keys edges
    → (seen : List String) × (descendants keys edges target ≡ ok seen)
      × Distinct seen
      × ((k : String) → (elem k seen ≡ true) ↔ (Walk edges target k × (k ≢ target)))
unfolding descendants
descendants_lem keys edges target ends =
    let (d, e, t) =
      link-IsTable keys (λ _. []) (from_keys keys []) edges ends
        (λ k. lookup-from_keys k [] keys) in
    let links = get_list-children keys edges d ends t in
    let (seen, e', s) =
      visit-Search edges target d links (length edges + length edges)
        (reverse (children edges target)) []
        (omega (
          arith,
          length-reverse (children edges target),
          length-children-le edges target,
          outside-le [] edges,
        ))
        (start) in
    (
      keep (λ k. not (k == target)) seen,
      rw e (rw (links target) (rw e' refl)),
      Distinct-keep (λ k. not (k == target)) seen s.distinct,
      λ k. (
        λ m. (s.seen_reached k (kept seen k m).0, (kept seen k m).1),
        λ (w, ne).
            rw elem-keep (rw (Search-complete edges target s (inr refl) w, ≢→beq k target ne) refl),
      ),
    )
  where
    start : Search edges target (reverse (children edges target)) []
    start =
        unfold elem in
        record {
          distinct = tt;
          seen_reached = λ k m. cc;
          stack_reached = λ k m. edge (
              sym (elem-children edges target k)
              ∙ sym (elem-reverse k (children edges target))
              ∙ m);
          first = λ k e. elem-reverse k (children edges target) ∙ elem-children edges target k ∙ e;
          closed = λ j k m e. cc;
        }

    kept :
        (seen : List String) (k : String)
        → elem k (keep (λ k. not (k == target)) seen) ≡ true
        → (elem k seen ≡ true) × (k ≢ target)
    kept seen k m = (
      ground (arith, elem-keep (λ k. not (k == target)) k seen),
      beq-ne k target (ground (arith, elem-keep (λ k. not (k == target)) k seen)),
    )
