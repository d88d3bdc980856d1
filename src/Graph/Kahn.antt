-- ===== src/Graph/Kahn.antt =====
-- The loop invariant of Kahn's algorithm, and what the loop returns.
use text.Mathlib.TextPositions.{eq_refl}
use text.Mathlib.TextEquality.{eq_iff}
use mathlib.Core.List.{append_assoc}
use vaic2026_charcalavong.Prelude.{
  ℕ, ◌<◌, String, ◌≡◌, refl, ap, sym, ◌∙◌, true, false, ◌||◌, List, [], ◌∷◌, ◌++◌, arith,
  if◌then◌else◌, ◌==◌, nat_eq, string_eq, pair_eq, elem, Distinct, elem-append, keep, elem-keep,
  Distinct-keep, Distinct-append, some, none, Dict, ok,
}
use vaic2026_charcalavong.Graph.{Edge, ℤ, pos, relax}
use vaic2026_charcalavong.Graph.Spec.{children, waiting, EndsIn, IsOrdered}
use vaic2026_charcalavong.Graph.Filling.{relax-eq}
use vaic2026_charcalavong.Graph.Spec.{IsTable}
use vaic2026_charcalavong.Graph.Waiting.{
  waiting-snoc, waiting-child, waiting-zero, Distinct-children,
}

abbrev Subset : List String → List String → Type 0
Subset xs ys = (k : String) → elem k xs ≡ true → elem k ys ≡ true

-- The keys found so far: those finished, and those in the queue.
pub record Progress (keys : List String) (edges : List Edge) (finished queue : List String)
    (indegree : Dict String ℤ) : Type 0 where
  pub degrees : IsTable keys (λ k. pos (waiting finished edges k)) indegree
  pub distinct : Distinct (finished ++ queue)
  pub known : Subset (finished ++ queue) keys
  pub ready :
      (k : String)
      → elem k keys ≡ true
      → elem k (finished ++ queue) ≡ (waiting finished edges k == 0)
  pub ordered : IsOrdered edges [] finished

IsOrdered-snoc :
    (edges : List Edge) (before xs : List String) (n : String)
    → IsOrdered edges before xs
    → ((s : String) → elem (s, n) edges ≡ true → (elem s before || elem s xs) ≡ true)
    → IsOrdered edges before (xs ++ n ∷ [])
unfolding elem
IsOrdered-snoc edges before [] n o h = (λ s m. ground (arith, h s m), tt)
IsOrdered-snoc edges before (x ∷ xs) n o h =
    (o.0, IsOrdered-snoc edges (x ∷ before) xs n o.1 (λ s m. ground (arith, h s m)))

Distinct-middle :
    (xs : List String) (n : String) (ys : List String) → Distinct (xs ++ n ∷ ys) → elem n xs ≡ false
unfolding elem
Distinct-middle [] n ys u = refl
Distinct-middle (x ∷ xs) n ys u =
    ground (arith, Distinct-middle xs n ys u.1, elem-append x xs (n ∷ ys), eq_iff x n, eq_iff n x)

children-known :
    (keys : List String) (edges : List Edge) (n : String)
    → EndsIn keys edges
    → Subset (children edges n) keys
unfolding elem
children-known keys [] n h k m = cc
children-known keys ((s, d) ∷ edges) n h k m =
    ground (arith, children-known keys edges n h.2 k, eq_iff d k)

module _ (keys : List String) (edges : List Edge) (ends : EndsIn keys edges)
    (u : Distinct edges) where
  module _ (finished : List String) (n : String) (queue : List String) (d : Dict String ℤ)
      (p : Progress keys edges finished (n ∷ queue) d) where
    abbrev freed : List String
    freed = keep (λ c. waiting finished edges c == 1) (children edges n)

    abbrev after : List String
    after = finished ++ n ∷ []

    new : elem n finished ≡ false
    new = Distinct-middle finished n queue p.distinct

    regroup : after ++ (queue ++ freed) ≡ (finished ++ n ∷ queue) ++ freed
    regroup =
        append_assoc finished (n ∷ []) (queue ++ freed)
        ∙ sym (append_assoc finished (n ∷ queue) freed)

    child_known :
        (c : String)
        → elem c (children edges n) ≡ true
        → (elem c keys ≡ true) × (0 < waiting finished edges c)
    child_known c m =
        (children-known keys edges n ends c m, waiting-child finished edges n c u new m)

    freed_mem :
        (c : String)
        → elem c freed ≡ true
        → (elem c (children edges n) ≡ true) × (waiting finished edges c ≡ 1)
    freed_mem c m =
        ground (arith, elem-keep (λ c. waiting finished edges c == 1) c (children edges n))

    freed_new : (c : String) → elem c freed ≡ true → elem c (finished ++ n ∷ queue) ≡ false
    freed_new c m = ground (arith, freed_mem c m, child_known c, p.ready c)

    Progress-ready :
        (k : String)
        → elem k keys ≡ true
        → elem k (after ++ (queue ++ freed)) ≡ (waiting after edges k == 0)
    Progress-ready k m =
        rw (regroup, elem-append)
          (ground (
            arith,
            p.ready k m,
            waiting-snoc finished edges n k u new,
            waiting-child finished edges n k u new,
            elem-keep (λ c. waiting finished edges c == 1) k (children edges n),
          ))

    Progress-known : Subset (after ++ (queue ++ freed)) keys
    Progress-known k m = ground (
      arith,
      ap (λ xs. elem k xs) regroup,
      elem-append k (finished ++ n ∷ queue) freed,
      p.known k,
      freed_mem k,
      child_known k,
    )

    here : elem n (finished ++ n ∷ queue) ≡ true
    here = rw elem-append (unfold elem in ground (arith, eq_refl n))

    pub head_known : elem n keys ≡ true
    head_known = p.known n here

    node_ready : waiting finished edges n ≡ 0
    node_ready = ground (arith, p.ready n head_known, here)

    pub Progress-step :
        (d' : Dict String ℤ) × (relax d queue (children edges n) ≡ ok (d', queue ++ freed))
        × Progress keys edges after (queue ++ freed) d'
    Progress-step =
        let (d', e, t) =
          relax-eq keys (waiting finished edges) d queue (children edges n)
            (Distinct-children edges n u) child_known p.degrees in
        (
          d',
          e,
          record {
            degrees = λ k.
                t k
                ∙ ap (λ (m : ℕ). if elem k keys then some (pos m) else none)
                    (sym (waiting-snoc finished edges n k u new));
            distinct = rw regroup (
                Distinct-append (finished ++ n ∷ queue) freed p.distinct
                  (Distinct-keep _ _ (Distinct-children edges n u)) freed_new);
            known = Progress-known;
            ready = Progress-ready;
            ordered =
                IsOrdered-snoc edges [] finished n p.ordered
                  (λ s m. ground (arith, waiting-zero finished edges s n node_ready m));
          },
        )
