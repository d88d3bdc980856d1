-- ===== src/Graph/Filling.antt =====
-- What `indegree` and `adjacency` hold after the edges are counted, and after one node's
-- children are relaxed.
use text.Mathlib.TextEquality.{eq_iff}
use mathlib.Core.List.{append-nil, append_assoc}
use vaic2026_charcalavong.Prelude.{
  ℕ, zero, suc, ◌+◌, ◌-◌, ◌<◌, String, ◌≡◌, refl, sym, ap, ◌∙◌, true, List, [], ◌∷◌, ◌++◌, arith,
  ok, if◌then◌else◌, ◌==◌, nat_eq, string_eq, elem, keep, Dict, put, lookup-put, lookup-from_keys,
  beq→≡, inl, inr, Bool-cases, keep-cong, elem_self, elem_cons, Distinct, from_keys,
}
use vaic2026_charcalavong.Graph.{
  Edge, ℤ, pos, decrement, is_zero, subscript, Tables, fill, build, relax,
}
use vaic2026_charcalavong.Graph.Spec.{IsTable, children, EndsIn}

pub IsTable-put {ℓ} :
    {V : Type ℓ} (keys : List String) (f g : String → V) (d : Dict String V) (j : String) (v : V)
    → elem j keys ≡ true
    → IsTable keys f d
    → ((k : String) → g k ≡ (if j == k then v else f k))
    → IsTable keys g (put j v d)
IsTable-put keys f g d j v m t h k = elim (Bool-cases (j == k)) [
  | inl e ↦
      ground (arith, lookup-put j k v d, t k, h k, ap (λ (x : String). elem x keys) (beq→≡ j k e))
  | inr e ↦ ground (arith, lookup-put j k v d, t k, h k)
]

pub subscript-eq {ℓ} :
    {V : Type ℓ} (keys : List String) (f : String → V) (d : Dict String V) (j : String)
    → elem j keys ≡ true
    → IsTable keys f d
    → subscript d j ≡ ok (f j)
unfolding subscript
subscript-eq keys f d j m t = rw (t j, m)

-- The number of edges into `k`.
abbrev pub in_degree : List Edge → String → ℕ
in_degree [] k = 0
in_degree ((src, dst) ∷ edges) k = if dst == k then suc (in_degree edges k) else in_degree edges k

pub record Filled (keys : List String) (m : String → ℕ) (cs : String → List String) (t : Tables)
    : Type 0 where
  pub degrees : IsTable keys (λ k. pos (m k)) t.indegree
  pub links : IsTable keys cs t.adjacency

pub IsTable-cong {ℓ} :
    {V : Type ℓ} (keys : List String) (f g : String → V) (d : Dict String V)
    → ((k : String) → f k ≡ g k)
    → IsTable keys f d
    → IsTable keys g d
IsTable-cong keys f g d h t k = rw (← h k) (t k)

fill-Filled :
    (keys : List String) (m : String → ℕ) (cs : String → List String) (t : Tables)
    (edges : List Edge)
    → EndsIn keys edges
    → Filled keys m cs t
    → (t' : Tables) × (fill t edges ≡ ok t')
      × Filled keys (λ k. m k + in_degree edges k) (λ k. cs k ++ children edges k) t'
unfolding fill
fill-Filled keys m cs t [] h f = (
  t,
  refl,
  record {
    degrees = IsTable-cong keys _ _ t.indegree (λ k. ap pos (omega arith)) f.degrees;
    links = IsTable-cong keys _ _ t.adjacency (λ k. sym (append-nil (cs k))) f.links;
  },
)
fill-Filled keys m cs t ((src, dst) ∷ edges) h f =
    let m' = λ (k : String). if dst == k then suc (m k) else m k in
    let cs' = λ (k : String). if src == k then cs k ++ dst ∷ [] else cs k in
    let t1 : Tables = record {
      indegree = put dst (pos (suc (m dst))) t.indegree;
      adjacency = put src (cs src ++ dst ∷ []) t.adjacency;
    } in
    let (t', e, g) = fill-Filled keys m' cs' t1 edges h.2 (record {
      degrees =
          IsTable-put keys (λ k. pos (m k)) (λ k. pos (m' k)) t.indegree dst _ h.1 f.degrees
            (λ k. bump-eq dst k);
      links = IsTable-put keys cs cs' t.adjacency src _ h.0 f.links (λ k. push-eq src k);
    }) in
    (
      t',
      rw (subscript-eq keys _ t.indegree dst h.1 f.degrees)
          (rw (subscript-eq keys _ t.adjacency src h.0 f.links) e),
      record {
        degrees = IsTable-cong keys _ _ t'.indegree (λ k. ap pos (ground arith)) g.degrees;
        links =
            IsTable-cong keys _ _ t'.adjacency
              (λ k. ground (arith, append_assoc (cs k) (dst ∷ []) (children edges k))) g.links;
      },
    )
  where
    bump-eq :
        (j k : String)
        → pos (if j == k then suc (m k) else m k) ≡ (if j == k then pos (suc (m j)) else pos (m k))
    bump-eq j k = ground (arith, eq_iff j k)

    push-eq :
        (j k : String)
        → (if j == k then cs k ++ dst ∷ [] else cs k) ≡ (if j == k then cs j ++ dst ∷ [] else cs k)
    push-eq j k = ground (arith, eq_iff j k)

pub build-Filled :
    (keys : List String) (edges : List Edge)
    → EndsIn keys edges
    → (t : Tables) × (build keys edges ≡ ok t) × Filled keys (in_degree edges) (children edges) t
unfolding build
build-Filled keys edges h =
    let (t, e, f) =
      fill-Filled keys (λ _. 0) (λ _. []) _ edges h
        (record { degrees = lookup-from_keys' (pos 0); links = lookup-from_keys' [] }) in
    (
      t,
      e,
      record {
        degrees = IsTable-cong keys _ _ t.indegree (λ k. ap pos (omega arith)) f.degrees;
        links = f.links;
      },
    )
  where
    lookup-from_keys' : {V : Type 0} (v : V) → IsTable keys (λ _. v) (from_keys keys v)
    lookup-from_keys' v k = lookup-from_keys k v keys

decrement-pos : (n : ℕ) → 0 < n → decrement (pos n) ≡ pos (n - 1)
decrement-pos zero h = absurd (omega arith)
decrement-pos (suc n) h = ap pos (omega arith)

is_zero-decrement : (n : ℕ) → 0 < n → is_zero (decrement (pos n)) ≡ (n == 1)
is_zero-decrement zero h = absurd (omega arith)
is_zero-decrement (suc zero) h = refl
is_zero-decrement (suc (suc n)) h = ground arith

-- After a node's children are relaxed, each has one edge less to wait for, and those that waited
-- for one edge are behind the queue.
pub relax-eq :
    (keys : List String) (m : String → ℕ) (d : Dict String ℤ) (queue cs : List String)
    → Distinct cs
    → ((c : String) → elem c cs ≡ true → (elem c keys ≡ true) × (0 < m c))
    → IsTable keys (λ k. pos (m k)) d
    → (d' : Dict String ℤ) × (relax d queue cs ≡ ok (d', queue ++ keep (λ c. m c == 1) cs))
      × IsTable keys (λ k. pos (if elem k cs then m k - 1 else m k)) d'
unfolding relax elem keep
relax-eq keys m d queue [] u h t = (d, rw append-nil, t)
relax-eq keys m d queue (c ∷ cs) u h t =
    let m' = λ (k : String). if c == k then m k - 1 else m k in
    let queue' = if m c == 1 then queue ++ c ∷ [] else queue in
    let m_pos = (h c (elem_self c cs)).1 in
    let c_key = (h c (elem_self c cs)).0 in
    let (d', e, t') =
      relax-eq keys m' (put c (pos (m c - 1)) d) queue' cs u.1
        (λ c' in_cs. ground (arith, h c' (elem_cons c c' cs in_cs), eq_iff c c'))
        (IsTable-put keys (λ k. pos (m k)) _ d c (pos (m c - 1)) c_key t
          (λ k. ground (arith, eq_iff c k))) in
    (
      d',
      rw (subscript-eq keys _ d c c_key t) (
          rw (is_zero-decrement (m c) m_pos, decrement-pos (m c) m_pos)
            (e ∙ ap (λ q. ok (d', q)) (grown m_pos))),
      λ k. ground (arith, t' k, eq_iff c k),
    )
  where
    same : (x : String) → elem x cs ≡ true → ((if c == x then m x - 1 else m x) == 1) ≡ (m x == 1)
    same x in_cs = ground (arith, eq_iff c x)

    grown :
        0 < m c
        → (if m c == 1 then queue ++ c ∷ [] else queue)
            ++ keep (λ x. (if c == x then m x - 1 else m x) == 1) cs
          ≡ queue ++ (if m c == 1 then c ∷ keep (λ x. m x == 1) cs else keep (λ x. m x == 1) cs)
    grown h =
        rw (keep-cong _ (λ x. m x == 1) cs same)
          (ground (arith, append_assoc queue (c ∷ []) (keep (λ x. m x == 1) cs)))
