-- ===== src/Engine/Next.antt =====
-- The choice of the next node: it raises nothing on a complete table, and finds the first key of
-- the order that is pending with all parents completed.
use vaic2026_charcalavong.Prelude.{
  String, ◌≡◌, refl, ap, ◌∙◌, inl, inr, Bool, true, false, ◌&&◌, Option, none, some, List, [], ◌∷◌,
  arith, if◌then◌else◌, string_eq, ok, ◌>>=◌, elem, elem_self, elem_cons, all, Dict, lookup,
  Bool-cases,
}
use text.Mathlib.TextEquality.{eq_iff}
use vaic2026_charcalavong.Graph.Spec.{IsTable}
use vaic2026_charcalavong.Store.{
  RunNodeExecution, pending, completed, is_status, Fields, end, field,
}
use vaic2026_charcalavong.Engine.Types.{fetch}
use vaic2026_charcalavong.Engine.Node.{outputs, or_null}
use vaic2026_charcalavong.Engine.Final.{has_status}
use vaic2026_charcalavong.Engine.Loop.{all_completed, find_next}

-- Every one of `keys` has a row.
abbrev pub Covers : List String → Dict String RunNodeExecution → Type 0
Covers keys execs =
    (k : String) → elem k keys ≡ true → (r : RunNodeExecution) × (lookup k execs ≡ some r)

abbrev pub runnable : Dict String RunNodeExecution → (String → List String) → String → Bool
runnable execs parents k =
    has_status pending execs k && all (has_status completed execs) (parents k)

abbrev pub first_runnable :
    Dict String RunNodeExecution → (String → List String) → List String → Option RunNodeExecution
first_runnable execs parents [] = none
first_runnable execs parents (k ∷ ks) =
    if runnable execs parents k then lookup k execs else first_runnable execs parents ks

pub fetch-eq {ℓ} :
    {V : Type ℓ} (d : Dict String V) (k : String) (v : V) → lookup k d ≡ some v → fetch d k ≡ ok v
unfolding fetch
fetch-eq d k v e = rw e refl

pub Covers-tail :
    (execs : Dict String RunNodeExecution) (k : String) (ks : List String)
    → Covers (k ∷ ks) execs
    → Covers ks execs
Covers-tail execs k ks c j m = c j (elem_cons k j ks m)

all_completed-eq :
    (execs : Dict String RunNodeExecution) (ps : List String)
    → Covers ps execs
    → all_completed execs ps ≡ ok (all (has_status completed execs) ps)
unfolding all_completed all
all_completed-eq execs [] c = refl
all_completed-eq execs (p ∷ ps) c =
    let (r, e) = c p (elem_self p ps) in
    rw (fetch-eq execs p r e)
      (ground (arith, e, all_completed-eq execs ps (Covers-tail execs p ps c)))

pub outputs-ok :
    (execs : Dict String RunNodeExecution) (ps : List String)
    → Covers ps execs
    → (fields : Fields) × (outputs execs ps ≡ ok fields)
unfolding outputs
outputs-ok execs [] c = (end, refl)
outputs-ok execs (p ∷ ps) c =
    let (r, e) = c p (elem_self p ps) in
    let (fields, e') = outputs-ok execs ps (Covers-tail execs p ps c) in
    (field p (or_null r.output) fields, rw (fetch-eq execs p r e) (rw e' refl))

module _ (keys : List String) (execs : Dict String RunNodeExecution)
    (table : Dict String (List String)) (parents : String → List String)
    (is_table : IsTable keys parents table) (covers : Covers keys execs)
    (known : (k p : String) → elem p (parents k) ≡ true → elem p keys ≡ true) where
  pub find_next-eq :
      (order : List String)
      → ((k : String) → elem k order ≡ true → elem k keys ≡ true)
      → find_next execs table order ≡ ok (first_runnable execs parents order)
  unfolding find_next
  find_next-eq [] h = refl
  find_next-eq (k ∷ order) h =
      let k_in = h k (elem_self k order) in
      let (r, e) = covers k k_in in
      let rest = find_next-eq order (λ j m. h j (elem_cons k j order m)) in
      rw (fetch-eq execs k r e) (at k r e k_in order rest)
    where
      ready :
          (k : String) (r : RunNodeExecution)
          → lookup k execs ≡ some r
          → elem k keys ≡ true
          → (if is_status r.status pending then fetch table k >>= all_completed execs else ok false)
            ≡ ok (runnable execs parents k)
      ready k r e k_in = elim (Bool-cases (is_status r.status pending)) [
        | inl t ↦ rw t (
            rw (fetch-eq table k (parents k) (is_table k ∙ rw k_in refl)) (
              rw (all_completed-eq execs (parents k) (λ p m. covers p (known k p m)))
                (ap ok (ground (arith, e)))))
        | inr f ↦ rw f (ap ok (ground (arith, e)))
      ]

      at :
          (k : String) (r : RunNodeExecution)
          → lookup k execs ≡ some r
          → elem k keys ≡ true
          → (order : List String)
          → find_next execs table order ≡ ok (first_runnable execs parents order)
          → ((if is_status r.status pending
                then fetch table k >>= all_completed execs
                else ok false)
              >>= λ ready. if ready then ok (some r) else find_next execs table order)
            ≡ ok (first_runnable execs parents (k ∷ order))
      at k r e k_in order rest = rw (ready k r e k_in) (ground (arith, e, rest))

  pub first_runnable-some :
      (order : List String) (r : RunNodeExecution)
      → first_runnable execs parents order ≡ some r
      → (k : String) × (elem k order ≡ true)
        × (lookup k execs ≡ some r)
        × (runnable execs parents k ≡ true)
  unfolding elem
  first_runnable-some [] r e = cc
  first_runnable-some (k ∷ order) r e = elim (Bool-cases (runnable execs parents k)) [
    | inl t ↦ (k, elem_self k order, rw t at e, t)
    | inr f ↦ let (j, m, l, h) = first_runnable-some order r (rw f at e) in (j, ground arith, l, h)
  ]

  pub first_runnable-none :
      (order : List String)
      → ((k : String) → elem k order ≡ true → elem k keys ≡ true)
      → first_runnable execs parents order ≡ none
      → (k : String) → elem k order ≡ true
      → runnable execs parents k ≡ false
  unfolding elem
  first_runnable-none [] h e k m = cc
  first_runnable-none (j ∷ order) h e k m = elim (Bool-cases (runnable execs parents j)) [
    | inl t ↦ let (r, l) = covers j (h j (elem_self j order)) in ground arith
    | inr f ↦ ground (
      arith,
      eq_iff j k,
      first_runnable-none order (λ i n. h i (elem_cons j i order n)) (ground arith) k,
    )
  ]
