-- ===== src/Graph/Waiting.antt =====
-- How the number of edges that hold a key back changes when a node is finished.
use text.Mathlib.TextPositions.{eq_refl}
use text.Mathlib.TextEquality.{eq_iff}
use vaic2026_charcalavong.Prelude.{
  ℕ, suc, ◌+◌, ◌-◌, ◌<◌, String, ◌≡◌, refl, true, false, not, ◌&&◌, List, [], ◌∷◌, ◌++◌, arith,
  if◌then◌else◌, ◌==◌, string_eq, pair_eq, elem, Distinct, elem-append, Bool-cases, inl, inr,
}
use vaic2026_charcalavong.Graph.{Edge}
use vaic2026_charcalavong.Graph.Spec.{children, waiting}
use vaic2026_charcalavong.Graph.Filling.{in_degree}

pub waiting-nil : (edges : List Edge) (k : String) → waiting [] edges k ≡ in_degree edges k
unfolding elem
waiting-nil [] k = refl
waiting-nil ((s, d) ∷ edges) k = ground (arith, waiting-nil edges k)

pub elem-children :
    (edges : List Edge) (n k : String) → elem k (children edges n) ≡ elem (n, k) edges
unfolding elem
elem-children [] n k = refl
elem-children ((s, d) ∷ edges) n k = ground (arith, elem-children edges n k)

pub Distinct-children :
    (edges : List Edge) (n : String) → Distinct edges → Distinct (children edges n)
Distinct-children [] n u = tt
Distinct-children ((s, d) ∷ edges) n u =
    ground (arith, Distinct-children edges n u.1, elem-children edges n d, eq_iff s n)

occurrences : String → List String → ℕ
occurrences k [] = 0
occurrences k (c ∷ cs) = if c == k then suc (occurrences k cs) else occurrences k cs

occurrences-Distinct :
    (k : String) (cs : List String) → Distinct cs → occurrences k cs ≡ (if elem k cs then 1 else 0)
unfolding occurrences elem
occurrences-Distinct k [] u = refl
occurrences-Distinct k (c ∷ cs) u = ground (arith, occurrences-Distinct k cs u.1, eq_iff c k)

waiting-add :
    (finished : List String) (edges : List Edge) (n k : String)
    → elem n finished ≡ false
    → waiting (finished ++ n ∷ []) edges k + occurrences k (children edges n)
      ≡ waiting finished edges k
unfolding occurrences elem
waiting-add finished [] n k h = omega arith
waiting-add finished ((s, d) ∷ edges) n k h = ground (
  arith,
  waiting-add finished edges n k h,
  elem-append s finished (n ∷ []),
  eq_iff s n,
  eq_iff n s,
)

module _ (finished : List String) (edges : List Edge) (n k : String) (u : Distinct edges)
    (new : elem n finished ≡ false) where
  -- Finishing `n` frees each of its children of one edge.
  pub waiting-snoc : waiting (finished ++ n ∷ []) edges k ≡ (
      if elem k (children edges n) then waiting finished edges k - 1 else waiting finished edges k)
  waiting-snoc = ground (
    arith,
    waiting-add finished edges n k new,
    occurrences-Distinct k (children edges n) (Distinct-children edges n u),
  )

  pub waiting-child : elem k (children edges n) ≡ true → 0 < waiting finished edges k
  waiting-child m = ground (
    arith,
    waiting-add finished edges n k new,
    occurrences-Distinct k (children edges n) (Distinct-children edges n u),
  )

pub waiting-zero :
    (finished : List String) (edges : List Edge) (s k : String)
    → waiting finished edges k ≡ 0
    → elem (s, k) edges ≡ true
    → elem s finished ≡ true
unfolding elem
waiting-zero finished [] s k h m = cc
waiting-zero finished ((t, d) ∷ edges) s k h m =
    ground (arith, waiting-zero finished edges s k, eq_iff t s)

pub waiting-pos :
    (finished : List String) (edges : List Edge) (k : String)
    → 0 < waiting finished edges k
    → (s : String) × (elem (s, k) edges ≡ true) × (elem s finished ≡ false)
unfolding elem
waiting-pos finished [] k h = absurd (omega arith)
waiting-pos finished ((t, d) ∷ edges) k h = elim (Bool-cases ((d == k) && not (elem t finished))) [
  | inl e ↦ (t, ground (arith, eq_refl t), ground arith)
  | inr e ↦ let (s, m, a) = waiting-pos finished edges k (ground arith) in (s, ground arith, a)
]
