-- ===== src/Prelude/Maps.antt =====
-- Python's `dict`, as an association list in insertion order.
use mathlib.Core.Path.{◌≡◌, refl, ap}
use mathlib.Core.Bool.{false}
use mathlib.Core.Logic.{inl, inr}
use mathlib.Core.Option.{Option, none, some}
use mathlib.Core.List.{List, [], ◌∷◌, map}
use native.Mathlib.Omega.{arith}
use vaic2026_charcalavong.Prelude.Tests.{Equality, ◌==◌, if◌then◌else◌, Bool-cases, beq→≡}
use vaic2026_charcalavong.Prelude.Lists.{elem, Distinct}

abbrev pub Dict {ℓ κ} : Type ℓ → Type κ → Type (ℓ ⊔ κ)
Dict K V = List (K × V)

abbrev pub or_else {κ} : {V : Type κ} → Option V → Option V → Option V
or_else none o = o
or_else (some v) o = some v

module _ {ℓ κ} {K : Type ℓ} {V : Type κ} ⦃e : Equality K⦄ where
  -- d.get(k)
  unfoldable pub lookup : K → Dict K V → Option V
  lookup k [] = none
  lookup k ((j, v) ∷ d) = if j == k then some v else lookup k d

  -- d[k] = v: an old key keeps its place
  unfoldable pub put : K → V → Dict K V → Dict K V
  put k v [] = (k, v) ∷ []
  put k v ((j, w) ∷ d) = if j == k then (j, v) ∷ d else (j, w) ∷ put k v d

  -- d.update(pairs): the later of two pairs with one key wins
  unfoldable pub put_all : Dict K V → List (K × V) → Dict K V
  put_all d [] = d
  put_all d ((k, v) ∷ ps) = put_all (put k v d) ps

  -- {k: v for k in keys}
  unfoldable pub from_keys : List K → V → Dict K V
  unfolding put_all
  from_keys ks v = put_all [] (map (λ k. (k, v)) ks)

  -- d.values()
  unfoldable pub values : Dict K V → List V
  values d = map (λ (p : K × V). p.1) d

  pub lookup-put :
      (k j : K) (v : V) (d : Dict K V)
      → lookup j (put k v d) ≡ (if k == j then some v else lookup j d)
  unfolding lookup put
  lookup-put k j v [] = refl
  lookup-put k j v ((i, w) ∷ d) =
      ground (arith, lookup-put k j v d, e.same_iff i k, e.same_iff i j, e.same_iff k j)

  lookup-put_all_const :
      (k : K) (v : V) (ks : List K) (d : Dict K V)
      → lookup k (put_all d (map (λ j. (j, v)) ks)) ≡ (if elem k ks then some v else lookup k d)
  unfolding put_all elem
  lookup-put_all_const k v [] d = refl
  lookup-put_all_const k v (j ∷ ks) d =
      ground (arith, lookup-put j k v d, lookup-put_all_const k v ks (put j v d))

  pub lookup-from_keys :
      (k : K) (v : V) (ks : List K)
      → lookup k (from_keys ks v) ≡ (if elem k ks then some v else none)
  unfolding from_keys lookup
  lookup-from_keys k v ks = lookup-put_all_const k v ks []

  pub lookup-absent :
      (k : K) (ps : List (K × V))
      → elem k (map (λ (p : K × V). p.0) ps) ≡ false
      → lookup k ps ≡ none
  unfolding lookup elem
  lookup-absent k [] h = refl
  lookup-absent k ((j, v) ∷ ps) h = ground (arith, lookup-absent k ps)

  -- Pairs with different keys are found where they stand.
  pub lookup-put_all :
      (k : K) (d : Dict K V) (ps : List (K × V))
      → Distinct (map (λ (p : K × V). p.0) ps)
      → lookup k (put_all d ps) ≡ or_else (lookup k ps) (lookup k d)
  unfolding put_all lookup
  lookup-put_all k d [] u = refl
  lookup-put_all k d ((j, v) ∷ ps) u = elim (Bool-cases (j == k)) [
    | inl t ↦ ground (
      arith,
      lookup-put_all k (put j v d) ps u.1,
      lookup-put j k v d,
      lookup-absent j ps u.0,
      ap (λ x. lookup x ps) (beq→≡ j k t),
    )
    | inr f ↦ ground (arith, lookup-put_all k (put j v d) ps u.1, lookup-put j k v d)
  ]
