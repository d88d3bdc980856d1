-- ===== src/Prelude/Lists.antt =====
-- Lists as Python's lists and sets: length, membership by `==`, distinctness, filtering.
use Prim.Native.Nat.{ℕ, suc, ◌+◌, ◌≤◌}
use mathlib.Core.Path.{◌≡◌, refl, ap}
use mathlib.Core.Logic.{inl, inr}
use mathlib.Core.Bool.{Bool, true, false, ◌&&◌, ◌||◌}
use mathlib.Core.List.{List, [], ◌∷◌, ◌++◌, map, reverse, reverse-append}
use native.Mathlib.Omega.{arith}
use vaic2026_charcalavong.Prelude.Tests.{Equality, ◌==◌, Bool-cases, beq_refl, beq→≡, if◌then◌else◌}

module _ {ℓ} {A : Type ℓ} where
  abbrev pub length : List A → ℕ
  length [] = 0
  length (x ∷ xs) = suc (length xs)

  pub length-append : (xs ys : List A) → length (xs ++ ys) ≡ length xs + length ys
  length-append [] ys = omega arith
  length-append (x ∷ xs) ys = omega (arith, length-append xs ys)

  -- `[x for x in xs if p x]`
  unfoldable pub keep : (A → Bool) → List A → List A
  keep p [] = []
  keep p (x ∷ xs) = if p x then x ∷ keep p xs else keep p xs

  pub length-keep : (p : A → Bool) (xs : List A) → length (keep p xs) ≤ length xs
  unfolding keep
  length-keep p [] = omega arith
  length-keep p (x ∷ xs) = ground (arith, length-keep p xs)

  -- `any(p x for x in xs)` and `all(p x for x in xs)`
  unfoldable pub any : (A → Bool) → List A → Bool
  any p [] = false
  any p (x ∷ xs) = p x || any p xs

  unfoldable pub all : (A → Bool) → List A → Bool
  all p [] = true
  all p (x ∷ xs) = p x && all p xs

module _ {ℓ} {A : Type ℓ} ⦃e : Equality A⦄ where
  -- `a in xs`
  unfoldable pub elem : A → List A → Bool
  elem a [] = false
  elem a (x ∷ xs) = (x == a) || elem a xs

  -- No element occurs twice.
  abbrev pub Distinct : List A → Type 0
  Distinct [] = Unit {0}
  Distinct (x ∷ xs) = (elem x xs ≡ false) × Distinct xs

  pub elem-append : (a : A) (xs ys : List A) → elem a (xs ++ ys) ≡ (elem a xs || elem a ys)
  unfolding elem
  elem-append a [] ys = refl
  elem-append a (x ∷ xs) ys = ground (arith, elem-append a xs ys)

  pub elem_self : (a : A) (xs : List A) → elem a (a ∷ xs) ≡ true
  unfolding elem
  elem_self a xs = ground (arith, beq_refl a)

  pub elem_cons : (x a : A) (xs : List A) → elem a xs ≡ true → elem a (x ∷ xs) ≡ true
  unfolding elem
  elem_cons x a xs h = ground arith

  pub elem-keep : (p : A → Bool) (a : A) (xs : List A) → elem a (keep p xs) ≡ (elem a xs && p a)
  unfolding elem keep
  elem-keep p a [] = refl
  elem-keep p a (x ∷ xs) = elim (Bool-cases (x == a)) [
    | inl t ↦ ground (arith, elem-keep p a xs, ap p (beq→≡ x a t))
    | inr f ↦ ground (arith, elem-keep p a xs)
  ]

  pub keep-cong :
      (p q : A → Bool) (xs : List A)
      → ((x : A) → elem x xs ≡ true → p x ≡ q x)
      → keep p xs ≡ keep q xs
  unfolding keep elem
  keep-cong p q [] h = refl
  keep-cong p q (x ∷ xs) h =
      ground (arith, h x (elem_self x xs), keep-cong p q xs (λ y m. h y (elem_cons x y xs m)))

  pub Distinct-keep : (p : A → Bool) (xs : List A) → Distinct xs → Distinct (keep p xs)
  unfolding keep
  Distinct-keep p [] d = tt
  Distinct-keep p (x ∷ xs) d = ground (arith, elem-keep p x xs, Distinct-keep p xs d.1)

  pub Distinct-append :
      (xs ys : List A)
      → Distinct xs
      → Distinct ys
      → ((y : A) → elem y ys ≡ true → elem y xs ≡ false)
      → Distinct (xs ++ ys)
  unfolding elem
  Distinct-append [] ys dx dy h = dy
  Distinct-append (x ∷ xs) ys dx dy h = (
    rw elem-append (elim (Bool-cases (elem x ys)) [
      | inl t ↦ ground (arith, h x t, beq_refl x)
      | inr f ↦ ground arith
    ]),
    Distinct-append xs ys dx.1 dy (λ y m. ground (arith, h y m)),
  )

  -- The pigeonhole principle, by taking the first of the elements out of both lists.
  without : A → List A → List A
  without a [] = []
  without a (x ∷ xs) = if x == a then xs else x ∷ without a xs

  length-without :
      (a : A) (xs : List A) → elem a xs ≡ true → length xs ≡ suc (length (without a xs))
  unfolding without elem
  length-without a [] h = cc
  length-without a (x ∷ xs) h = ground (arith, length-without a xs)

  elem-without :
      (a b : A) (xs : List A) → (a == b) ≡ false → elem b xs ≡ true → elem b (without a xs) ≡ true
  unfolding without elem
  elem-without a b [] h m = cc
  elem-without a b (x ∷ xs) h m =
      ground (arith, elem-without a b xs h, e.same_iff x a, e.same_iff x b, e.same_iff a b)

  pub length-le_of_subset :
      (xs ys : List A)
      → Distinct xs
      → ((x : A) → elem x xs ≡ true → elem x ys ≡ true)
      → length xs ≤ length ys
  unfolding elem
  length-le_of_subset [] ys u h = omega arith
  length-le_of_subset (x ∷ xs) ys u h = omega (
    arith,
    length-without x ys (h x (elem_self x xs)),
    length-le_of_subset xs (without x ys) u.1
        (λ y m. elem-without x y ys (ground (arith, e.same_iff x y)) (h y (elem_cons x y xs m))),
  )

  reverse-cons : (x : A) (xs : List A) → reverse (x ∷ xs) ≡ reverse xs ++ x ∷ []
  reverse-cons x xs = reverse-append (x ∷ []) xs

  pub elem-reverse : (a : A) (xs : List A) → elem a (reverse xs) ≡ elem a xs
  unfolding elem
  elem-reverse a [] = refl
  elem-reverse a (x ∷ xs) =
      rw reverse-cons (ground (arith, elem-append a (reverse xs) (x ∷ []), elem-reverse a xs))

  pub length-reverse : (xs : List A) → length (reverse xs) ≡ length xs
  length-reverse [] = refl
  length-reverse (x ∷ xs) =
      rw reverse-cons (omega (arith, length-append (reverse xs) (x ∷ []), length-reverse xs))

  pub elem-map-keep {κ} :
      {B : Type κ} (f : B → A) (p : B → Bool) (a : A) (bs : List B)
      → elem a (map f bs) ≡ false
      → elem a (map f (keep p bs)) ≡ false
  unfolding elem keep
  elem-map-keep f p a [] h = refl
  elem-map-keep f p a (b ∷ bs) h = ground (arith, elem-map-keep f p a bs)

  pub Distinct-map-keep {κ} :
      {B : Type κ} (f : B → A) (p : B → Bool) (bs : List B)
      → Distinct (map f bs)
      → Distinct (map f (keep p bs))
  unfolding keep
  Distinct-map-keep f p [] d = tt
  Distinct-map-keep f p (b ∷ bs) d =
      ground (arith, elem-map-keep f p (f b) bs d.0, Distinct-map-keep f p bs d.1)
