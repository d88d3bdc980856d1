-- ===== src/Graph/Checks.antt =====
-- The two passes that look for duplicates, unknown ends and self-loops.
use vaic2026_charcalavong.Prelude.{
  String, ◌≡◌, refl, true, false, ◌||◌, List, [], ◌∷◌, arith, ◌==◌, string_eq, pair_eq, elem,
  Distinct, ok, raise, ◌>>=◌, Bool-cases, inl, inr, Equality, beq_refl, elem_self, elem_cons,
}
use vaic2026_charcalavong.Graph.{Edge, check_keys, check_edges, Checked, key_error, diverged}
use vaic2026_charcalavong.Graph.Spec.{EndsIn, NoSelfLoop}

-- No element is in `seen`, and none occurs twice.
abbrev pub Fresh {ℓ} : {A : Type ℓ} ⦃e : Equality A⦄ → List A → List A → Type 0
Fresh seen [] = Unit {0}
Fresh seen (x ∷ xs) = (elem x seen ≡ false) × Fresh (x ∷ seen) xs

module _ {ℓ} {A : Type ℓ} ⦃e : Equality A⦄ where
  Fresh-Distinct_split :
      (seen xs : List A)
      → Fresh seen xs
      → Distinct xs × ((x : A) → elem x xs ≡ true → elem x seen ≡ false)
  unfolding elem
  Fresh-Distinct_split seen [] f = (tt, λ x m. cc)
  Fresh-Distinct_split seen (x ∷ xs) f =
      let (u, apart) = Fresh-Distinct_split (x ∷ seen) xs f.1 in
      (
        (ground (arith, apart x, beq_refl x), u),
        λ y m. ground (arith, apart y, e.same_iff x y, f.0),
      )

  Distinct-Fresh_join :
      (seen xs : List A)
      → Distinct xs
      → ((x : A) → elem x xs ≡ true → elem x seen ≡ false)
      → Fresh seen xs
  unfolding elem
  Distinct-Fresh_join seen [] u h = tt
  Distinct-Fresh_join seen (x ∷ xs) u h = (
    h x (elem_self x xs),
    Distinct-Fresh_join (x ∷ seen) xs u.1
        (λ y m. ground (arith, h y (elem_cons x y xs m), e.same_iff x y, u.0)),
  )

  pub Fresh-Distinct : (xs : List A) → Fresh [] xs → Distinct xs
  Fresh-Distinct xs f = (Fresh-Distinct_split [] xs f).0

  pub Distinct-Fresh : (xs : List A) → Distinct xs → Fresh [] xs
  unfolding elem
  Distinct-Fresh xs u = Distinct-Fresh_join [] xs u (λ x m. refl)

pub check_keys-ok :
    (seen keys : List String)
    → Fresh seen keys
    → (seen' : List String) × (check_keys seen keys ≡ ok seen')
      × ((k : String) → elem k seen' ≡ (elem k seen || elem k keys))
unfolding check_keys elem
check_keys-ok seen [] f = (seen, refl, λ k. ground arith)
check_keys-ok seen (key ∷ keys) f =
    let (seen', e, h) = check_keys-ok (key ∷ seen) keys f.1 in
    (seen', rw f.0 e, λ k. ground (arith, h k))

pub check_keys-Fresh :
    (seen keys seen' : List String) → check_keys seen keys ≡ ok seen' → Fresh seen keys
unfolding check_keys
check_keys-Fresh seen [] seen' h = tt
check_keys-Fresh seen (key ∷ keys) seen' h = elim (Bool-cases (elem key seen)) [
  | inl t ↦ ground arith
  | inr f ↦ (f, check_keys-Fresh (key ∷ seen) keys seen' (ground arith))
]

pub check_edges-ok :
    (seen : List String) (edge_seen edges : List Edge)
    → EndsIn seen edges
    → NoSelfLoop edges
    → Fresh edge_seen edges
    → check_edges seen edge_seen edges ≡ ok tt
unfolding check_edges
check_edges-ok seen edge_seen [] h l f = refl
check_edges-ok seen edge_seen ((s, d) ∷ edges) h l f =
    ground (arith, check_edges-ok seen ((s, d) ∷ edge_seen) edges h.2 l.1 f.1)

-- What an accepted edge list is like.
pub record Passed (seen : List String) (edge_seen edges : List Edge) : Type 0 where
  pub ends : EndsIn seen edges
  pub no_loop : NoSelfLoop edges
  pub fresh : Fresh edge_seen edges

pub check_edges-Passed :
    (seen : List String) (edge_seen edges : List Edge)
    → check_edges seen edge_seen edges ≡ ok tt
    → Passed seen edge_seen edges
unfolding check_edges
check_edges-Passed seen edge_seen [] h = record { ends = tt; no_loop = tt; fresh = tt }
check_edges-Passed seen edge_seen ((s, d) ∷ edges) h =
    let p = check_edges-Passed seen ((s, d) ∷ edge_seen) edges (ground arith) in
    record {
      ends = (ground arith, ground arith, p.ends);
      no_loop = (ground arith, p.no_loop);
      fresh = (ground arith, p.fresh);
    }

pub EndsIn-cong :
    (xs ys : List String) (edges : List Edge)
    → ((k : String) → elem k xs ≡ elem k ys)
    → EndsIn xs edges
    → EndsIn ys edges
EndsIn-cong xs ys [] h n = tt
EndsIn-cong xs ys ((s, d) ∷ edges) h n =
    (rw (← h s) n.0, rw (← h d) n.1, EndsIn-cong xs ys edges h n.2)

-- A result or one of the validation errors: no `KeyError`, and no loop without an end.
abbrev pub IsSettled : {A : Type 0} → Checked A → Type 0
IsSettled (ok a) = Unit {0}
IsSettled (raise (key_error k)) = ⊥
IsSettled (raise diverged) = ⊥
IsSettled (raise _) = Unit {0}

pub IsSettled-bind :
    {A B : Type 0} (m : Checked A) (f : A → Checked B)
    → IsSettled m
    → ((a : A) → m ≡ ok a → IsSettled (f a))
    → IsSettled (m >>= f)
IsSettled-bind (ok a) f s h = h a refl
IsSettled-bind (raise (key_error k)) f s h = s
IsSettled-bind (raise diverged) f s h = s
IsSettled-bind (raise _) f s h = tt

pub check_keys-IsSettled : (seen keys : List String) → IsSettled (check_keys seen keys)
unfolding check_keys
check_keys-IsSettled seen [] = tt
check_keys-IsSettled seen (key ∷ keys) = elim (Bool-cases (elem key seen)) [
  | inl t ↦ rw t tt
  | inr f ↦ rw f (check_keys-IsSettled (key ∷ seen) keys)
]

pub check_edges-IsSettled :
    (seen : List String) (edge_seen edges : List Edge)
    → IsSettled (check_edges seen edge_seen edges)
unfolding check_edges
check_edges-IsSettled seen edge_seen [] = tt
check_edges-IsSettled seen edge_seen ((s, d) ∷ edges) = elim (Bool-cases (elem s seen)) [
  | inr f ↦ rw f tt
  | inl s_in ↦ elim (Bool-cases (elem d seen)) [
    | inr f ↦ rw (s_in, f) tt
    | inl d_in ↦ elim (Bool-cases (s == d)) [
      | inl t ↦ rw (s_in, d_in, t) tt
      | inr s_d ↦ elim (Bool-cases (elem (s, d) edge_seen)) [
        | inl t ↦ rw (s_in, d_in, s_d, t) tt
        | inr f ↦ rw (s_in, d_in, s_d, f) (check_edges-IsSettled seen ((s, d) ∷ edge_seen) edges)
      ]
    ]
  ]
]

pub check_keys-elem :
    (seen keys seen' : List String)
    → check_keys seen keys ≡ ok seen'
    → (k : String) → elem k seen' ≡ (elem k seen || elem k keys)
unfolding check_keys elem
check_keys-elem seen [] seen' h k = ground arith
check_keys-elem seen (key ∷ keys) seen' h k = elim (Bool-cases (elem key seen)) [
  | inl t ↦ ground arith
  | inr f ↦ ground (arith, check_keys-elem (key ∷ seen) keys seen' (ground arith) k)
]
