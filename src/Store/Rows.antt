-- ===== src/Store/Rows.antt =====
-- Rows by their node key, and what an update by id does to them.
use mathlib.Core.Option
use vaic2026_charcalavong.Prelude.{
  String, ◌≡◌, ◌≢◌, refl, ◌∙◌, inl, inr, Bool, true, false, Option, none, some, List, [], ◌∷◌, map,
  arith, if◌then◌else◌, ◌==◌, nat_eq, string_eq, elem, Distinct, Dict, lookup, put, put_all,
  lookup-put, Bool-cases,
}
use text.Mathlib.TextEquality.{eq_iff}
use vaic2026_charcalavong.Store.{RunNodeExecution, update_where, count_where, first_where, by_key}

abbrev Row : Type 0
Row = RunNodeExecution

-- The row of a node key.
unfoldable pub find : String → List RunNodeExecution → Option RunNodeExecution
unfolding first_where
find k rows = first_where (λ (r : RunNodeExecution). r.node_key == k) rows

abbrev pub keys : List RunNodeExecution → List String
keys rows = map (λ (r : RunNodeExecution). r.node_key) rows

abbrev pub ids : List RunNodeExecution → List String
ids rows = map (λ (r : RunNodeExecution). r.id) rows

-- The uniqueness constraints of the table.
pub record IsUnique (rows : List RunNodeExecution) : Type 0 where
  pub unique_keys : Distinct (keys rows)
  pub unique_ids : Distinct (ids rows)

find-none : (k : String) (rows : List Row) → elem k (keys rows) ≡ false → find k rows ≡ none
unfolding find elem
find-none k [] h = refl
find-none k (r ∷ rows) h = ground (arith, find-none k rows)

pub find-key :
    (k : String) (rows : List RunNodeExecution) (r : RunNodeExecution)
    → find k rows ≡ some r
    → r.node_key ≡ k
unfolding find
find-key k [] r h = cc
find-key k (x ∷ rows) r h = ground (arith, find-key k rows r, eq_iff x.node_key k)

find-id_elem :
    (k : String) (rows : List Row) (r : Row) → find k rows ≡ some r → elem r.id (ids rows) ≡ true
unfolding find elem
find-id_elem k [] r h = cc
find-id_elem k (x ∷ rows) r h = ground (arith, find-id_elem k rows r, eq_iff x.id r.id)

abbrev or_lookup : Option Row → Option Row → Option Row
or_lookup none o = o
or_lookup (some r) o = some r

lookup-put_all_rows :
    (k : String) (d : Dict String Row) (rows : List Row)
    → Distinct (keys rows)
    → lookup k (put_all d (map (λ (r : Row). (r.node_key, r)) rows))
      ≡ or_lookup (find k rows) (lookup k d)
unfolding put_all find
lookup-put_all_rows k d [] u = refl
lookup-put_all_rows k d (r ∷ rows) u =
    lookup-put_all_rows k (put r.node_key r d) rows u.1
    ∙ ground
        (arith, lookup-put r.node_key k r d, find-none r.node_key rows u.0, eq_iff r.node_key k)

-- The engine's table of the rows has the row of every key.
pub lookup-by_key :
    (k : String) (rows : List RunNodeExecution)
    → Distinct (keys rows)
    → lookup k (by_key rows) ≡ find k rows
unfolding by_key lookup
lookup-by_key k rows u = ground (arith, lookup-put_all_rows k [] rows u)

-- An update that keeps the row's names keeps the constraints, and changes each row in its place.
pub record Keeps (change : RunNodeExecution → RunNodeExecution) : Type 0 where
  pub same_key : (r : RunNodeExecution) → (change r).node_key ≡ r.node_key
  pub same_id : (r : RunNodeExecution) → (change r).id ≡ r.id
  pub same_approvers : (r : RunNodeExecution) → (change r).approver_user_ids ≡ r.approver_user_ids

module _ (hit : RunNodeExecution → Bool) (change : RunNodeExecution → RunNodeExecution)
    (keep : Keeps change) where
  keys-update : (rows : List Row) → keys (update_where hit change rows) ≡ keys rows
  unfolding update_where
  keys-update [] = refl
  keys-update (r ∷ rows) = ground (arith, keys-update rows, keep.same_key r)

  ids-update : (rows : List Row) → ids (update_where hit change rows) ≡ ids rows
  unfolding update_where
  ids-update [] = refl
  ids-update (r ∷ rows) = ground (arith, ids-update rows, keep.same_id r)

  pub IsUnique-update :
      (rows : List RunNodeExecution) → IsUnique rows → IsUnique (update_where hit change rows)
  IsUnique-update rows u = record {
    unique_keys = rw keys-update u.unique_keys;
    unique_ids = rw ids-update u.unique_ids;
  }

  pub find-update :
      (k : String) (rows : List RunNodeExecution)
      → find k (update_where hit change rows)
        ≡ Option.map (λ r. if hit r then change r else r) (find k rows)
  unfolding find update_where
  find-update k [] = refl
  find-update k (r ∷ rows) = ground (arith, find-update k rows, keep.same_key r)

-- Two rows with one id are one row.
pub same_row :
    (j k : String) (rows : List RunNodeExecution) (r q : RunNodeExecution)
    → Distinct (ids rows)
    → find j rows ≡ some r
    → find k rows ≡ some q
    → q.id ≡ r.id
    → q ≡ r
unfolding find elem
same_row j k [] r q u f g e = cc
same_row j k (x ∷ rows) r q u f g e = elim (Bool-cases (x.node_key == j)) [
  | inl at_j ↦ elim (Bool-cases (x.node_key == k)) [
    | inl at_k ↦ ground arith
    | inr _ ↦ ground (arith, find-id_elem k rows q, u.0)
  ]
  | inr not_j ↦ elim (Bool-cases (x.node_key == k)) [
    | inl at_k ↦ ground (arith, find-id_elem j rows r, u.0)
    | inr not_k ↦ same_row j k rows r q u.1 (ground arith) (ground arith) e
  ]
]

count-zero :
    (hit : Row → Bool) (rows : List Row)
    → ((x : Row) → elem x.id (ids rows) ≡ true → hit x ≡ false)
    → count_where hit rows ≡ 0
unfolding count_where elem
count-zero hit [] h = refl
count-zero hit (x ∷ rows) h =
    ground (
      arith,
      h x (ground (arith, eq_iff x.id x.id)),
      count-zero hit rows (λ y m. h y (ground arith)),
    )

-- A condition that names the id of a row hits that row alone.
pub count-one :
    (j : String) (rows : List RunNodeExecution) (r : RunNodeExecution)
    (hit : RunNodeExecution → Bool)
    → Distinct (ids rows)
    → find j rows ≡ some r
    → ((x : RunNodeExecution) → hit x ≡ true → x.id ≡ r.id)
    → count_where hit rows ≡ (if hit r then 1 else 0)
unfolding find count_where elem
count-one j [] r hit u f h = cc
count-one j (x ∷ rows) r hit u f h = elim (Bool-cases (x.node_key == j)) [
  | inl at_j ↦
      let rest = count-zero hit rows (λ y m. miss y (absent_id x rows u.0 (ground arith) y m)) in
      ground arith
  | inr not_j ↦
      ground
        (arith, count-one j rows r hit u.1, miss x (ground (arith, find-id_elem j rows r, u.0)))
]
  where
    miss : (y : Row) → y.id ≢ r.id → hit y ≡ false
    miss y ne = elim (Bool-cases (hit y)) [ inl t ↦ absurd (ne (h y t)) | inr f ↦ f ]

    absent_id :
        (x : Row) (rows : List Row)
        → elem x.id (ids rows) ≡ false
        → x ≡ r
        → (y : Row) → elem y.id (ids rows) ≡ true
        → y.id ≢ r.id
    absent_id x rows out same y m p = cc

pub find-key_elem :
    (k : String) (rows : List RunNodeExecution) (r : RunNodeExecution)
    → find k rows ≡ some r
    → elem k (keys rows) ≡ true
unfolding find elem
find-key_elem k [] r h = cc
find-key_elem k (x ∷ rows) r h = ground (arith, find-key_elem k rows r)
