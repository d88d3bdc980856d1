-- ===== src/Review/Rows.antt =====
-- What the updates of graph_review.py do to the rows, one after the other.
use mathlib.Core.Option
use text.Mathlib.TextEquality.{eq_iff}
use text.Mathlib.TextPositions.{eq_refl}
use vaic2026_charcalavong.Prelude.{
  String, ◌≡◌, refl, ap, ◌∙◌, subst, inl, inr, Bool, true, Option, none, some, List, [], ◌∷◌, arith,
  if◌then◌else◌, ◌==◌, string_eq, ok, elem, elem_self, elem_cons, Bool-cases,
}
use vaic2026_charcalavong.Store.{Db, RunNodeExecution}
use vaic2026_charcalavong.Store.Rows.{find, IsUnique, Keeps, IsUnique-update}
use vaic2026_charcalavong.State.Cas.{find-update_row}
use vaic2026_charcalavong.Review.Types.{no_node, or_else, get_node, update_node}
use vaic2026_charcalavong.Review.Rollback.{
  mark, clear_node, mark_rolled_back, reset_all, reset_node_to_pending,
}

pub get_node-eq :
    (k : String) (db : Db) (r : RunNodeExecution) → find k db.nodes ≡ some r → get_node k db ≡ ok r
unfolding get_node find
get_node-eq k db r e = ap (or_else (no_node k)) e

-- One row of the table, by its id.
pub record Updated (change : RunNodeExecution → RunNodeExecution) (hit : String → Bool)
    (db db' : Db) : Type 0 where
  pub found :
      (k : String)
      → find k db'.nodes ≡ (if hit k then Option.map change (find k db.nodes) else find k db.nodes)
  pub unique : IsUnique db'.nodes
  pub same_run : db'.run ≡ db.run
  pub same_rollbacks : db'.rollbacks ≡ db.rollbacks
  pub same_audit : db'.audit ≡ db.audit

module _ (change : RunNodeExecution → RunNodeExecution) (keep : Keeps change) where
  pub Updated-one :
      (j : String) (r : RunNodeExecution) (db : Db)
      → IsUnique db.nodes
      → find j db.nodes ≡ some r
      → Updated change (λ k. j == k) db (update_node r.id change db)
  unfolding update_node
  Updated-one j r db u e = record {
    found = λ k.
        find-update_row j r db u e (λ x. x.id == r.id) change keep (λ x h. (eq_iff x.id r.id).0 h) k
        ∙ ground (
          arith,
          eq_refl r.id,
          subst (λ i. find i db.nodes ≡ some r) {x = j} {y = k},
          eq_iff j k,
          e,
        );
    unique = IsUnique-update (λ x. x.id == r.id) change keep db.nodes u;
    same_run = refl;
    same_rollbacks = refl;
    same_audit = refl;
  }

  module _ (twice : (r : RunNodeExecution) → change (change r) ≡ change r) where
    map_twice :
        (o : Option RunNodeExecution)
        → Option.map change (Option.map change o) ≡ Option.map change o
    map_twice none = refl
    map_twice (some r) = ap some (twice r)

    pub Updated-cons :
        (j : String) (keys : List String) (db db1 db' : Db)
        → Updated change (λ k. j == k) db db1
        → Updated change (λ k. elem k keys) db1 db'
        → Updated change (λ k. elem k (j ∷ keys)) db db'
    unfolding elem
    Updated-cons j keys db db1 db' a b = record {
      found = λ k. b.found k ∙ ground (arith, a.found k, map_twice (find k db.nodes));
      unique = b.unique;
      same_run = b.same_run ∙ a.same_run;
      same_rollbacks = b.same_rollbacks ∙ a.same_rollbacks;
      same_audit = b.same_audit ∙ a.same_audit;
    }

pub Updated-nil :
    (change : RunNodeExecution → RunNodeExecution) (db : Db)
    → IsUnique db.nodes
    → Updated change (λ k. elem k []) db db
unfolding elem
Updated-nil change db u = record {
  found = λ k. refl;
  unique = u;
  same_run = refl;
  same_rollbacks = refl;
  same_audit = refl;
}

abbrev pub HasRows : List String → Db → Type 0
HasRows keys db =
    (k : String) → elem k keys ≡ true → (r : RunNodeExecution) × (find k db.nodes ≡ some r)

pub HasRows-Updated :
    (change : RunNodeExecution → RunNodeExecution) (hit : String → Bool) (keys : List String)
    (db db' : Db)
    → Updated change hit db db'
    → HasRows keys db
    → HasRows keys db'
HasRows-Updated change hit keys db db' a h k m = elim (Bool-cases (hit k)) [
  | inl t ↦ let (r, e) = h k m in (change r, ground (arith, a.found k, e))
  | inr f ↦ let (r, e) = h k m in (r, ground (arith, a.found k, e))
]

HasRows-tail : (j : String) (keys : List String) (db : Db) → HasRows (j ∷ keys) db → HasRows keys db
HasRows-tail j keys db h k m = h k (elem_cons j k keys m)

pub mark-Keeps : Keeps mark
mark-Keeps = record { same_key = λ r. refl; same_id = λ r. refl; same_approvers = λ r. refl }

pub clear_node-Keeps : (guidance : Option String) → Keeps (clear_node guidance)
clear_node-Keeps guidance = record {
  same_key = λ r. refl;
  same_id = λ r. refl;
  same_approvers = λ r. refl;
}

pub mark_rolled_back-Updated :
    (keys : List String) (db : Db)
    → IsUnique db.nodes
    → HasRows keys db
    → (db' : Db) × (mark_rolled_back keys db ≡ (ok tt, db'))
      × Updated mark (λ k. elem k keys) db db'
unfolding mark_rolled_back
mark_rolled_back-Updated [] db u h = (db, refl, Updated-nil mark db u)
mark_rolled_back-Updated (j ∷ keys) db u h =
    let (r, e) = h j (elem_self j keys) in
    let a = Updated-one mark mark-Keeps j r db u e in
    let (db', e', b) = mark_rolled_back-Updated keys (update_node r.id mark db) a.unique (
      HasRows-Updated mark (λ k. j == k) keys db (update_node r.id mark db) a
        (HasRows-tail j keys db h)) in
    (
      db',
      rw (get_node-eq j db r e) (rw e' refl),
      Updated-cons mark mark-Keeps (λ r. refl) j keys db _ db' a b,
    )

pub reset_all-Updated :
    (keys : List String) (db : Db)
    → IsUnique db.nodes
    → HasRows keys db
    → (db' : Db) × (reset_all keys db ≡ (ok tt, db'))
      × Updated (clear_node none) (λ k. elem k keys) db db'
unfolding reset_all reset_node_to_pending
reset_all-Updated [] db u h = (db, refl, Updated-nil (clear_node none) db u)
reset_all-Updated (j ∷ keys) db u h =
    let (r, e) = h j (elem_self j keys) in
    let a = Updated-one (clear_node none) (clear_node-Keeps none) j r db u e in
    let (db', e', b) = reset_all-Updated keys (update_node r.id (clear_node none) db) a.unique (
      HasRows-Updated (clear_node none) (λ k. j == k) keys db
        (update_node r.id (clear_node none) db) a (HasRows-tail j keys db h)) in
    (
      db',
      rw (get_node-eq j db r e) (rw e' refl),
      Updated-cons (clear_node none) (clear_node-Keeps none) (λ r. refl) j keys db _ db' a b,
    )
