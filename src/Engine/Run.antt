-- ===== src/Engine/Run.antt =====
-- The loop of the engine: every turn that goes on takes one key out of `pending`, so the loop ends
-- with the fuel that it is given, and an invariant of the turns holds of the whole run.
use text.Mathlib.TextEquality.{eq_iff}
use vaic2026_charcalavong.Prelude.{
  ℕ, zero, suc, ◌≤◌, ◌<◌, String, ◌≡◌, refl, ap, inl, inr, Bool, true, false, some, List, [], ◌∷◌,
  arith, if◌then◌else◌, ◌==◌, string_eq, ok, raise, elem, length, length-le_of_subset, Bool-cases,
}
use vaic2026_charcalavong.Store.{Db, RunNodeExecution, pending, is_status}
use vaic2026_charcalavong.Store.Rows.{find, keys, find-key_elem}
use vaic2026_charcalavong.Engine.Types.{World, Plan, Outcome}
use vaic2026_charcalavong.Engine.Loop.{turn, loop, again}
use vaic2026_charcalavong.Engine.Advance.{Advance}
use vaic2026_charcalavong.Engine.Turn.{IsPlan, IsComplete, is_at}

-- The keys whose row is pending.
abbrev pub pending_keys : Db → List String → ℕ
pending_keys db [] = 0
pending_keys db (k ∷ ks) =
    if is_at db pending k then suc (pending_keys db ks) else pending_keys db ks

pub pending_keys-le : (db : Db) (ks : List String) → pending_keys db ks ≤ length ks
pending_keys-le db [] = omega arith
pending_keys-le db (k ∷ ks) = ground (arith, pending_keys-le db ks)

module _ (run_id j : String) (row : RunNodeExecution) (db : Db) (out : Outcome Bool)
    (a : Advance run_id j row db out) (found : find j db.nodes ≡ some row)
    (idle : is_status row.status pending ≡ true) where
  pending-after :
      (k : String) → is_at out.1 pending k ≡ (if j == k then false else is_at db pending k)
  pending-after k = ground (arith, a.found k, a.started)

  pending_keys-after_le : (ks : List String) → pending_keys out.1 ks ≤ pending_keys db ks
  pending_keys-after_le [] = omega arith
  pending_keys-after_le (k ∷ ks) = ground (arith, pending-after k, pending_keys-after_le ks)

  pub pending_keys-after_lt :
      (ks : List String) → elem j ks ≡ true → pending_keys out.1 ks < pending_keys db ks
  unfolding elem
  pending_keys-after_lt [] m = cc
  pending_keys-after_lt (k ∷ ks) m = elim (Bool-cases (k == j)) [
    | inl t ↦
        ground
          (arith, pending-after k, pending_keys-after_le ks, eq_iff k j, eq_iff j k, found, idle)
    | inr f ↦ ground (arith, pending-after k, pending_keys-after_lt ks (ground arith))
  ]

module _ (world : World) (plan : Plan) where
  -- What a turn owes to an invariant `Inv` and a postcondition `Post` of the loop.
  abbrev pub Owes : (Db → Type 0) → (Outcome (Unit {0}) → Type 0) → Db → Outcome Bool → Type 0
  Owes Inv Post db (raise e, db') = Post (raise e, db')
  Owes Inv Post db (ok true, db') =
      Inv db' × (pending_keys db' plan.node_keys < pending_keys db plan.node_keys)
  Owes Inv Post db (ok false, db') = Post (ok tt, db')

  module _ (Inv : Db → Type 0) (Post : Outcome (Unit {0}) → Type 0)
      (step : (db : Db) → Inv db → Owes Inv Post db (turn world plan db)) where
    go :
        (fuel : ℕ) (db : Db) (out : Outcome Bool)
        → ((db' : Db)
            → pending_keys db' plan.node_keys < fuel
            → Inv db'
            → Post (loop fuel world plan db'))
        → Owes Inv Post db out
        → pending_keys db plan.node_keys < suc fuel
        → Post (again out (loop fuel world plan))
    go fuel db (raise e, db') ih owed h = owed
    go fuel db (ok true, db') ih owed h = ih db' (omega arith) owed.0
    go fuel db (ok false, db') ih owed h = owed

    pub loop_rule :
        (fuel : ℕ) (db : Db)
        → pending_keys db plan.node_keys < fuel
        → Inv db
        → Post (loop fuel world plan db)
    unfolding loop
    loop_rule zero db h inv = absurd (omega arith)
    loop_rule (suc fuel) db h inv = go fuel db (turn world plan db) (loop_rule fuel) (step db inv) h

-- A complete table has a row for each node, so the loop of `graph_orchestrate` has fuel enough.
pub enough_fuel :
    (plan : Plan) (db : Db)
    → IsPlan plan
    → IsComplete plan db
    → pending_keys db plan.node_keys < suc (length db.nodes)
enough_fuel plan db p c = omega (
  arith,
  pending_keys-le db plan.node_keys,
  length-le_of_subset plan.node_keys (keys db.nodes) p.distinct
      (λ k m. let (r, e) = c.rows k m in find-key_elem k db.nodes r e),
  length-keys db.nodes,
)
  where
    length-keys : (rows : List RunNodeExecution) → length (keys rows) ≡ length rows
    length-keys [] = refl
    length-keys (r ∷ rows) = ap suc (length-keys rows)
