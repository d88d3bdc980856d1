-- ===== src/Engine/Safe.antt =====
-- What every turn of the engine keeps, whatever the world answers: the causal order of the nodes,
-- and that a node with approvers is not completed without them.
use vaic2026_charcalavong.Prelude.{
  String, ◌≡◌, refl, sym, ap, ◌∙◌, subst, inl, inr, Bool, true, false, none, some, List, [], ◌∷◌,
  arith, ◌==◌, string_eq, pair_eq, elem, Bool-cases,
}
use text.Mathlib.TextEquality.{eq_iff}
use vaic2026_charcalavong.Graph.{Edge}
use vaic2026_charcalavong.Store.{Db, RunNodeExecution, pending, completed}
use vaic2026_charcalavong.Store.Rows.{find, IsUnique}
use vaic2026_charcalavong.Engine.Types.{Plan, Outcome}
use vaic2026_charcalavong.Engine.Advance.{is_settled, is_ok}
use vaic2026_charcalavong.Engine.Turn.{IsComplete, is_at, Ran}

-- A node that has left `pending` has all its parents completed.
abbrev pub IsCausal : List Edge → Db → Type 0
IsCausal edges db =
    (p k : String)
    → elem (p, k) edges ≡ true
    → is_at db pending k ≡ false
    → is_at db completed p ≡ true

abbrev pub has_approvers : List String → Bool
has_approvers [] = false
has_approvers (uid ∷ uids) = true

-- The node waits for a human before it is completed.
abbrev pub is_gated : Db → String → Bool
is_gated db k = elim (find k db.nodes) [ none ↦ false | some r ↦ has_approvers r.approver_user_ids ]

-- No gated node is completed that was not completed at the start.
abbrev pub HoldsGates : Db → Db → Type 0
HoldsGates db0 db =
    (k : String)
    → is_gated db0 k ≡ true
    → is_at db0 completed k ≡ false
    → is_at db completed k ≡ false

-- No node was left in the middle of its run, or in a status that the engine does not write.
abbrev pub AllSettled : Db → Type 0
AllSettled db =
    (k : String) (r : RunNodeExecution) → find k db.nodes ≡ some r → is_settled r.status ≡ true

-- What has happened to the nodes since `db0`.
pub record Safe (plan : Plan) (db0 db : Db) : Type 0 where
  pub unique : IsUnique db.nodes
  pub rows :
      (k : String)
      → elem k plan.node_keys ≡ true
      → (r : RunNodeExecution) × (find k db.nodes ≡ some r)
  pub causal : IsCausal plan.edges db0 → IsCausal plan.edges db
  pub same_gates : (k : String) → is_gated db k ≡ is_gated db0 k
  pub gates : HoldsGates db0 db
  pub same_rollbacks : db.rollbacks ≡ db0.rollbacks

pub Safe-refl : (plan : Plan) (db : Db) → IsComplete plan db → Safe plan db db
Safe-refl plan db c = record {
  unique = c.unique;
  rows = c.rows;
  causal = λ h. h;
  same_gates = λ k. refl;
  gates = λ k g h. h;
  same_rollbacks = refl;
}

-- Tables with the same nodes.
pub Safe-same :
    (plan : Plan) (db0 db db' : Db)
    → db'.nodes ≡ db.nodes
    → db'.rollbacks ≡ db.rollbacks
    → Safe plan db0 db
    → Safe plan db0 db'
Safe-same plan db0 db db' e e' s = record {
  same_rollbacks = e' ∙ s.same_rollbacks;
  unique = subst IsUnique (sym e) s.unique;
  rows = λ k m. let (r, f) = s.rows k m in (r, ap (find k) e ∙ f);
  causal = λ h p k m out. ground (arith, ap (find k) e, ap (find p) e, s.causal h p k m);
  same_gates = λ k. ground (arith, ap (find k) e, s.same_gates k);
  gates = λ k g h. ground (arith, ap (find k) e, s.gates k g h);
}

module _ (plan : Plan) (db0 db : Db) (out : Outcome Bool) (ran : Ran plan db out) where
  at_other : (k : String) → (ran.key == k) ≡ false → find k out.1.nodes ≡ find k db.nodes
  at_other k f = ran.advance.found k ∙ rw f refl

  at_self : (k : String) → (ran.key == k) ≡ true → find k out.1.nodes ≡ some ran.advance.row'
  at_self k t = ran.advance.found k ∙ rw t refl

  was_self : (k : String) → (ran.key == k) ≡ true → find k db.nodes ≡ some ran.row
  was_self k t = subst (λ x. find x db.nodes ≡ some ran.row) ((eq_iff ran.key k).0 t) ran.at_key

  rows-Ran :
      ((k : String)
        → elem k plan.node_keys ≡ true
        → (r : RunNodeExecution) × (find k db.nodes ≡ some r))
      → (k : String) → elem k plan.node_keys ≡ true
      → (r : RunNodeExecution) × (find k out.1.nodes ≡ some r)
  rows-Ran rows k m = elim (Bool-cases (ran.key == k)) [
    | inl t ↦ (ran.advance.row', at_self k t)
    | inr f ↦ let (r, e) = rows k m in (r, at_other k f ∙ e)
  ]

  -- A completed parent is not the node that ran.
  completed-kept : (p : String) → is_at db completed p ≡ true → is_at out.1 completed p ≡ true
  completed-kept p h = elim (Bool-cases (ran.key == p)) [
    | inl t ↦ ground (arith, was_self p t, ran.idle)
    | inr f ↦ ground (arith, at_other p f)
  ]

  parents-done :
      (p k : String)
      → (ran.key == k) ≡ true
      → elem (p, k) plan.edges ≡ true
      → is_at db completed p ≡ true
  parents-done p k t m =
      ran.parents_done p
        (subst (λ x. elem (p, x) plan.edges ≡ true) (sym ((eq_iff ran.key k).0 t)) m)

  IsCausal-Ran : IsCausal plan.edges db → IsCausal plan.edges out.1
  IsCausal-Ran h p k m left = elim (Bool-cases (ran.key == k)) [
    | inl t ↦ completed-kept p (parents-done p k t m)
    | inr f ↦ completed-kept p (h p k m (ground (arith, at_other k f)))
  ]

  gate-Ran :
      (k : String)
      → is_gated db k ≡ true
      → is_at db completed k ≡ false
      → is_at out.1 completed k ≡ false
  gate-Ran k g h = elim (Bool-cases (ran.key == k)) [
    | inl t ↦ ground (arith, at_self k t, was_self k t, ran.advance.gate)
    | inr f ↦ ground (arith, at_other k f)
  ]

  same_gate-Ran : (k : String) → is_gated out.1 k ≡ is_gated db k
  same_gate-Ran k = elim (Bool-cases (ran.key == k)) [
    | inl t ↦ ground (arith, at_self k t, was_self k t, ran.advance.approvers)
    | inr f ↦ ground (arith, at_other k f)
  ]

  pub Safe-Ran : Safe plan db0 db → Safe plan db0 out.1
  Safe-Ran s = record {
    unique = ran.advance.unique;
    same_rollbacks = ran.advance.rollbacks ∙ s.same_rollbacks;
    rows = rows-Ran s.rows;
    causal = λ h. IsCausal-Ran (s.causal h);
    same_gates = λ k. same_gate-Ran k ∙ s.same_gates k;
    gates = λ k g h. gate-Ran k (s.same_gates k ∙ g) (s.gates k g h);
  }

  pub AllSettled-Ran : is_ok out.0 ≡ true → AllSettled db → AllSettled out.1
  AllSettled-Ran is_ret h k r e = elim (Bool-cases (ran.key == k)) [
    | inl t ↦ ground (arith, at_self k t, ran.advance.landed is_ret)
    | inr f ↦ h k r (sym (at_other k f) ∙ e)
  ]
