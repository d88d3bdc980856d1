-- ===== src/Engine/Outcome.antt =====
-- How the engine's loop ends: it terminates, and leaves the run waiting for a human or in a
-- terminal status that agrees with the nodes.
use mathlib.Core.Option
use vaic2026_charcalavong.Prelude.{
  ℕ, String, ◌≡◌, ◌↔◌, refl, sym, ap, ◌∙◌, subst, ◌⊎◌, inl, inr, Bool, true, false, ◌&&◌, Option,
  none, some, List, [], ◌∷◌, arith, ◌==◌, string_eq, pair_eq, elem, elem_self, elem_cons, any, all,
  Dict, lookup, values, Bool-cases,
}
use text.Mathlib.TextEquality.{eq_iff}
use vaic2026_charcalavong.Graph.{Edge}
use vaic2026_charcalavong.Graph.Spec.{IsOrdered, parents}
use vaic2026_charcalavong.Graph.Parents.{elem-parents}
use vaic2026_charcalavong.Store.{
  Db, obj, WorkflowRun, RunNodeExecution, RunStatus, run_running, awaiting_human, run_completed,
  is_run_status, NodeStatus, pending, awaiting_approval, completed, failed, is_status, by_key,
}
use vaic2026_charcalavong.Store.Rows.{lookup-by_key}
use vaic2026_charcalavong.State.{is_terminal_run, set_run}
use vaic2026_charcalavong.Engine.Types.{Plan, Outcome}
use vaic2026_charcalavong.Engine.Final.{finalize_run, final_status, has_status, collect}
use vaic2026_charcalavong.Engine.Advance.{paused_run}
use vaic2026_charcalavong.Engine.Turn.{IsPlan, IsComplete, is_at, Ended}
use vaic2026_charcalavong.Engine.Safe.{AllSettled}

abbrev pub run_status : Db → Option RunStatus
run_status db = Option.map (λ (r : WorkflowRun). r.status) db.run

abbrev pub AllCompleted : List String → Db → Type 0
AllCompleted keys db = (k : String) → elem k keys ≡ true → is_at db completed k ≡ true

-- The run is the engine's own: the caller has put it in `running`.
abbrev pub IsRunning : String → Option WorkflowRun → Type 0
IsRunning run_id o = (r : WorkflowRun) × (o ≡ some r) × (r.id ≡ run_id) × (r.status ≡ run_running)

-- The run is finalized, as completed exactly if every node is.
abbrev pub IsFinal : List String → Db → Type 0
IsFinal keys db =
    (s : RunStatus) × (run_status db ≡ some s)
    × (is_terminal_run s ≡ true)
    × ((s ≡ run_completed) ↔ AllCompleted keys db)

-- The two ways to stop.
abbrev pub IsStopped : List String → Db → Type 0
IsStopped keys db = (run_status db ≡ some awaiting_human) ⊎ IsFinal keys db

pub nodes-finalize_run :
    (run_id : String) (keys : List String) (edges : List Edge) (db : Db)
    → (finalize_run run_id keys edges db).nodes ≡ db.nodes
unfolding finalize_run
nodes-finalize_run run_id keys edges db = ground arith

pub rollbacks-finalize_run :
    (run_id : String) (keys : List String) (edges : List Edge) (db : Db)
    → (finalize_run run_id keys edges db).rollbacks ≡ db.rollbacks
unfolding finalize_run
rollbacks-finalize_run run_id keys edges db = ground arith

-- The run is there, with the snapshot that it had.
abbrev pub KeepsRun : WorkflowRun → Option WorkflowRun → Type 0
KeepsRun r o = (r' : WorkflowRun) × (o ≡ some r') × (r'.graph_snapshot ≡ r.graph_snapshot)

pub KeepsRun-finalize_run :
    (run_id : String) (keys : List String) (edges : List Edge) (db : Db) (r : WorkflowRun)
    → db.run ≡ some r
    → KeepsRun r (finalize_run run_id keys edges db).run
unfolding finalize_run set_run
KeepsRun-finalize_run run_id keys edges db r e =
    elim (Bool-cases ((r.id == run_id) && is_run_status r.status run_running)) [
      | inl t ↦ (
        set_run db.now (final_status keys edges (by_key db.nodes))
            (λ r. record r { result = some (obj (collect keys (by_key db.nodes))) }) r,
        ground (arith, e),
        refl,
      )
      | inr f ↦ (r, ground (arith, e), refl)
    ]

pub KeepsRun-paused_run :
    (run_id : String) (now : ℕ) (o : Option WorkflowRun) (r : WorkflowRun)
    → o ≡ some r
    → KeepsRun r (paused_run run_id now o)
unfolding set_run
KeepsRun-paused_run run_id now o r e =
    elim (Bool-cases ((r.id == run_id) && is_run_status r.status run_running)) [
      | inl t ↦ (set_run now awaiting_human (λ x. x) r, ground (arith, e), refl)
      | inr f ↦ (r, ground (arith, e), refl)
    ]

pub status-finalize_run :
    (run_id : String) (keys : List String) (edges : List Edge) (db : Db)
    → IsRunning run_id db.run
    → run_status (finalize_run run_id keys edges db)
      ≡ some (final_status keys edges (by_key db.nodes))
unfolding finalize_run set_run
status-finalize_run run_id keys edges db (r, e, same, s) = ground (arith, e, s, eq_iff r.id run_id)

pub status-paused_run :
    (run_id : String) (now : ℕ) (o : Option WorkflowRun)
    → IsRunning run_id o
    → Option.map (λ (r : WorkflowRun). r.status) (paused_run run_id now o) ≡ some awaiting_human
unfolding set_run
status-paused_run run_id now o (r, e, same, s) = ground (arith, e, s, eq_iff r.id run_id)

pub final_status-terminal :
    (keys : List String) (edges : List Edge) (d : Dict String RunNodeExecution)
    → is_terminal_run (final_status keys edges d) ≡ true
unfolding final_status
final_status-terminal keys edges d = ground arith

any-false :
    (p : String → Bool) (ks : List String)
    → ((k : String) → elem k ks ≡ true → p k ≡ false)
    → any p ks ≡ false
unfolding any elem
any-false p [] h = refl
any-false p (k ∷ ks) h =
    ground (arith, h k (elem_self k ks), any-false p ks (λ j m. h j (elem_cons k j ks m)))

any-none :
    (p : String → Bool) (ks : List String) (k : String)
    → any p ks ≡ false
    → elem k ks ≡ true
    → p k ≡ false
unfolding any elem
any-none p [] k h m = cc
any-none p (j ∷ ks) k h m = ground (arith, any-none p ks k, eq_iff j k, ap p)

all-true :
    (p : String → Bool) (ks : List String)
    → ((k : String) → elem k ks ≡ true → p k ≡ true)
    → all p ks ≡ true
unfolding all elem
all-true p [] h = refl
all-true p (k ∷ ks) h =
    ground (arith, h k (elem_self k ks), all-true p ks (λ j m. h j (elem_cons k j ks m)))

no_value :
    (p : RunNodeExecution → Bool) (d : Dict String RunNodeExecution) (k : String)
    (r : RunNodeExecution)
    → any p (values d) ≡ false
    → lookup k d ≡ some r
    → p r ≡ false
unfolding any values lookup
no_value p [] k r h e = cc
no_value p ((j, q) ∷ d) k r h e = ground (arith, no_value p d k r)

-- Nothing can run any more: the nodes that have not failed are completed, since the first pending
-- one in the order would have completed parents.
module _ (plan : Plan) (is_plan : IsPlan plan) (db : Db) (c : IsComplete plan db) where
  has-is_at : (s : NodeStatus) (k : String) → has_status s (by_key db.nodes) k ≡ is_at db s k
  has-is_at s k =
      ap (λ o. elim o [ none ↦ false | some r ↦ is_status r.status s ])
        (lookup-by_key k db.nodes c.unique.unique_keys)

  module _ (out : Outcome Bool) (ended : Ended plan db out) (settled : AllSettled db)
      (none_failed : (k : String) → elem k plan.node_keys ≡ true → is_at db failed k ≡ false) where
    one_completed :
        (k : String)
        → elem k plan.node_keys ≡ true
        → ((p : String) → elem (p, k) plan.edges ≡ true → is_at db completed p ≡ true)
        → is_at db completed k ≡ true
    one_completed k m h =
        let (r, e) = c.rows k m in
        ground (
          arith,
          e,
          settled k r e,
          none_failed k m,
          ended.stuck k m,
          has-is_at pending k,
          no_value (λ r. is_status r.status awaiting_approval) (by_key db.nodes) k r ended.no_review
              (lookup-by_key k db.nodes c.unique.unique_keys ∙ e),
          all-true (has_status completed (by_key db.nodes)) (parents plan.edges k)
              (λ p m'. has-is_at completed p ∙ h p (sym (elem-parents plan.edges p k) ∙ m')),
        )

    along :
        (before order : List String)
        → IsOrdered plan.edges before order
        → ((k : String) → elem k order ≡ true → elem k plan.node_keys ≡ true)
        → ((k : String) → elem k before ≡ true → is_at db completed k ≡ true)
        → (k : String) → elem k order ≡ true
        → is_at db completed k ≡ true
    unfolding elem
    along before [] o known done k m = cc
    along before (j ∷ order) o known done k m =
        let at_j = one_completed j (known j (elem_self j order)) (λ p m'. done p (o.0 p m')) in
        elim (Bool-cases (j == k)) [
          | inl t ↦ subst (λ x. is_at db completed x ≡ true) ((eq_iff j k).0 t) at_j
          | inr f ↦
              along (j ∷ before) order o.1 (λ i n. known i (elem_cons j i order n))
                (λ i n. elim (Bool-cases (j == i)) [
                  | inl t ↦ subst (λ x. is_at db completed x ≡ true) ((eq_iff j i).0 t) at_j
                  | inr f ↦ done i (ground arith)
                ])
                k (ground arith)
        ]

    pub AllCompleted-at_end : AllCompleted plan.node_keys db
    unfolding elem
    AllCompleted-at_end k m =
        along [] plan.order is_plan.ordered (λ j n. sym (is_plan.all_keys j) ∙ n) (λ j n. cc) k
          (is_plan.all_keys k ∙ m)

  pub final_status_lem :
      (out : Outcome Bool)
      → Ended plan db out
      → AllSettled db
      → (final_status plan.node_keys plan.edges (by_key db.nodes) ≡ run_completed)
        ↔ AllCompleted plan.node_keys db
  unfolding final_status
  final_status_lem out ended settled = (to, from)
    where
      failures : Bool
      failures = any (has_status failed (by_key db.nodes)) plan.node_keys

      to :
          final_status plan.node_keys plan.edges (by_key db.nodes) ≡ run_completed
          → AllCompleted plan.node_keys db
      to e = elim (Bool-cases failures) [
        | inl t ↦ ground arith
        | inr f ↦ AllCompleted-at_end out ended settled (λ k m.
            sym (has-is_at failed k)
            ∙ any-none (has_status failed (by_key db.nodes)) plan.node_keys k f m)
      ]

      from :
          AllCompleted plan.node_keys db
          → final_status plan.node_keys plan.edges (by_key db.nodes) ≡ run_completed
      from h =
          let f : failures ≡ false =
            any-false (has_status failed (by_key db.nodes)) plan.node_keys
              (λ k m. ground (arith, has-is_at failed k, h k m)) in
          rw f refl
