-- ===== src/Catalog/Created.antt =====
-- What `create_run` adds to the tenant's tables.
use vaic2026_charcalavong.Prelude.{
  ℕ, zero, suc, ◌≤◌, String, ◌≡◌, refl, ap, false, Option, none, some, List, [], ◌∷◌, ◌++◌, map,
  arith, ◌==◌, string_eq, ok, length, elem, Distinct, ≢→beq,
}
use vaic2026_charcalavong.Store.{Json, Db, Snapshot, RunNodeExecution, first_where}
use vaic2026_charcalavong.Store.Rows.{find}
use vaic2026_charcalavong.Engine.Types.{node_keys_of}
use vaic2026_charcalavong.Worker.Authoring.{WorkflowNode}
use vaic2026_charcalavong.Worker.Create.{IsUntouched, gates_of_rows, gates_of_nodes}
use vaic2026_charcalavong.Worker.Sound.{IsSound}
use vaic2026_charcalavong.Catalog.{Workflow, Catalog, get_workflow, ids_from, new_run}

pub length-ids_from : (new_id : ℕ → String) (first n : ℕ) → length (ids_from new_id first n) ≡ n
unfolding ids_from
length-ids_from new_id first zero = refl
length-ids_from new_id first (suc n) = ap suc (length-ids_from new_id (suc first) n)

module _ (new_id : ℕ → String) (no_clash : (i j : ℕ) → new_id i ≡ new_id j → i ≡ j) where
  pub elem-ids_from :
      (i first n : ℕ) → suc i ≤ first → elem (new_id i) (ids_from new_id first n) ≡ false
  unfolding ids_from elem
  elem-ids_from i first zero h = refl
  elem-ids_from i first (suc n) h =
      rw (≢→beq (new_id first) (new_id i) (λ e. omega (arith, no_clash first i e)))
        (elem-ids_from i (suc first) n (omega arith))

  pub Distinct-ids_from : (first n : ℕ) → Distinct (ids_from new_id first n)
  unfolding ids_from
  Distinct-ids_from first zero = tt
  Distinct-ids_from first (suc n) =
      (elem-ids_from first (suc first) n (omega arith), Distinct-ids_from (suc first) n)

get_workflow-first :
    (id : String) (workflows : List Workflow) (w : Workflow)
    → get_workflow id workflows ≡ ok w
    → first_where (λ (w : Workflow). w.id == id) workflows ≡ some w
unfolding get_workflow
get_workflow-first id workflows w e = ground arith

-- The run and its node rows: none without a graph, and otherwise a sound graph run whose nodes
-- nobody has run or decided.
abbrev pub HasGraph : Workflow → Option Snapshot → Db → Type 0
HasGraph w none db = (w.nodes ≡ []) × (db.nodes ≡ [])
HasGraph w (some s) db =
    (node_keys_of s ≡ map (λ (n : WorkflowNode). n.node_key) w.nodes)
    × IsSound s db
    × ((k : String) (r : RunNodeExecution) → find k db.nodes ≡ some r → IsUntouched r)
    × (gates_of_rows db.nodes ≡ gates_of_nodes s.nodes)

pub record IsCreated (new_id : ℕ → String) (w : Workflow) (input : Option Json) (cat cat' : Catalog)
    (db : Db) : Type 0 where
  pub snapshot : Option Snapshot
  pub run : db.run ≡ some (new_run (new_id cat.fresh) w.id input snapshot)
  pub graph : HasGraph w snapshot db
  pub runs : cat'.runs ≡ cat.runs ++ db ∷ []
  pub workflows : cat'.workflows ≡ cat.workflows
