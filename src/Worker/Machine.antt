-- ===== src/Worker/Machine.antt =====
-- The abstract machine of a graph run: only the statuses of the nodes, the edges, and which nodes
-- have approvers. Agents, rows, requests and the order of the turns are left open.
use mathlib.Core.Option
use vaic2026_charcalavong.Prelude.{
  String, ◌≡◌, Bool, true, false, Option, none, some, List, if◌then◌else◌, ◌==◌, string_eq, pair_eq,
  elem, arith, Option-cases, ◌⊎◌, ◌≢◌, inl, inr,
}
use vaic2026_charcalavong.Graph.{Edge}
use vaic2026_charcalavong.Graph.Spec.{Walk}
use vaic2026_charcalavong.Store.{
  Db, RunNodeExecution, NodeStatus, pending, awaiting_approval, completed, Decision, is_status,
}
use vaic2026_charcalavong.Store.Rows.{find}
use vaic2026_charcalavong.Engine.Turn.{is_at}
use vaic2026_charcalavong.Review.Types.{decided_status}

abbrev pub View : Type 0
View = String → Option NodeStatus

abbrev pub shows : Option NodeStatus → NodeStatus → Bool
shows none s = false
shows (some t) s = is_status t s

-- One move. A pending node below completed parents is taken and leaves `pending`, never completed
-- at once if it has approvers. A node that awaits its approvers is decided. A rollback puts a node
-- and everything below it back to `pending`.
pub data Move (edges : List Edge) (gated : String → Bool) (v v' : View) : Type 0 where
  take :
      (k : String) (s : NodeStatus)
      → shows (v k) pending ≡ true
      → ((p : String) → elem (p, k) edges ≡ true → shows (v p) completed ≡ true)
      → is_status s pending ≡ false
      → (gated k ≡ true → is_status s completed ≡ false)
      → ((j : String) → v' j ≡ (if k == j then some s else v j))
      → Move edges gated v v'
  decide :
      (k : String) (d : Decision)
      → shows (v k) awaiting_approval ≡ true
      → gated k ≡ true
      → ((j : String) → v' j ≡ (if k == j then some (decided_status d) else v j))
      → Move edges gated v v'
  roll_back :
      (t : String)
      → ((j : String) → ((j ≡ t) ⊎ Walk edges t j) → v' j ≡ Option.map (λ s. pending) (v j))
      → ((j : String) → j ≢ t → ¬ Walk edges t j → v' j ≡ v j)
      → Move edges gated v v'

pub data Moves (edges : List Edge) (gated : String → Bool) : View → View → Type 0 where
  stay : {v v' : View} → ((k : String) → v' k ≡ v k) → Moves edges gated v v'
  move :
      {v v' v'' : View} → Moves edges gated v v' → Move edges gated v' v'' → Moves edges gated v v''

-- What the machine sees of the tables
abbrev pub status_at : Db → View
status_at db k = Option.map (λ (r : RunNodeExecution). r.status) (find k db.nodes)

pub shows-status_at :
    (db : Db) (k : String) (s : NodeStatus) → shows (status_at db k) s ≡ is_at db s k
shows-status_at db k s = elim (Option-cases (find k db.nodes)) [
  | inl e ↦ ground (arith, e)
  | inr (r, e) ↦ ground (arith, e)
]
