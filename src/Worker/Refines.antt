-- ===== src/Worker/Refines.antt =====
-- Every step of the workers and the reviewers is a sequence of moves of the abstract machine.
use mathlib.Core.Option
use vaic2026_charcalavong.Prelude.{
  String, ◌≡◌, refl, sym, ap, ◌∙◌, inl, inr, Bool, true, some, List, [], ◌∷◌, arith, if◌then◌else◌,
  ◌==◌, string_eq, pair_eq, elem, Bool-cases,
}
use vaic2026_charcalavong.Graph.{Edge}
use vaic2026_charcalavong.Store.{Db, RunNodeExecution}
use vaic2026_charcalavong.Store.Rows.{find}
use vaic2026_charcalavong.Engine.Safe.{is_gated, has_approvers}
use vaic2026_charcalavong.Worker.Machine.{
  View, Move, take, decide, roll_back, Moves, stay, move, status_at,
}

pub Move-gates :
    (edges : List Edge) (g g' : String → Bool) {v v' : View}
    → ((k : String) → g k ≡ g' k)
    → Move edges g v v'
    → Move edges g' v v'
Move-gates edges g g' same (take k s is_pending parents left held h) =
    take k s is_pending parents left (λ t. held (same k ∙ t)) h
Move-gates edges g g' same (decide k d awaits gated h) = decide k d awaits (sym (same k) ∙ gated) h
Move-gates edges g g' same (roll_back t below others) = roll_back t below others

Moves-gates :
    (edges : List Edge) (g g' : String → Bool) {v v' : View}
    → ((k : String) → g k ≡ g' k)
    → Moves edges g v v'
    → Moves edges g' v v'
Moves-gates edges g g' same (stay h) = stay h
Moves-gates edges g g' same (move rest m) =
    move (Moves-gates edges g g' same rest) (Move-gates edges g g' same m)

Move-to :
    (edges : List Edge) (g : String → Bool) {v v' v'' : View}
    → Move edges g v v'
    → ((k : String) → v'' k ≡ v' k)
    → Move edges g v v''
Move-to edges g (take k s is_pending parents left held h) same =
    take k s is_pending parents left held (λ j. same j ∙ h j)
Move-to edges g (decide k d awaits gated h) same = decide k d awaits gated (λ j. same j ∙ h j)
Move-to edges g (roll_back t below others) same =
    roll_back t (λ j r. same j ∙ below j r) (λ j ne far. same j ∙ others j ne far)

pub Moves-then :
    (edges : List Edge) (g : String → Bool) {v v' v'' : View}
    → Moves edges g v v'
    → Moves edges g v' v''
    → Moves edges g v v''
Moves-then edges g (stay h) (stay h') = stay (λ k. h' k ∙ h k)
Moves-then edges g (move rest m) (stay h') = move rest (Move-to edges g m h')
Moves-then edges g a (move rest m) = move (Moves-then edges g a rest) m

-- A row that is replaced, as the machine sees it
pub status-replaced :
    (j : String) (row' : RunNodeExecution) (db db' : Db)
    → ((k : String) → find k db'.nodes ≡ (if j == k then some row' else find k db.nodes))
    → (k : String) → status_at db' k ≡ (if j == k then some row'.status else status_at db k)
status-replaced j row' db db' found k =
    ap (Option.map (λ (r : RunNodeExecution). r.status)) (found k)
    ∙ elim (Bool-cases (j == k)) [ inl t ↦ rw t refl | inr f ↦ rw f refl ]

-- The tables, and what they have come from: the approvers as they were, and a sequence of moves.
pub record Refines (edges : List Edge) (db db' : Db) : Type 0 where
  pub gates : (k : String) → is_gated db' k ≡ is_gated db k
  pub moves : Moves edges (is_gated db) (status_at db) (status_at db')

pub Refines-same : (edges : List Edge) (db db' : Db) → db'.nodes ≡ db.nodes → Refines edges db db'
Refines-same edges db db' e = record {
  gates = λ k. ground (arith, ap (find k) e);
  moves = stay (λ k. ap (λ ns. Option.map (λ (r : RunNodeExecution). r.status) (find k ns)) e);
}

pub Refines-then :
    (edges : List Edge) (db db' db'' : Db)
    → Refines edges db db'
    → Refines edges db' db''
    → Refines edges db db''
Refines-then edges db db' db'' a b = record {
  gates = λ k. b.gates k ∙ a.gates k;
  moves =
      Moves-then edges (is_gated db) a.moves
        (Moves-gates edges (is_gated db') (is_gated db) a.gates b.moves);
}

some_approver :
    (actor : String) (uids : List String) → elem actor uids ≡ true → has_approvers uids ≡ true
unfolding elem
some_approver actor [] m = cc
some_approver actor (u ∷ uids) m = refl

pub gated-approver :
    (db : Db) (k : String) (row : RunNodeExecution) (actor : String)
    → find k db.nodes ≡ some row
    → elem actor row.approver_user_ids ≡ true
    → is_gated db k ≡ true
gated-approver db k row actor e m = ground (arith, e, some_approver actor row.approver_user_ids m)
