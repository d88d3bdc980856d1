-- ===== src/Catalog/Shown.antt =====
-- What the editor shows of the inserted rows: the nodes of the request, each with its approvers.
use vaic2026_charcalavong.Prelude.{
  ℕ, suc, ◌≤◌, String, ◌≡◌, refl, ap, ◌∙◌, subst, false, List, [], ◌∷◌, ◌++◌, map, arith, ◌==◌,
  string_eq, beq_refl, ≢→beq,
}
use vaic2026_charcalavong.Store.{or_braces, Json, null, truth, num, str, arr, obj, SnapshotNode}
use vaic2026_charcalavong.Worker.Authoring.{WorkflowNode, WorkflowNodeApprover}
use vaic2026_charcalavong.Worker.Build.{approvers_of, ++-nil}
use vaic2026_charcalavong.Catalog.Editor.{GraphNodeIn, approver}
use vaic2026_charcalavong.Catalog.Links.{rows_from, approvers_from}

approvers_of-append :
    (id : String) (xs ys : List WorkflowNodeApprover)
    → approvers_of id (xs ++ ys) ≡ approvers_of id xs ++ approvers_of id ys
approvers_of-append id [] ys = refl
approvers_of-append id (x ∷ xs) ys = ground (arith, approvers_of-append id xs ys)

approvers_of-same :
    (id : String) (uids : List String) → approvers_of id (map (approver id) uids) ≡ uids
approvers_of-same id [] = refl
approvers_of-same id (u ∷ uids) = rw (beq_refl id) (ap (λ us. u ∷ us) (approvers_of-same id uids))

approvers_of-other :
    (id other : String) (uids : List String)
    → (other == id) ≡ false
    → approvers_of id (map (approver other) uids) ≡ []
approvers_of-other id other [] f = refl
approvers_of-other id other (u ∷ uids) f = rw f (approvers_of-other id other uids f)

append_assoc : (xs ys zs : List WorkflowNodeApprover) → (xs ++ ys) ++ zs ≡ xs ++ (ys ++ zs)
append_assoc [] ys zs = refl
append_assoc (x ∷ xs) ys zs = ap (λ l. x ∷ l) (append_assoc xs ys zs)

-- What the editor is to show of a node of the request, and of a stored row
abbrev pub as_saved : GraphNodeIn → SnapshotNode
as_saved n = record {
  node_key = n.node_key;
  label = n.label;
  agent_id = n.agent_id;
  config = or_braces n.config;
  approver_user_ids = n.approver_user_ids;
}

abbrev pub shown : List String → WorkflowNode → SnapshotNode
shown uids r = record {
  node_key = r.node_key;
  label = r.label;
  agent_id = r.agent_id;
  config = or_braces r.config;
  approver_user_ids = uids;
}

pub or_braces-twice : (j : Json) → or_braces (or_braces j) ≡ or_braces j
or_braces-twice null = refl
or_braces-twice (truth b) = refl
or_braces-twice (num s) = refl
or_braces-twice (str s) = refl
or_braces-twice (arr js) = refl
or_braces-twice (obj fs) = refl

module _ (new_id : ℕ → String) (no_clash : (i j : ℕ) → new_id i ≡ new_id j → i ≡ j) where
  clash_free : (i j : ℕ) → suc i ≤ j → (new_id j == new_id i) ≡ false
  clash_free i j h = ≢→beq (new_id j) (new_id i) (λ e. omega (arith, no_clash j i e))

  approvers_of-later :
      (j i : ℕ) (nodes : List GraphNodeIn)
      → suc j ≤ i
      → approvers_of (new_id j) (approvers_from new_id i nodes) ≡ []
  approvers_of-later j i [] h = refl
  approvers_of-later j i (n ∷ nodes) h =
      approvers_of-append (new_id j) (map (approver (new_id i)) n.approver_user_ids)
        (approvers_from new_id (suc i) nodes)
      ∙ rw (approvers_of-other (new_id j) (new_id i) n.approver_user_ids (clash_free j i h))
          (approvers_of-later j (suc i) nodes (omega arith))

  -- Behind the approvers of earlier nodes, each row has those of its own node.
  pub shown_rows :
      (i : ℕ) (nodes : List GraphNodeIn) (before : List WorkflowNodeApprover)
      → ((j : ℕ) → i ≤ j → approvers_of (new_id j) before ≡ [])
      → map
          (λ (r : WorkflowNode).
            shown (approvers_of r.id (before ++ approvers_from new_id i nodes)) r)
          (rows_from new_id i nodes)
        ≡ map as_saved nodes
  shown_rows i [] before h = refl
  shown_rows i (n ∷ nodes) before h =
      let mine = map (approver (new_id i)) n.approver_user_ids in
      let rest = approvers_from new_id (suc i) nodes in
      let own : approvers_of (new_id i) (before ++ (mine ++ rest)) ≡ n.approver_user_ids =
        rw
          (
            approvers_of-append (new_id i) before (mine ++ rest),
            h i (omega arith),
            approvers_of-append (new_id i) mine rest,
            approvers_of-same (new_id i) n.approver_user_ids,
            approvers_of-later i (suc i) nodes (omega arith),
          )
          (++-nil n.approver_user_ids) in
      let tail = shown_rows (suc i) nodes (before ++ mine) (λ j le.
        approvers_of-append (new_id j) before mine
        ∙ rw (h j (omega arith)) (
            approvers_of-other (new_id j) (new_id i) n.approver_user_ids
              (≢→beq (new_id i) (new_id j) (λ e. omega (arith, no_clash i j e))))) in
      let same = append_assoc before mine rest in
      ap
        (λ s.
          s
          ∷ map (λ (r : WorkflowNode). shown (approvers_of r.id (before ++ (mine ++ rest))) r)
              (rows_from new_id (suc i) nodes))
        (rw own (rw or_braces-twice refl))
      ∙ ap (λ l. as_saved n ∷ l)
          (subst
            (λ l.
              map (λ (r : WorkflowNode). shown (approvers_of r.id l) r)
                (rows_from new_id (suc i) nodes)
              ≡ map as_saved nodes)
            same tail)
