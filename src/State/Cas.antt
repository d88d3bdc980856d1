-- ===== src/State/Cas.antt =====
-- The compare-and-set on a node row changes that row or nothing, and says which.
use mathlib.Core.Option
use text.Mathlib.TextEquality.{eq_iff}
use text.Mathlib.TextPositions.{eq_refl}
use vaic2026_charcalavong.Prelude.{
  ℕ, String, ◌≡◌, refl, sym, ap, ◌∙◌, subst, inl, inr, Bool, true, ◌&&◌, Option, none, some, arith,
  if◌then◌else◌, ◌==◌, nat_eq, string_eq, Bool-cases,
}
use vaic2026_charcalavong.Store.{Db, RunNodeExecution, NodeStatus, is_status, update_where}
use vaic2026_charcalavong.Store.Rows.{
  find, IsUnique, Keeps, find-key, find-update, IsUnique-update, same_row, count-one,
}
use vaic2026_charcalavong.State.{node_hit, set_node, transition_node_status}

pub set_node-Keeps :
    (now : ℕ) (to : NodeStatus) (extra : RunNodeExecution → RunNodeExecution)
    → Keeps extra
    → Keeps (set_node now to extra)
unfolding set_node
set_node-Keeps now to extra k = record {
  same_key = λ r. k.same_key _;
  same_id = λ r. k.same_id _;
  same_approvers = λ r. k.same_approvers _;
}

module _ (j : String) (r : RunNodeExecution) (db : Db) (unique : IsUnique db.nodes)
    (found : find j db.nodes ≡ some r) where
  -- An update by the row's id, under any further condition on the row.
  pub find-update_row :
      (hit : RunNodeExecution → Bool) (change : RunNodeExecution → RunNodeExecution)
      → Keeps change
      → ((x : RunNodeExecution) → hit x ≡ true → x.id ≡ r.id)
      → (k : String)
      → find k (update_where hit change db.nodes)
        ≡ (if (j == k) && hit r then some (change r) else find k db.nodes)
  find-update_row hit change keep by_id k =
      find-update hit change keep k db.nodes ∙ at (find k db.nodes) refl
    where
      same_at : (j == k) ≡ true → find k db.nodes ≡ some r
      same_at e = subst (λ x. find x db.nodes ≡ some r) ((eq_iff j k).0 e) found

      at_k : (q : RunNodeExecution) → find k db.nodes ≡ some q → hit q ≡ true → (j == k) ≡ true
      at_k q e h =
          let same = same_row j k db.nodes r q unique.unique_ids found e (by_id q h) in
          (eq_iff j k).1 (
            sym (find-key j db.nodes r found)
            ∙ sym (ap (λ (x : RunNodeExecution). x.node_key) same)
            ∙ find-key k db.nodes q e)

      at :
          (o : Option RunNodeExecution)
          → find k db.nodes ≡ o
          → Option.map (λ x. if hit x then change x else x) o
            ≡ (if (j == k) && hit r then some (change r) else o)
      at none e = ground (arith, same_at)
      at (some q) e = elim (Bool-cases (j == k)) [
        | inl t ↦ ground (arith, same_at t)
        | inr f ↦ elim (Bool-cases (hit q)) [
          | inl h ↦ ground (arith, at_k q e h)
          | inr h ↦ ground arith
        ]
      ]

  module _ (from to : NodeStatus) (extra : RunNodeExecution → RunNodeExecution)
      (extra_where : RunNodeExecution → Bool) (keep : Keeps extra) where
    abbrev result : Db × Bool
    result = transition_node_status r.id from to extra extra_where db

    by_id : (x : RunNodeExecution) → node_hit r.id from extra_where x ≡ true → x.id ≡ r.id
    by_id x h = ground (arith, eq_iff x.id r.id)

    hit_row : node_hit r.id from extra_where r ≡ (is_status r.status from && extra_where r)
    hit_row = rw eq_refl refl

    pub won-transition :
        (transition_node_status r.id from to extra extra_where db).1
        ≡ (is_status r.status from && extra_where r)
    unfolding transition_node_status
    won-transition = ground (
      arith,
      count-one j db.nodes r (node_hit r.id from extra_where) unique.unique_ids found by_id,
      hit_row,
    )

    pub find-transition :
        (k : String)
        → find k (transition_node_status r.id from to extra extra_where db).0.nodes ≡ (
            if (j == k) && (is_status r.status from && extra_where r)
            then some (set_node db.now to extra r)
            else find k db.nodes)
    unfolding transition_node_status
    find-transition k =
        find-update_row (node_hit r.id from extra_where) (set_node db.now to extra)
          (set_node-Keeps db.now to extra keep) by_id k
        ∙ ap (λ b. if (j == k) && b then some (set_node db.now to extra r) else find k db.nodes)
            hit_row

    pub IsUnique-transition :
        IsUnique (transition_node_status r.id from to extra extra_where db).0.nodes
    unfolding transition_node_status
    IsUnique-transition =
        IsUnique-update (node_hit r.id from extra_where) (set_node db.now to extra)
          (set_node-Keeps db.now to extra keep) db.nodes unique

    -- Conditions: the rows have distinct ids and keys, the row with key `j` is `r`, and the further
    -- columns leave ids, keys and approvers alone. The compare-and-set reports success exactly if
    -- `r` has the expected status and meets the further condition. Then that row alone is
    -- rewritten; else no row is. No other table changes.
    pub transition_node_status_lem :
        ((transition_node_status r.id from to extra extra_where db).1
          ≡ (is_status r.status from && extra_where r))
        × ((k : String)
            → find k (transition_node_status r.id from to extra extra_where db).0.nodes ≡ (
                if (j == k) && (transition_node_status r.id from to extra extra_where db).1
                then some (set_node db.now to extra r)
                else find k db.nodes))
        × ((transition_node_status r.id from to extra extra_where db).0 ≡ record db {
          nodes = (transition_node_status r.id from to extra extra_where db).0.nodes;
        })
    transition_node_status_lem = (
      won-transition,
      λ k.
          find-transition k
          ∙ ap (λ b. if (j == k) && b then some (set_node db.now to extra r) else find k db.nodes)
              (sym won-transition),
      unfold transition_node_status in refl,
    )
