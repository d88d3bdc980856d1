-- ===== src/Graph.antt =====
-- backend/app/modules/orchestrator/graph_validation.py: the checks on a node and edge set, Kahn's
-- algorithm, and the topology helpers. The proofs are in the modules below.
pub mod Spec
mod Filling
mod Waiting
mod Kahn
mod Drain
mod Checks
pub mod Order
pub mod Valid
pub mod Reach
pub mod Parents
mod Samples
use mathlib.Core.List.{reverse}
use vaic2026_charcalavong.Prelude.{
  ℕ, zero, suc, ◌+◌, String, Bool, true, false, not, Option, none, some, List, [], ◌∷◌, ◌++◌, map,
  Result, ok, raise, ◌>>=◌, ◌>>◌, if◌then◌else◌, ◌==◌, nat_eq, string_eq, pair_eq, length, keep,
  elem, Dict, lookup, put, from_keys,
}

abbrev pub Edge : Type 0
Edge = String × String

-- `GraphValidationError` with its message, and the `KeyError` of a subscript. `diverged` stands
-- for a loop that ran out of fuel.
pub data GraphError : Type 0 where
  duplicate_key unknown_from unknown_to self_loop : String → GraphError
  duplicate_edge : String → String → GraphError
  cycle : GraphError
  key_error : String → GraphError
  diverged : GraphError

abbrev pub Checked : Type 0 → Type 0
Checked A = Result GraphError A

-- A Python `int` that is counted up and down: `negsuc n` is -(n + 1).
pub data ℤ : Type 0 where
  pos : ℕ → ℤ
  negsuc : ℕ → ℤ

abbrev pub increment : ℤ → ℤ
increment (pos n) = pos (suc n)
increment (negsuc zero) = pos 0
increment (negsuc (suc n)) = negsuc n

abbrev pub decrement : ℤ → ℤ
decrement (pos zero) = negsuc 0
decrement (pos (suc n)) = pos n
decrement (negsuc n) = negsuc (suc n)

abbrev pub is_zero : ℤ → Bool
is_zero (pos zero) = true
is_zero (pos (suc n)) = false
is_zero (negsuc n) = false

-- d[k]
abbrev pub or_key_error {ℓ} : {V : Type ℓ} → String → Option V → Result GraphError V
or_key_error k none = raise (key_error k)
or_key_error k (some v) = ok v

unfoldable pub subscript {ℓ} : {V : Type ℓ} → Dict String V → String → Result GraphError V
subscript d k = or_key_error k (lookup k d)

-- `for key in node_keys: if key in seen: raise`
unfoldable pub check_keys : List String → List String → Checked (List String)
check_keys seen [] = ok seen
check_keys seen (key ∷ keys) =
    let rest = check_keys (key ∷ seen) keys in
    if elem key seen then raise (duplicate_key key) else rest

-- `for src, dst in edges`, the checks in their order
unfoldable pub check_edges : List String → List Edge → List Edge → Checked (Unit {0})
check_edges seen edge_seen [] = ok tt
check_edges seen edge_seen ((src, dst) ∷ edges) =
    let rest = check_edges seen ((src, dst) ∷ edge_seen) edges in
    if not (elem src seen)
    then raise (unknown_from src)
    else if not (elem dst seen)
    then raise (unknown_to dst)
    else if src == dst
    then raise (self_loop src)
    else if elem (src, dst) edge_seen
    then raise (duplicate_edge src dst)
    else rest

-- `indegree` and `adjacency`
pub record Tables : Type 0 where
  pub indegree : Dict String ℤ
  pub adjacency : Dict String (List String)

-- for src, dst in edges: indegree[dst] += 1; adjacency[src].append(dst)
unfoldable pub fill : Tables → List Edge → Checked Tables
unfolding subscript
fill t [] = ok t
fill t ((src, dst) ∷ edges) = do
  n ← subscript t.indegree dst
  cs ← subscript t.adjacency src
  fill
      (record {
        indegree = put dst (increment n) t.indegree;
        adjacency = put src (cs ++ dst ∷ []) t.adjacency;
      })
      edges

unfoldable pub build : List String → List Edge → Checked Tables
unfolding fill
build node_keys edges =
    fill (record { indegree = from_keys node_keys (pos 0); adjacency = from_keys node_keys [] })
      edges

-- for child in adjacency[node]: indegree[child] -= 1; if indegree[child] == 0: queue.append(child)
unfoldable pub relax :
    Dict String ℤ → List String → List String → Checked (Dict String ℤ × List String)
unfolding subscript
relax indegree queue [] = ok (indegree, queue)
relax indegree queue (child ∷ children) = do
  n ← subscript indegree child
  relax (put child (decrement n) indegree)
      (if is_zero (decrement n) then queue ++ child ∷ [] else queue) children

-- `while queue`, on fuel; the list of the nodes taken off the queue
unfoldable pub drain :
    ℕ
    → Dict String (List String)
    → Dict String ℤ
    → List String
    → List String
    → Checked (List String)
unfolding relax subscript
drain fuel adjacency indegree [] order = ok order
drain zero adjacency indegree (node ∷ queue) order = raise diverged
drain (suc fuel) adjacency indegree (node ∷ queue) order = do
  children ← subscript adjacency node
  (indegree', queue') ← relax indegree queue children
  drain fuel adjacency indegree' queue' (order ++ node ∷ [])

-- `indegree[k] == 0`, for a key of the table
unfoldable pub is_root : Dict String ℤ → String → Bool
is_root indegree k = elim (lookup k indegree) [ none ↦ false | some n ↦ is_zero n ]

-- Each node is taken off the queue once, so two rounds for each node are more than enough.
abbrev pub enough : List String → ℕ
enough node_keys = length node_keys + length node_keys

unfoldable pub topological_order : List String → List Edge → Checked (List String)
unfolding build drain is_root
topological_order node_keys edges = do
  t ← build node_keys edges
  drain (enough node_keys) t.adjacency t.indegree (keep (is_root t.indegree) node_keys) []

-- The same loop where only the number of nodes is kept: `consumed += 1`
unfoldable pub consume : ℕ → Dict String (List String) → Dict String ℤ → List String → ℕ → Checked ℕ
unfolding relax subscript
consume fuel adjacency indegree [] consumed = ok consumed
consume zero adjacency indegree (node ∷ queue) consumed = raise diverged
consume (suc fuel) adjacency indegree (node ∷ queue) consumed = do
  children ← subscript adjacency node
  (indegree', queue') ← relax indegree queue children
  consume fuel adjacency indegree' queue' (consumed + 1)

unfoldable pub assert_valid_graph : List String → List Edge → Checked (Unit {0})
unfolding check_keys check_edges build consume is_root
assert_valid_graph node_keys edges = do
  seen ← check_keys [] node_keys
  check_edges seen [] edges
  t ← build node_keys edges
  consumed ←
      consume (enough node_keys) t.adjacency t.indegree (keep (is_root t.indegree) node_keys) 0
  if consumed == length node_keys then ok tt else raise cycle

-- `parents[dst].append(src)` where `dst in parents`
abbrev pub add_parent :
    String → String → Dict String (List String) → Option (List String) → Dict String (List String)
add_parent src dst parents none = parents
add_parent src dst parents (some ps) = put dst (ps ++ src ∷ []) parents

unfoldable pub add_parents : Dict String (List String) → List Edge → Dict String (List String)
add_parents parents [] = parents
add_parents parents ((src, dst) ∷ edges) =
    add_parents (add_parent src dst parents (lookup dst parents)) edges

unfoldable pub parents_by_key : List String → List Edge → Dict String (List String)
unfolding add_parents
parents_by_key node_keys edges = add_parents (from_keys node_keys []) edges

unfoldable pub root_keys : List String → List Edge → List String
root_keys node_keys edges = keep (λ k. not (elem k (map (λ (e : Edge). e.1) edges))) node_keys

-- adjacency[src].append(dst), of `descendants`
unfoldable pub link : Dict String (List String) → List Edge → Checked (Dict String (List String))
unfolding subscript
link adjacency [] = ok adjacency
link adjacency ((src, dst) ∷ edges) = do
  cs ← subscript adjacency src
  link (put src (cs ++ dst ∷ []) adjacency) edges

-- adjacency.get(k, [])
unfoldable pub get_list : Dict String (List String) → String → List String
get_list adjacency k = elim (lookup k adjacency) [ none ↦ [] | some cs ↦ cs ]

-- `while stack`, on fuel; the top of the stack is the head of the list
unfoldable pub visit :
    ℕ → Dict String (List String) → List String → List String → Checked (List String)
unfolding get_list
visit fuel adjacency [] seen = ok seen
visit zero adjacency (node ∷ stack) seen = raise diverged
visit (suc fuel) adjacency (node ∷ stack) seen =
    let skipped = visit fuel adjacency stack seen in
    let opened = visit fuel adjacency (reverse (get_list adjacency node) ++ stack) (node ∷ seen) in
    if elem node seen then skipped else opened

-- `seen.discard(target)`; the list holds each key of the set once
unfoldable pub descendants : List String → List Edge → String → Checked (List String)
unfolding link visit get_list
descendants node_keys edges target = do
  adjacency ← link (from_keys node_keys []) edges
  seen ← visit (length edges + length edges) adjacency (reverse (get_list adjacency target)) []
  ok (keep (λ k. not (k == target)) seen)
