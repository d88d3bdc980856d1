-- ===== src/Actions/Growth.antt =====
-- What a round of the dispatch adds: notifications, and runs whose ids are reported.
use vaic2026_charcalavong.Prelude.{
  ℕ, String, ◌≡◌, refl, sym, ap, ◌∙◌, subst, ◌⊎◌, inl, inr, Bool-cases, Option, some, List, [], ◌∷◌,
  ◌++◌, map, ◌==◌, if◌then◌else◌, string_eq, beq-ne, ok,
}
use vaic2026_charcalavong.Store.{Json, Db, Snapshot}
use vaic2026_charcalavong.Worker.Authoring.{build_graph_snapshot}
use vaic2026_charcalavong.Catalog.{Workflow, Catalog, get_workflow, insert_run, create_run}
use vaic2026_charcalavong.Actions.{ActionBinding, ActionEvent, Notice, Desk}
use vaic2026_charcalavong.Actions.Dispatch.{
  Pass, after, recipients, notify_users, agent_notice, run_notice, run_input, Progress, id_of_run,
  dispatch_agent, with_run, dispatch_workflow, dispatch_bindings,
}

-- Notifications touch no other table.
pub record OnlyNotices (s s' : Desk) : Type 0 where
  pub same_events : s'.events ≡ s.events
  pub same_bindings : s'.bindings ≡ s.bindings
  pub same_workflows : s'.catalog.workflows ≡ s.catalog.workflows
  pub same_runs : s'.catalog.runs ≡ s.catalog.runs
  pub same_jobs : s'.jobs ≡ s.jobs

pub notify_users-OnlyNotices :
    (new_id : ℕ → String) (notice : String → String → Notice) (uids : List String) (s : Desk)
    → OnlyNotices s (notify_users new_id notice uids s).1
unfolding notify_users
notify_users-OnlyNotices new_id notice [] s = record {
  same_events = refl;
  same_bindings = refl;
  same_workflows = refl;
  same_runs = refl;
  same_jobs = refl;
}
notify_users-OnlyNotices new_id notice (uid ∷ uids) s =
    let rest = notify_users-OnlyNotices new_id notice uids _ in
    record {
      same_events = rest.same_events;
      same_bindings = rest.same_bindings;
      same_workflows = rest.same_workflows;
      same_runs = rest.same_runs;
      same_jobs = rest.same_jobs;
    }

-- Runs are only added, and reported in their order.
pub record Grew (acc : Progress) (s : Desk) (acc' : Progress) (s' : Desk) : Type 0 where
  pub same_bindings : s'.bindings ≡ s.bindings
  pub same_workflows : s'.catalog.workflows ≡ s.catalog.workflows
  pub same_jobs : s'.jobs ≡ s.jobs
  pub new_runs : List Db
  pub runs : s'.catalog.runs ≡ s.catalog.runs ++ new_runs
  pub reported : acc'.run_ids ≡ acc.run_ids ++ map id_of_run new_runs

append-nil {ℓ} : {A : Type ℓ} (xs : List A) → xs ++ [] ≡ xs
append-nil [] = refl
append-nil (x ∷ xs) = ap (λ l. x ∷ l) (append-nil xs)

pub append_assoc {ℓ} : {A : Type ℓ} (xs ys zs : List A) → (xs ++ ys) ++ zs ≡ xs ++ (ys ++ zs)
append_assoc [] ys zs = refl
append_assoc (x ∷ xs) ys zs = ap (λ l. x ∷ l) (append_assoc xs ys zs)

map-append {ℓ κ} :
    {A : Type ℓ} {B : Type κ} (f : A → B) (xs ys : List A) → map f (xs ++ ys) ≡ map f xs ++ map f ys
map-append f [] ys = refl
map-append f (x ∷ xs) ys = ap (λ l. f x ∷ l) (map-append f xs ys)

pub Grew-here : (acc : Progress) (s : Desk) → Grew acc s acc s
Grew-here acc s = record {
  same_bindings = refl;
  same_workflows = refl;
  same_jobs = refl;
  new_runs = [];
  runs = sym (append-nil s.catalog.runs);
  reported = sym (append-nil acc.run_ids);
}

pub Grew-then :
    (acc acc' acc'' : Progress) (s s' s'' : Desk)
    → Grew acc s acc' s'
    → Grew acc' s' acc'' s''
    → Grew acc s acc'' s''
Grew-then acc acc' acc'' s s' s'' g h = record {
  same_bindings = h.same_bindings ∙ g.same_bindings;
  same_workflows = h.same_workflows ∙ g.same_workflows;
  same_jobs = h.same_jobs ∙ g.same_jobs;
  new_runs = g.new_runs ++ h.new_runs;
  runs =
      h.runs
      ∙ ap (λ rs. rs ++ h.new_runs) g.runs
      ∙ append_assoc s.catalog.runs g.new_runs h.new_runs;
  reported =
      h.reported
      ∙ ap (λ ids. ids ++ map id_of_run h.new_runs) g.reported
      ∙ append_assoc acc.run_ids (map id_of_run g.new_runs) (map id_of_run h.new_runs)
      ∙ ap (λ ids. acc.run_ids ++ ids) (sym (map-append id_of_run g.new_runs h.new_runs));
}

-- A workflow that create_run accepts: it is there, and its graph is valid.
pub record IsRunnable (workflows : List Workflow) (b : ActionBinding) : Type 0 where
  pub workflow_id : String
  pub has_workflow : b.workflow_id ≡ some workflow_id
  pub workflow : Workflow
  pub exists : get_workflow workflow_id workflows ≡ ok workflow
  pub snapshot : Option Snapshot
  pub builds : build_graph_snapshot workflow.nodes workflow.edges workflow.approvers ≡ ok snapshot

abbrev pub AllRunnable : List Workflow → List ActionBinding → Type 0
AllRunnable workflows [] = Unit {0}
AllRunnable workflows (b ∷ bindings) =
    ((b.target_type ≡ "agent") ⊎ IsRunnable workflows b) × AllRunnable workflows bindings

-- A step that returns, grows the tables and leaves the events
pub record Grows (acc : Progress) (s : Desk) (out : Pass Progress) : Type 0 where
  pub acc' : Progress
  pub s' : Desk
  pub returns : out ≡ (ok acc', s')
  pub grew : Grew acc s acc' s'
  pub same_events : s'.events ≡ s.events

module _ (new_id : ℕ → String) (ev : ActionEvent) where
  dispatch_agent-Grows :
      (b : ActionBinding) (acc : Progress) (s : Desk)
      → Grows acc s (dispatch_agent new_id ev b acc s)
  unfolding dispatch_agent
  dispatch_agent-Grows b acc s =
      let n = notify_users-OnlyNotices new_id (agent_notice ev b) (recipients b) s in
      record {
        acc' = _;
        s' = _;
        returns = refl;
        grew = record {
          same_bindings = n.same_bindings;
          same_workflows = n.same_workflows;
          same_jobs = n.same_jobs;
          new_runs = [];
          runs = n.same_runs ∙ sym (append-nil s.catalog.runs);
          reported = sym (append-nil acc.run_ids);
        };
        same_events = n.same_events;
      }

  create_run-ok :
      (workflow_id : String) (w : Workflow) (input : Option Json) (snapshot : Option Snapshot)
      (cat : Catalog)
      → get_workflow workflow_id cat.workflows ≡ ok w
      → build_graph_snapshot w.nodes w.edges w.approvers ≡ ok snapshot
      → create_run new_id workflow_id "builder" input cat
        ≡ ok (insert_run new_id w input snapshot cat)
  unfolding create_run
  create_run-ok workflow_id w input snapshot cat exists builds = rw (exists, builds) refl

  dispatch_workflow-Grows :
      (b : ActionBinding) (acc : Progress) (s : Desk)
      → IsRunnable s.catalog.workflows b
      → Grows acc s (dispatch_workflow new_id ev b acc s)
  unfolding dispatch_workflow with_run
  dispatch_workflow-Grows b acc s run =
      let made = insert_run new_id run.workflow (some (run_input ev b)) run.snapshot s.catalog in
      let created =
        create_run-ok run.workflow_id run.workflow (some (run_input ev b)) run.snapshot s.catalog
          run.exists run.builds in
      let n =
        notify_users-OnlyNotices new_id (run_notice ev b (id_of_run made.1)) (recipients b)
          (record s { catalog = made.0 }) in
      let returns : dispatch_workflow new_id ev b acc s
          ≡ with_run new_id ev b acc (id_of_run made.1) (record s { catalog = made.0 }) =
        rw run.has_workflow (rw created refl) in
      record {
        acc' = _;
        s' = _;
        returns = returns;
        grew = record {
          same_bindings = n.same_bindings;
          same_workflows = n.same_workflows;
          same_jobs = n.same_jobs;
          new_runs = made.1 ∷ [];
          runs = n.same_runs;
          reported = refl;
        };
        same_events = n.same_events;
      }

  after-Grows :
      (acc : Progress) (s : Desk) (out : Pass Progress) (f : Progress → Desk → Pass Progress)
      → Grows acc s out
      → ((acc' : Progress) (s' : Desk)
          → s'.bindings ≡ s.bindings
          → s'.catalog.workflows ≡ s.catalog.workflows
          → Grows acc' s' (f acc' s'))
      → Grows acc s (after out f)
  after-Grows acc s out f g h =
      let next = h g.acc' g.s' g.grew.same_bindings g.grew.same_workflows in
      record {
        acc' = next.acc';
        s' = next.s';
        returns = ap (λ o. after o f) g.returns ∙ next.returns;
        grew = Grew-then acc g.acc' next.acc' s g.s' next.s' g.grew next.grew;
        same_events = next.same_events ∙ g.same_events;
      }

  pub dispatch_bindings-Grows :
      (bindings : List ActionBinding) (acc : Progress) (s : Desk)
      → AllRunnable s.catalog.workflows bindings
      → Grows acc s (dispatch_bindings new_id ev bindings acc s)
  unfolding dispatch_bindings
  dispatch_bindings-Grows [] acc s run = record {
    acc' = acc;
    s' = s;
    returns = refl;
    grew = Grew-here acc s;
    same_events = refl;
  }
  dispatch_bindings-Grows (b ∷ bindings) acc s run =
      after-Grows acc s _ (dispatch_bindings new_id ev bindings) (dispatch_one run.0)
        (λ acc' s' same_b same_w.
          dispatch_bindings-Grows bindings acc' s'
            (subst (λ ws. AllRunnable ws bindings) (sym same_w) run.1))
    where
      dispatch_one :
          (b.target_type ≡ "agent") ⊎ IsRunnable s.catalog.workflows b
          → Grows acc s (
              if b.target_type == "agent"
              then dispatch_agent new_id ev b acc s
              else dispatch_workflow new_id ev b acc s)
      dispatch_one r = elim (Bool-cases (b.target_type == "agent")) [
        | inl t ↦ rw t (dispatch_agent-Grows b acc s)
        | inr f ↦ elim r [
          | inl e ↦ absurd (beq-ne b.target_type "agent" f e)
          | inr w ↦ rw f (dispatch_workflow-Grows b acc s w)
        ]
      ]
