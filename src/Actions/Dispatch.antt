-- ===== src/Actions/Dispatch.antt =====
-- The worker's half of backend/app/modules/action/service.py, and `process_tenant_action_events` of
-- worker.py. The table of the events is in the order of their creation. A `create_run` that raises
-- ends the pass, and what was committed before stays.
use Prim.Native.String.{◌++◌ as ◌⧺◌}
use vaic2026_charcalavong.Prelude.{
  ℕ, suc, String, Bool, ◌&&◌, Option, none, some, List, [], ◌∷◌, ◌++◌, map, if◌then◌else◌, ◌==◌,
  string_eq, keep, Result, ok, raise,
}
use vaic2026_charcalavong.Store.{
  Json, null, str, obj, Fields, end, field, Db, update_where, first_where,
}
use vaic2026_charcalavong.Catalog.{AppError, not_found, Catalog, create_run}
use vaic2026_charcalavong.Actions.{
  EventStatus, event_dispatched, event_skipped, is_event_pending, ActionBinding, ActionEvent,
  EventResult, Dispatched, to_agent, to_run, Notice, Desk,
}

-- What a step returns or raises, with the tables that it leaves
abbrev pub Pass : Type 0 → Type 0
Pass A = Result AppError A × Desk

abbrev pub after : {A B : Type 0} → Pass A → (A → Desk → Pass B) → Pass B
after (raise e, s) f = (raise e, s)
after (ok a, s) f = f a s

abbrev pub text_or_null : Option String → Json
text_or_null none = null
text_or_null (some t) = str t

-- list(b.notify_user_ids or []) or [b.owner_id]
abbrev pub or_owner : List String → String → List String
or_owner [] owner_id = owner_id ∷ []
or_owner (u ∷ users) owner_id = u ∷ users

abbrev pub recipients : ActionBinding → List String
recipients b = or_owner b.notify_user_ids b.owner_id

-- create_notification (notification/service.py), for each recipient; the ids of the rows
unfoldable pub notify_users :
    (ℕ → String) → (String → String → Notice) → List String → Desk → List String × Desk
notify_users new_id notice [] s = ([], s)
notify_users new_id notice (uid ∷ uids) s =
    let id = new_id s.catalog.fresh in
    let (rest, s') = notify_users new_id notice uids (record s {
      notices = s.notices ++ notice id uid ∷ [];
      catalog = record s.catalog { fresh = suc s.catalog.fresh };
    }) in
    (id ∷ rest, s')

abbrev pub agent_ref : ActionEvent → ActionBinding → Fields
agent_ref ev b = field "agent_id" (text_or_null b.agent_id) (
    field "app_id" (str ev.app_id)
      (field "action_id" (str b.id) (field "row_id" (text_or_null ev.row_id) end)))

abbrev pub run_ref : ActionEvent → ActionBinding → String → Fields
run_ref ev b run_id = field "workflow_run_id" (str run_id) (
    field "app_id" (str ev.app_id)
      (field "action_id" (str b.id) (field "row_id" (text_or_null ev.row_id) end)))

abbrev pub started_notice : String → Fields → ActionBinding → String → String → Notice
started_notice body ref b id uid = record {
  id = id;
  user_id = uid;
  category = "action.dispatched";
  title = "New submission received — " ⧺ b.name;
  body = body;
  ref = ref;
}

abbrev pub agent_notice : ActionEvent → ActionBinding → String → String → Notice
agent_notice ev b =
    started_notice "A new record started background agent processing." (agent_ref ev b) b

abbrev pub run_notice : ActionEvent → ActionBinding → String → String → String → Notice
run_notice ev b run_id =
    started_notice "A new record started background workflow processing." (run_ref ev b run_id) b

-- (ev.payload or {}).get("data", {})
unfoldable pub data_of : Fields → Json
data_of end = obj end
data_of (field k v fields) = if k == "data" then v else data_of fields

abbrev pub run_input : ActionEvent → ActionBinding → Json
unfolding data_of
run_input ev b = obj (
    field "source" (str "action") (
      field "action_id" (str b.id) (
        field "app_id" (str ev.app_id) (
          field "row_id" (text_or_null ev.row_id)
            (field "event_type" (str ev.event_type) (field "data" (data_of ev.payload) end))))))

-- DispatchOutcome, with what is kept for the event at hand
pub record Progress : Type 0 where
  pub run_ids : List String
  pub agent_tasks : List (String × String)
  pub dispatched : List Dispatched
  pub first_run_id : Option String

abbrev pub id_of_run : Db → String
id_of_run db = elim db.run [ none ↦ "" | some r ↦ r.id ]

abbrev pub or_first : Option String → String → Option String
or_first none id = some id
or_first (some first) id = some first

unfoldable pub dispatch_agent :
    (ℕ → String) → ActionEvent → ActionBinding → Progress → Desk → Pass Progress
unfolding notify_users
dispatch_agent new_id ev b acc s =
    let (notification_ids, s') = notify_users new_id (agent_notice ev b) (recipients b) s in
    (
      ok (record acc {
        agent_tasks = acc.agent_tasks ++ (ev.id, b.id) ∷ [];
        dispatched = acc.dispatched ++ to_agent b.id b.agent_id notification_ids ∷ [];
      }),
      s',
    )

unfoldable pub with_run :
    (ℕ → String) → ActionEvent → ActionBinding → Progress → String → Desk → Pass Progress
unfolding notify_users
with_run new_id ev b acc run_id s =
    let (notification_ids, s') =
      notify_users new_id
        (started_notice "A new record started background workflow processing." (run_ref ev b run_id)
          b)
        (recipients b) s in
    (
      ok (record acc {
        run_ids = acc.run_ids ++ run_id ∷ [];
        dispatched = acc.dispatched ++ to_run b.id (some run_id) notification_ids ∷ [];
        first_run_id = or_first acc.first_run_id run_id;
      }),
      s',
    )

-- create_run commits; when it raises, nothing of it is kept.
abbrev pub created_run :
    (ℕ → String)
    → ActionEvent
    → ActionBinding
    → Progress
    → Result AppError (Catalog × Db)
    → Desk
    → Pass Progress
created_run new_id ev b acc (raise e) s = (raise e, s)
created_run new_id ev b acc (ok (cat, db)) s =
    with_run new_id ev b acc (id_of_run db) (record s { catalog = cat })

unfoldable pub dispatch_workflow :
    (ℕ → String) → ActionEvent → ActionBinding → Progress → Desk → Pass Progress
unfolding create_run with_run run_input
dispatch_workflow new_id ev b acc s = elim b.workflow_id [
  | none ↦ (raise (not_found "None"), s)
  | some workflow_id ↦
      created_run new_id ev b acc
        (create_run new_id workflow_id "builder" (some (run_input ev b)) s.catalog) s
]

-- for b in bindings
unfoldable pub dispatch_bindings :
    (ℕ → String) → ActionEvent → List ActionBinding → Progress → Desk → Pass Progress
unfolding dispatch_agent dispatch_workflow
dispatch_bindings new_id ev [] acc s = (ok acc, s)
dispatch_bindings new_id ev (b ∷ bindings) acc s =
    after
      (if b.target_type == "agent"
        then dispatch_agent new_id ev b acc s
        else dispatch_workflow new_id ev b acc s)
      (dispatch_bindings new_id ev bindings)

abbrev pub finished : EventStatus → EventResult → Option String → ℕ → ActionEvent → ActionEvent
finished status result run_id now ev = record ev {
  status = status;
  result = result;
  workflow_run_id = run_id;
  processed_at = some now;
}

-- `_finish_event` on the row of an id
unfoldable pub finish_event : String → EventStatus → EventResult → Option String → Desk → Desk
unfolding update_where
finish_event id status result run_id s = record s {
  events =
      update_where (λ (ev : ActionEvent). ev.id == id) (finished status result run_id s.catalog.now)
        s.events;
}

abbrev pub skipped_for : String → EventResult
skipped_for reason = record { reason = some reason; dispatched = []; agent_results = [] }

abbrev pub dispatched_to : List Dispatched → EventResult
dispatched_to entries = record { reason = none; dispatched = entries; agent_results = [] }

-- ActionBinding.database_id == ..., .event_type == ..., .is_active.is_(True)
abbrev pub matches : ActionEvent → String → ActionBinding → Bool
matches ev database_id b =
    (b.database_id == database_id) && (b.event_type == ev.event_type) && b.is_active

unfoldable pub dispatch_to :
    (ℕ → String) → ActionEvent → List ActionBinding → Progress → Desk → Pass Progress
unfolding dispatch_bindings finish_event
dispatch_to new_id ev [] acc s =
    (ok acc, finish_event ev.id event_skipped (skipped_for "no matching active binding") none s)
dispatch_to new_id ev (b ∷ bindings) acc s =
    after
      (dispatch_bindings new_id ev (b ∷ bindings)
        (record acc { dispatched = []; first_run_id = none }) s)
      (λ acc' s'. (
        ok acc',
        finish_event ev.id event_dispatched (dispatched_to acc'.dispatched) acc'.first_run_id s',
      ))

unfoldable pub dispatch_from :
    (ℕ → String) → ActionEvent → Option String → Progress → Desk → Pass Progress
unfolding dispatch_to finish_event keep
dispatch_from new_id ev none acc s =
    (ok acc, finish_event ev.id event_skipped (skipped_for "app has no database") none s)
dispatch_from new_id ev (some database_id) acc s =
    dispatch_to new_id ev (keep (matches ev database_id) s.bindings) acc s

unfoldable pub dispatch_row : (ℕ → String) → ActionEvent → Progress → Desk → Pass Progress
unfolding dispatch_from
dispatch_row new_id ev acc s = dispatch_from new_id ev ev.database_id acc s

unfoldable pub find_event : String → List ActionEvent → Option ActionEvent
unfolding first_where
find_event id events = first_where (λ (ev : ActionEvent). ev.id == id) events

-- One round of the loop, on the event as it then is
unfoldable pub dispatch_if_pending :
    (ℕ → String) → Option ActionEvent → Progress → Desk → Pass Progress
unfolding dispatch_row
dispatch_if_pending new_id none acc s = (ok acc, s)
dispatch_if_pending new_id (some ev) acc s =
    if is_event_pending ev.status then dispatch_row new_id ev acc s else (ok acc, s)

-- One round of the loop, on the event as it then is
unfoldable pub dispatch_event : (ℕ → String) → String → Progress → Desk → Pass Progress
unfolding dispatch_if_pending find_event
dispatch_event new_id id acc s = dispatch_if_pending new_id (find_event id s.events) acc s

unfoldable pub dispatch_events : (ℕ → String) → List String → Progress → Desk → Pass Progress
unfolding dispatch_event
dispatch_events new_id [] acc s = (ok acc, s)
dispatch_events new_id (id ∷ ids) acc s =
    after (dispatch_event new_id id acc s) (dispatch_events new_id ids)

unfoldable pub pending_ids : List ActionEvent → List String
unfolding keep
pending_ids events =
    map (λ (ev : ActionEvent). ev.id)
      (keep (λ (ev : ActionEvent). is_event_pending ev.status) events)

abbrev pub no_progress : Progress
no_progress = record { run_ids = []; agent_tasks = []; dispatched = []; first_run_id = none }

unfoldable pub dispatch_pending_events : (ℕ → String) → Desk → Pass Progress
unfolding dispatch_events pending_ids
dispatch_pending_events new_id s = dispatch_events new_id (pending_ids s.events) no_progress s
