-- ===== src/Audit/Operations.antt =====
-- The operations of the sink (backend/app/modules/audit/sink.py): sessions, spans and events.
use vaic2026_charcalavong.Prelude.{
  ℕ, suc, ◌+◌, ◌-◌, String, Bool, Option, none, some, List, [], ◌∷◌, ◌++◌, if◌then◌else◌, ◌==◌,
  string_eq, leb, ltb, elem, Result, ok, raise, ◌>>=◌,
}
use Prim.Native.String.{◌++◌ as ◌⧺◌}
use vaic2026_charcalavong.Store.{Json, num, str, Fields, end, field, update_where, first_where}
use vaic2026_charcalavong.Audit.{AuditError, no_span, AuditPayload, AuditSession, AuditSpan, Trail}
use vaic2026_charcalavong.Audit.Sink.{
  EventRecord, Tools, store_payload, id_of_payload, append_event, events_of_domain,
}

-- {**fields, **others}: an old key keeps its place, the later value wins
unfoldable pub set_field : String → Json → Fields → Fields
set_field k v end = field k v end
set_field k v (field j w fields) =
    if j == k then field j v fields else field j w (set_field k v fields)

unfoldable pub merge : Fields → Fields → Fields
unfolding set_field
merge fields end = fields
merge fields (field k v others) = merge (set_field k v fields) others

abbrev pub new_session : String → String → Option String → AuditSession
new_session id status input_payload_id = record {
  id = id;
  status = status;
  current_span_id = none;
  last_sequence = 0;
  last_hash = "";
  redaction_count = 0;
  input_tokens = 0;
  output_tokens = 0;
  cached_tokens = 0;
  reasoning_tokens = 0;
  critical_path_ms = 0;
  llm_call_count = 0;
  tool_call_count = 0;
  rag_call_count = 0;
  agent_count = 0;
  escalation_count = 0;
  retry_count = 0;
  input_payload_id = input_payload_id;
  result_payload_id = none;
  failure_summary = "";
  ended_at = none;
}

-- The tenant's payloads so far, before the session
abbrev pub empty_trail : String → List AuditPayload → ℕ → ℕ → Trail
empty_trail id payloads fresh now = record {
  session = new_session id "running" none;
  spans = [];
  events = [];
  payloads = payloads;
  fresh = fresh;
  now = now;
}

unfoldable pub created_event : String → Option Json → Fields → EventRecord
unfolding merge
created_event trigger_type input attributes = record {
  span_id = none;
  event_type = "session.created";
  phase = "start";
  status = some "running";
  severity = "info";
  classification = "confidential";
  input = input;
  output = none;
  occurred_at = none;
  attributes = merge (field "trigger_type" (str trigger_type) end) attributes;
}

abbrev pub open_session : Option AuditPayload → Trail → Trail
open_session payload t = record t {
  session = new_session t.session.id "running" (id_of_payload payload);
}

unfoldable pub start_session :
    Tools → String → Option Json → Fields → Trail → Result AuditError Trail
unfolding store_payload append_event created_event
start_session tools trigger_type input attributes t =
    let (input_payload, t1) = store_payload tools "confidential" input t in
    append_event tools (created_event trigger_type input attributes) (open_session input_payload t1)

-- SpanStart, with the parent of its context
pub record SpanStart : Type 0 where
  pub parent_span_id : Option String
  pub node_type : String
  pub name : String
  pub attempt_no : ℕ
  pub classification : String
  pub input : Option Json
  pub attributes : Fields

abbrev pub new_span : String → SpanStart → Option String → ℕ → AuditSpan
new_span id value input_payload_id now = record {
  id = id;
  parent_span_id = value.parent_span_id;
  node_type = value.node_type;
  name = value.name;
  attempt_no = value.attempt_no;
  status = "running";
  started_at = now;
  ended_at = none;
  duration_ms = none;
  error_code = "";
  error_message = "";
  input_tokens = 0;
  output_tokens = 0;
  cached_tokens = 0;
  reasoning_tokens = 0;
  input_payload_id = input_payload_id;
  output_payload_id = none;
}

abbrev pub open_span : String → SpanStart → Option AuditPayload → Trail → Trail
open_span span_id value input_payload t = record t {
  spans = t.spans ++ new_span span_id value (id_of_payload input_payload) t.now ∷ [];
  session = record t.session { current_span_id = some span_id };
}

unfoldable pub start_event : SpanStart → String → String × String × String → EventRecord
unfolding merge
start_event value span_id events = record {
  span_id = some span_id;
  event_type = events.0;
  phase = "start";
  status = some "running";
  severity = "info";
  classification = "confidential";
  input = value.input;
  output = none;
  occurred_at = none;
  attributes =
      merge (field "name" (str value.name) (field "node_type" (str value.node_type) end))
        value.attributes;
}

-- The id of the span is drawn first.
abbrev pub after_id : Trail → Trail
after_id t = record t { fresh = suc t.fresh }

unfoldable pub start_span : Tools → SpanStart → Trail → Result AuditError Trail
unfolding store_payload append_event events_of_domain start_event
start_span tools value t =
    let span_id = tools.new_id t.fresh in
    let (input_payload, t1) = store_payload tools value.classification value.input (after_id t) in
    do
      events ← events_of_domain value.node_type
      append_event tools (start_event value span_id events)
          (open_span span_id value input_payload t1)

unfoldable pub emit_event : Tools → EventRecord → Trail → Result AuditError Trail
unfolding append_event
emit_event tools value t = append_event tools value t

-- SpanEnd, with the text of its cost
pub record SpanEnd : Type 0 where
  pub span_id : Option String
  pub status : String
  pub classification : String
  pub output : Option Json
  pub error_code : String
  pub error_message : String
  pub input_tokens : ℕ
  pub output_tokens : ℕ
  pub cached_tokens : ℕ
  pub reasoning_tokens : ℕ
  pub estimated_cost_usd : String
  pub attributes : Fields

-- Times count milliseconds, and the subtraction stops at 0 as `max(0, ...)` does.
abbrev pub close_span : SpanEnd → Option String → ℕ → AuditSpan → AuditSpan
close_span value output_payload_id now span = record span {
  status = value.status;
  ended_at = some now;
  duration_ms = some (now - span.started_at);
  error_code = value.error_code;
  error_message = value.error_message;
  input_tokens = value.input_tokens;
  output_tokens = value.output_tokens;
  cached_tokens = value.cached_tokens;
  reasoning_tokens = value.reasoning_tokens;
  output_payload_id = output_payload_id;
}

abbrev pub larger : ℕ → ℕ → ℕ
larger a b = if leb b a then a else b

abbrev pub or_zero : Option ℕ → ℕ
or_zero none = 0
or_zero (some n) = n

abbrev pub count_if : Bool → ℕ → ℕ
count_if c n = if c then n + 1 else n

-- `_aggregate_span`, without the costs
unfoldable pub aggregate_span : AuditSpan → AuditSession → AuditSession
aggregate_span span s = record s {
  input_tokens = s.input_tokens + span.input_tokens;
  output_tokens = s.output_tokens + span.output_tokens;
  cached_tokens = s.cached_tokens + span.cached_tokens;
  reasoning_tokens = s.reasoning_tokens + span.reasoning_tokens;
  critical_path_ms = larger s.critical_path_ms (or_zero span.duration_ms);
  llm_call_count = count_if (span.node_type == "llm") s.llm_call_count;
  tool_call_count = count_if (span.node_type == "tool") s.tool_call_count;
  rag_call_count = count_if (span.node_type == "kb") s.rag_call_count;
  agent_count = count_if (span.node_type == "agent") s.agent_count;
  escalation_count = count_if (span.node_type == "escalation") s.escalation_count;
  retry_count = count_if (ltb 1 span.attempt_no) s.retry_count;
}

abbrev pub end_severity : String → String
end_severity status = if status == "failed" then "error" else "info"

-- The attributes of the event
abbrev pub end_fields : (ℕ → String) → SpanEnd → ℕ → Fields
end_fields digits value duration_ms = field "duration_ms" (num (digits duration_ms)) (
    field "error_code" (str value.error_code) (
      field "error_message" (str value.error_message) (
        field "input_tokens" (num (digits value.input_tokens)) (
          field "output_tokens" (num (digits value.output_tokens)) (
            field "cached_tokens" (num (digits value.cached_tokens)) (
              field "reasoning_tokens" (num (digits value.reasoning_tokens))
                (field "estimated_cost_usd" (str value.estimated_cost_usd) end)))))))

unfoldable pub end_event : Tools → SpanEnd → String → ℕ → String × String × String → EventRecord
unfolding merge
end_event tools value span_id duration_ms events = record {
  span_id = some span_id;
  event_type = if value.status == "completed" then events.1 else events.2;
  phase = "end";
  status = some value.status;
  severity = end_severity value.status;
  classification = "confidential";
  input = none;
  output = value.output;
  occurred_at = none;
  attributes = merge (end_fields tools.digits value duration_ms) value.attributes;
}

unfoldable pub close_row : SpanEnd → AuditSpan → Option String → Trail → Trail
unfolding aggregate_span update_where
close_row value span output_id t =
    let closed : AuditSpan = close_span value output_id t.now span in
    record t {
      spans = update_where (λ (r : AuditSpan). r.id == span.id) (λ r. closed) t.spans;
      session = aggregate_span closed t.session;
    }

-- scalar_one(): a span that is not there raises
abbrev pub found_span : String → Option AuditSpan → Result AuditError AuditSpan
found_span id none = raise (no_span id)
found_span id (some span) = ok span

abbrev pub required : Option String → Result AuditError String
required none = raise (no_span "")
required (some id) = ok id

unfoldable pub end_span : Tools → SpanEnd → Trail → Result AuditError Trail
unfolding store_payload append_event events_of_domain close_row first_where end_event
end_span tools value t = do
  span_id ← required value.span_id
  span ← found_span span_id (first_where (λ (r : AuditSpan). r.id == span_id) t.spans)
  let (output_payload, t1) = store_payload tools value.classification value.output t in
      do
        events ← events_of_domain span.node_type
        append_event tools (end_event tools value span_id (t.now - span.started_at) events)
            (close_row value span (id_of_payload output_payload) t1)

pub record SessionEnd : Type 0 where
  pub status : String
  pub classification : String
  pub output : Option Json
  pub failure_summary : String
  pub attributes : Fields

abbrev pub suffix_of : String → String
unfolding elem
suffix_of status =
    if elem status ("completed" ∷ "failed" ∷ "timed_out" ∷ "cancelled" ∷ [])
    then status
    else "failed"

abbrev pub close_session : SessionEnd → Option String → Trail → Trail
close_session value result_id t = record t {
  session = record t.session {
    status = value.status;
    ended_at = some t.now;
    current_span_id = none;
    result_payload_id = result_id;
    failure_summary = value.failure_summary;
  };
}

unfoldable pub closing_event : SessionEnd → EventRecord
unfolding suffix_of merge
closing_event value = record {
  span_id = none;
  event_type = "session." ⧺ suffix_of value.status;
  phase = "end";
  status = some value.status;
  severity = end_severity value.status;
  classification = "confidential";
  input = none;
  output = value.output;
  occurred_at = none;
  attributes = merge (field "failure_summary" (str value.failure_summary) end) value.attributes;
}

unfoldable pub end_session : Tools → SessionEnd → Trail → Result AuditError Trail
unfolding store_payload append_event closing_event
end_session tools value t =
    let (payload, t1) = store_payload tools value.classification value.output t in
    append_event tools (closing_event value) (close_session value (id_of_payload payload) t1)
