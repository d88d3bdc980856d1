-- ===== src/Audit/Sink.antt =====
-- backend/app/modules/audit/sink.py: the writer of a session, its spans and its chain of events. An
-- operation that raises has written nothing, since its transaction is rolled back.
use Prim.Native.String.{◌∷◌ as str_cons, [] as str_nil}
use Prim.Native.Char.{code}
use vaic2026_charcalavong.Prelude.{
  ℕ, suc, ◌+◌, String, Option, none, some, [], ◌∷◌, ◌++◌, if◌then◌else◌, ◌==◌, string_eq, nat_eq,
  Result, ok, raise, ◌>>=◌, Dict, lookup,
}
use vaic2026_charcalavong.Store.{Json, Fields}
use vaic2026_charcalavong.Audit.{
  AuditError, unsupported_node_type, validate_audit_type, Patterns, redact, AuditPayload,
  AuditSession, AuditEvent, Evidence, Hashes, Trail, Moment, utc,
}

-- EventRecord, with the span of its context
pub record EventRecord : Type 0 where
  pub span_id : Option String
  pub event_type : String
  pub phase : String
  pub status : Option String
  pub severity : String
  pub classification : String
  pub input : Option Json
  pub output : Option Json
  pub occurred_at : Option Moment
  pub attributes : Fields

-- The generator of ids, the patterns of the redaction, the hashes, and the text of a number
pub record Tools : Type 0 where
  pub new_id : ℕ → String
  pub patterns : Patterns
  pub hashes : Hashes
  pub digits : ℕ → String

abbrev pub payload_of : Tools → String → String → Json → AuditPayload
payload_of tools id classification value =
    let (cleaned, count) = redact tools.patterns value in
    record {
      id = id;
      classification = classification;
      content = cleaned;
      sha256 = tools.hashes.digest cleaned;
      redaction_count = count;
    }

-- `_store_payload`
unfoldable pub store_payload : Tools → String → Option Json → Trail → Option AuditPayload × Trail
store_payload tools classification none t = (none, t)
store_payload tools classification (some value) t =
    let p : AuditPayload = payload_of tools (tools.new_id t.fresh) classification value in
    (some p, record t { payloads = t.payloads ++ p ∷ []; fresh = suc t.fresh })

abbrev pub digest_of : Option AuditPayload → String
digest_of none = ""
digest_of (some p) = p.sha256

abbrev pub id_of_payload : Option AuditPayload → Option String
id_of_payload none = none
id_of_payload (some p) = some p.id

abbrev pub redactions : Option AuditPayload → ℕ
redactions none = 0
redactions (some p) = p.redaction_count

abbrev pub or_now : Option Moment → ℕ → Moment
or_now none now = utc now
or_now (some t) now = t

abbrev pub or_blank : Option String → String
or_blank none = ""
or_blank (some t) = t

-- The evidence of an event, with the digests of its payloads
abbrev pub evidence_of : String → AuditEvent → String → String → Evidence
evidence_of session_id ev input_digest output_digest = record {
  event_id = ev.id;
  session_id = session_id;
  span_id = or_blank ev.span_id;
  sequence_no = ev.sequence_no;
  occurred_at = ev.occurred_at;
  event_type = ev.event_type;
  status = ev.status;
  input_digest = input_digest;
  output_digest = output_digest;
  attributes = ev.attributes;
  prev_hash = ev.prev_hash;
}

abbrev pub unsigned_event :
    String → EventRecord → Option String → Option String → AuditSession → ℕ → AuditEvent
unsigned_event id value input_id output_id row now = record {
  id = id;
  span_id = value.span_id;
  sequence_no = row.last_sequence + 1;
  occurred_at = or_now value.occurred_at now;
  event_type = value.event_type;
  phase = value.phase;
  severity = value.severity;
  status = value.status;
  input_payload_id = input_id;
  output_payload_id = output_id;
  attributes = value.attributes;
  prev_hash = row.last_hash;
  event_hash = "";
}

abbrev pub signed_event :
    Tools → EventRecord → Option AuditPayload → Option AuditPayload → Trail → AuditEvent
signed_event tools value input_payload output_payload t =
    let ev : AuditEvent =
      unsigned_event (tools.new_id t.fresh) value (id_of_payload input_payload)
        (id_of_payload output_payload) t.session t.now in
    record ev {
      event_hash =
          tools.hashes.hash
            (evidence_of t.session.id ev (digest_of input_payload) (digest_of output_payload));
    }

-- db.add(event), and the new head of the session
abbrev pub link : Tools → EventRecord → Option AuditPayload → Option AuditPayload → Trail → Trail
link tools value input_payload output_payload t =
    let ev : AuditEvent = signed_event tools value input_payload output_payload t in
    record t {
      events = t.events ++ ev ∷ [];
      fresh = suc t.fresh;
      session = record t.session {
        last_sequence = t.session.last_sequence + 1;
        last_hash = ev.event_hash;
        redaction_count =
            t.session.redaction_count + (redactions input_payload + redactions output_payload);
      };
    }

unfoldable pub append_valid : Tools → EventRecord → Trail → Trail
unfolding store_payload
append_valid tools value t =
    let (input_payload, t1) = store_payload tools value.classification value.input t in
    let (output_payload, t2) = store_payload tools value.classification value.output t1 in
    link tools value input_payload output_payload t2

-- `_append_event`
unfoldable pub append_event : Tools → EventRecord → Trail → Result AuditError Trail
unfolding validate_audit_type append_valid
append_event tools value t = do
  event_type ← validate_audit_type value.event_type
  ok (append_valid tools value t)

-- node_type.split(".", 1)[0]
unfoldable pub before_dot : String → String
before_dot str_nil = str_nil
before_dot (str_cons c t) = if code c == 46 then str_nil else str_cons c (before_dot t)

-- _DOMAIN_EVENT_START and _DOMAIN_EVENT_END: the event of the start, of success and of failure
abbrev pub domain_events : Dict String (String × String × String)
domain_events =
    (
      "orchestrator",
      (
        "orchestrator.planning_started", "orchestrator.aggregated",
        "orchestrator.decision_recorded",
      ),
    )
    ∷ ("task", ("task.claimed", "task.completed", "task.failed"))
    ∷ ("agent", ("agent.started", "agent.completed", "agent.failed"))
    ∷ ("llm", ("llm.started", "llm.completed", "llm.failed"))
    ∷ ("tool", ("tool.requested", "tool.completed", "tool.failed"))
    ∷ ("kb", ("kb.query_started", "kb.cited", "kb.access_rejected"))
    ∷ ("escalation", ("escalation.created", "escalation.resolved", "escalation.timed_out"))
    ∷ ("mini_app", ("mini_app.schema_emitted", "mini_app.provisioned", "mini_app.failed"))
    ∷ ("app_event", ("app_event.emitted", "app_event.delivered", "app_event.gap_detected"))
    ∷ ("evaluation", ("evaluation.started", "evaluation.completed", "evaluation.failed"))
    ∷ []

unfoldable pub events_of_domain : String → Result AuditError (String × String × String)
unfolding lookup before_dot
events_of_domain node_type = elim (lookup (before_dot node_type) domain_events) [
  | none ↦ raise (unsupported_node_type node_type)
  | some events ↦ ok events
]
