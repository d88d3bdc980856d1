-- ===== src/Audit.antt =====
-- backend/app/modules/audit: the rows of one audit session (models.py), the event taxonomy
-- (taxonomy.py) and the redaction of payloads (redaction.py). Below: the sink and the verification.
pub mod Sink
pub mod Operations
pub mod Integrity
pub mod Payloads
pub mod Events
pub mod Redacted
pub mod Chain
pub mod Recorded
pub mod Verified
pub mod Tamper
use Prim.Native.String.{◌++◌ as ◌⧺◌, ◌∷◌ as str_cons, [] as str_nil}
use Prim.Native.Char.{code}
use vaic2026_charcalavong.Prelude.{
  ℕ, suc, ◌+◌, String, Bool, true, false, ◌||◌, Option, none, some, List, [], ◌∷◌, ◌++◌, map,
  if◌then◌else◌, ◌==◌, string_eq, nat_eq, elem, Result, ok, raise, Dict, lookup, length,
}
use vaic2026_charcalavong.Store.{
  Json, null, truth, num, str, arr, obj, Items, nil, item, Fields, end, field,
}

-- f"{domain}.{event}" for each event of a domain
abbrev names : String → List String → List String
names domain events = map (λ e. domain ⧺ "." ⧺ e) events

abbrev pub audit_event_types : List String
audit_event_types =
    names "session"
      ("created" ∷ "started" ∷ "completed" ∷ "failed" ∷ "timed_out" ∷ "cancelled" ∷ [])
    ++ names "orchestrator"
        ("planning_started" ∷ "decomposed" ∷ "aggregated" ∷ "decision_recorded" ∷ [])
    ++ names "task"
        ("created" ∷ "routed" ∷ "claimed" ∷ "completed" ∷ "failed" ∷ "retried" ∷ "dropped" ∷ [])
    ++ names "agent" ("started" ∷ "feedback_emitted" ∷ "completed" ∷ "failed" ∷ [])
    ++ names "llm" ("started" ∷ "first_token" ∷ "completed" ∷ "failed" ∷ [])
    ++ names "tool" ("requested" ∷ "validated" ∷ "completed" ∷ "failed" ∷ [])
    ++ names "kb" ("query_started" ∷ "retrieved" ∷ "cited" ∷ "access_rejected" ∷ [])
    ++ names "escalation" ("created" ∷ "viewed" ∷ "resolved" ∷ "timed_out" ∷ [])
    ++ names "mini_app" ("schema_emitted" ∷ "validated" ∷ "provisioned" ∷ "failed" ∷ [])
    ++ names "app_event" ("emitted" ∷ "delivered" ∷ "matched" ∷ "gap_detected" ∷ [])
    ++ names "evaluation" ("started" ∷ "completed" ∷ "failed" ∷ [])
    ++ names "audit" ("exported" ∷ "redacted" ∷ "integrity_failed" ∷ [])

-- The ValueErrors, and a row or a key that is not there
pub data AuditError : Type 0 where
  unknown_event_type unsupported_node_type no_span no_payload : String → AuditError

unfoldable pub validate_audit_type : String → Result AuditError String
unfolding elem
validate_audit_type event_type =
    if elem event_type audit_event_types
    then ok event_type
    else raise (unknown_event_type event_type)

-- Python's `re` on a key (_SECRET_KEYS or _ACCOUNT_KEYS is found) and on a text (the text with its
-- matches replaced, and how many there were)
pub record Patterns : Type 0 where
  pub is_secret : String → Bool
  pub clean : String → String × ℕ

-- The value and the number of places that were redacted; the paths are left out.
unfoldable mutual
  pub redact : Patterns → Json → Json × ℕ
  redact p null = (null, 0)
  redact p (truth b) = (truth b, 0)
  redact p (num n) = (num n, 0)
  redact p (str t) = (str (p.clean t).0, if (p.clean t).1 == 0 then 0 else 1)
  redact p (arr items) = (arr (redact_items p items).0, (redact_items p items).1)
  redact p (obj fields) = (obj (redact_fields p fields).0, (redact_fields p fields).1)

  pub redact_items : Patterns → Items → Items × ℕ
  redact_items p nil = (nil, 0)
  redact_items p (item j items) =
      (item (redact p j).0 (redact_items p items).0, (redact p j).1 + (redact_items p items).1)

  pub redact_fields : Patterns → Fields → Fields × ℕ
  redact_fields p end = (end, 0)
  redact_fields p (field k j fields) =
      let (v, n) = redact p j in
      let (rest, m) = redact_fields p fields in
      if p.is_secret k then (field k (str "[REDACTED]") rest, suc m) else (field k v rest, n + m)

pub record AuditPayload : Type 0 where
  pub id : String
  pub classification : String
  pub content : Json
  pub sha256 : String
  pub redaction_count : ℕ

pub record AuditSession : Type 0 where
  pub id : String
  pub status : String
  pub current_span_id : Option String
  pub last_sequence : ℕ
  pub last_hash : String
  pub redaction_count : ℕ
  pub input_tokens : ℕ
  pub output_tokens : ℕ
  pub cached_tokens : ℕ
  pub reasoning_tokens : ℕ
  pub critical_path_ms : ℕ
  pub llm_call_count : ℕ
  pub tool_call_count : ℕ
  pub rag_call_count : ℕ
  pub agent_count : ℕ
  pub escalation_count : ℕ
  pub retry_count : ℕ
  pub input_payload_id : Option String
  pub result_payload_id : Option String
  pub failure_summary : String
  pub ended_at : Option ℕ

pub record AuditSpan : Type 0 where
  pub id : String
  pub parent_span_id : Option String
  pub node_type : String
  pub name : String
  pub attempt_no : ℕ
  pub status : String
  pub started_at : ℕ
  pub ended_at : Option ℕ
  pub duration_ms : Option ℕ
  pub error_code : String
  pub error_message : String
  pub input_tokens : ℕ
  pub output_tokens : ℕ
  pub cached_tokens : ℕ
  pub reasoning_tokens : ℕ
  pub input_payload_id : Option String
  pub output_payload_id : Option String

-- A datetime with its offset from UTC, as `isoformat` prints both
pub record Moment : Type 0 where
  pub millis : ℕ
  pub offset : String

-- datetime.now(UTC)
abbrev pub utc : ℕ → Moment
utc now = record { millis = now; offset = "+00:00" }

pub record AuditEvent : Type 0 where
  pub id : String
  pub span_id : Option String
  pub sequence_no : ℕ
  pub occurred_at : Moment
  pub event_type : String
  pub phase : String
  pub severity : String
  pub status : Option String
  pub input_payload_id : Option String
  pub output_payload_id : Option String
  pub attributes : Fields
  pub prev_hash : String
  pub event_hash : String

-- What is hashed of an event
pub record Evidence : Type 0 where
  pub event_id : String
  pub session_id : String
  pub span_id : String
  pub sequence_no : ℕ
  pub occurred_at : Moment
  pub event_type : String
  pub status : Option String
  pub input_digest : String
  pub output_digest : String
  pub attributes : Fields
  pub prev_hash : String

-- SHA-256 of the canonical JSON, of a payload and of an event's evidence
pub record Hashes : Type 0 where
  pub digest : Json → String
  pub hash : Evidence → String

-- The rows of a session, in the order of their insertion, with the tenant's payloads
pub record Trail : Type 0 where
  pub session : AuditSession
  pub spans : List AuditSpan
  pub events : List AuditEvent
  pub payloads : List AuditPayload
  pub fresh : ℕ
  pub now : ℕ
