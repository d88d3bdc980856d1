-- ===== src/Audit/Integrity.antt =====
-- backend/app/modules/audit/integrity.py: the verification of a session's chain of events. The
-- events stand in the order of their sequence numbers, as the query gives them.
use vaic2026_charcalavong.Prelude.{
  ℕ, suc, String, Bool, true, false, ◌&&◌, Option, none, some, List, [], ◌∷◌, ◌++◌, map, keep,
  if◌then◌else◌, ◌==◌, string_eq, nat_eq, elem, Result, ok, raise, ◌>>=◌, length,
}
use vaic2026_charcalavong.Store.{Json, Fields, first_where}
use vaic2026_charcalavong.Audit.{
  AuditError, Moment, no_payload, AuditPayload, AuditSpan, AuditEvent, Hashes, Trail,
}
use vaic2026_charcalavong.Audit.Sink.{evidence_of}

-- The texts of the problems
pub data Problem : Type 0 where
  missing_payload payload_digest_mismatch : String → Problem
  sequence_gap : ℕ → ℕ → Problem
  previous_mismatch event_hash_mismatch : ℕ → Problem
  head_mismatch : Problem
  orphan_spans : ℕ → Problem

pub record Report : Type 0 where
  pub valid : Bool
  pub event_count : ℕ
  pub last_hash : String
  pub problems : List Problem
  pub orphan_span_ids : List String

-- The ids of the payloads are a primary key.
unfoldable pub get_payload : List AuditPayload → String → Option AuditPayload
unfolding first_where
get_payload payloads id = first_where (λ (p : AuditPayload). p.id == id) payloads

unfoldable pub add_reference : Option String → List String → List String
unfolding elem
add_reference none ids = ids
add_reference (some id) ids = if elem id ids then ids else id ∷ ids

-- The set of the ids that the events refer to
unfoldable pub references : List AuditEvent → List String
unfolding add_reference
references [] = []
references (ev ∷ events) =
    add_reference ev.input_payload_id (add_reference ev.output_payload_id (references events))

abbrev pub unless : Bool → Problem → List Problem
unless c p = if c then [] else p ∷ []

abbrev pub digest_problem : Hashes → String → Option AuditPayload → List Problem
digest_problem hashes id none = missing_payload id ∷ []
digest_problem hashes id (some p) =
    unless (hashes.digest p.content == p.sha256) (payload_digest_mismatch id)

unfoldable pub payload_problems : Hashes → List AuditPayload → List String → List Problem
unfolding get_payload
payload_problems hashes payloads [] = []
payload_problems hashes payloads (id ∷ ids) =
    digest_problem hashes id (get_payload payloads id) ++ payload_problems hashes payloads ids

abbrev pub sha_of : String → Option AuditPayload → Result AuditError String
sha_of id none = raise (no_payload id)
sha_of id (some p) = ok p.sha256

-- payloads[id].sha256 if id else ""
unfoldable pub digest_at : List AuditPayload → Option String → Result AuditError String
unfolding get_payload
digest_at payloads none = ok ""
digest_at payloads (some id) = sha_of id (get_payload payloads id)

abbrev pub own_problems : Hashes → String → ℕ → String → AuditEvent → String → String → List Problem
own_problems hashes session_id expected previous ev input_digest output_digest =
    unless (ev.sequence_no == expected) (sequence_gap expected ev.sequence_no)
    ++ unless (ev.prev_hash == previous) (previous_mismatch ev.sequence_no)
    ++ unless (hashes.hash (evidence_of session_id ev input_digest output_digest) == ev.event_hash)
        (event_hash_mismatch ev.sequence_no)

abbrev pub joined : List Problem → List Problem × String → Result AuditError (List Problem × String)
joined own rest = ok (own ++ rest.0, rest.1)

-- The loop over the events, with the last hash
unfoldable pub event_problems :
    Hashes
    → String
    → List AuditPayload
    → ℕ
    → String
    → List AuditEvent
    → Result AuditError (List Problem × String)
unfolding digest_at
event_problems hashes session_id payloads expected previous [] = ok ([], previous)
event_problems hashes session_id payloads expected previous (ev ∷ events) =
    let rest = event_problems hashes session_id payloads (suc expected) ev.event_hash events in
    digest_at payloads ev.input_payload_id >>= λ input_digest.
    digest_at payloads ev.output_payload_id >>= λ output_digest.
    rest >>= joined (own_problems hashes session_id expected previous ev input_digest output_digest)

abbrev pub head_problems : Trail → String → List Problem
head_problems t previous =
    unless (previous == t.session.last_hash && length t.events == t.session.last_sequence)
      head_mismatch

abbrev pub running_spans : Trail → List AuditSpan
running_spans t = keep (λ (s : AuditSpan). s.status == "running") t.spans

abbrev pub span_problems : Trail → List Problem
unfolding elem
span_problems t =
    if elem t.session.status ("running" ∷ "awaiting_human" ∷ [])
    then []
    else unless (length (running_spans t) == 0) (orphan_spans (length (running_spans t)))

abbrev pub is_valid : List Problem → Bool
is_valid [] = true
is_valid (p ∷ problems) = false

abbrev pub report_of : Trail → List Problem → String → Report
report_of t problems previous = record {
  valid = is_valid problems;
  event_count = length t.events;
  last_hash = previous;
  problems = problems;
  orphan_span_ids = map (λ (s : AuditSpan). s.id) (running_spans t);
}

unfoldable pub verify_rows : Hashes → Trail → Result AuditError Report
unfolding references payload_problems event_problems
verify_rows hashes t = event_problems hashes t.session.id t.payloads 1 "" t.events >>= λ r. ok (
    report_of t
      (payload_problems hashes t.payloads (references t.events)
        ++ r.0
        ++ head_problems t r.1
        ++ span_problems t)
      r.1)

-- What the database returns of a stored value: JSONB has its own form of a number, and timestamptz
-- keeps the instant and returns it at the offset of the connection.
pub record Columns : Type 0 where
  pub json : Json → Json
  pub fields : Fields → Fields
  pub time : Moment → Moment

abbrev pub payload_read : Columns → AuditPayload → AuditPayload
payload_read columns p = record p { content = columns.json p.content }

abbrev pub event_read : Columns → AuditEvent → AuditEvent
event_read columns ev = record ev {
  attributes = columns.fields ev.attributes;
  occurred_at = columns.time ev.occurred_at;
}

-- The rows that the queries return
unfoldable pub as_read : Columns → Trail → Trail
as_read columns t = record t {
  payloads = map (payload_read columns) t.payloads;
  events = map (event_read columns) t.events;
}

unfoldable pub verify_session : Hashes → Columns → Trail → Result AuditError Report
unfolding verify_rows as_read
verify_session hashes columns t = verify_rows hashes (as_read columns t)
