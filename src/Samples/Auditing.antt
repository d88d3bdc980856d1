-- ===== src/Samples/Auditing.antt =====
-- A session with one agent's span, written by the sink.
use Prim.Native.String.{◌++◌ as ◌⧺◌}
use vaic2026_charcalavong.Prelude.{
  String, ◌≡◌, refl, none, some, List, [], ◌∷◌, map, keep, Result, ok, raise, string_eq, nat_eq,
  ◌==◌, if◌then◌else◌,
}
use vaic2026_charcalavong.Store.{num, obj, field, Json, str, end, first_where}
use vaic2026_charcalavong.Audit.{
  Moment, utc, AuditPayload, AuditError, Trail, Evidence, AuditEvent, redact,
}
use vaic2026_charcalavong.Audit.Sink.{EventRecord, Tools}
use vaic2026_charcalavong.Audit.Operations.{
  emit_event, SpanStart, SpanEnd, SessionEnd, start_session, start_span, end_span, end_session,
  empty_trail,
}
use vaic2026_charcalavong.Audit.Integrity.{
  Columns, as_read, Problem, event_hash_mismatch, Report, report_of, span_problems, verify_session,
  get_payload,
}
use vaic2026_charcalavong.Audit.Recorded.{
  Recorded, started, span_started, span_ended, session_ended, IsFirst,
}
use vaic2026_charcalavong.Audit.Verified.{verify_session-Recorded, Recorded-IsRedacted, IsKept}
use vaic2026_charcalavong.Audit.Redacted.{IsRedacted}
use vaic2026_charcalavong.Audit.Tamper.{
  evidence_in, evidence_list, NoCollision, verify_session_fixes,
}
use vaic2026_charcalavong.Samples.Edited.{tally, tally_inj}

-- The text of a payload, where it is a text
abbrev text_of : Json → String
text_of (str t) = t
text_of j = "payload"

abbrev tools : Tools
tools = record {
  new_id = tally;
  patterns = record { is_secret = λ k. k == "password"; clean = λ t. (t, 0) };
  hashes = record {
    digest = text_of;
    hash = λ (e : Evidence).
        e.event_id ⧺ e.event_type ⧺ e.input_digest ⧺ e.output_digest ⧺ e.occurred_at.offset
        ⧺ e.prev_hash;
  };
  digits = tally;
}

abbrev case_input : Json
case_input = obj (field "password" (str "1234") (field "customer" (str "Lan") end))

-- A connection at UTC, and a number that JSONB writes out
abbrev json_read : Json → Json
json_read (num n) = num (if n == "1e22" then "10000000000000000000000" else n)
json_read j = j

abbrev columns : Columns
columns = record {
  json = json_read;
  fields = λ fields. fields;
  time = λ (m : Moment). utc m.millis;
}

abbrev blank : Trail
blank = empty_trail "s" [] 0 5

abbrev agent_span : SpanStart
agent_span = record {
  parent_span_id = none;
  node_type = "agent";
  name = "credit";
  attempt_no = 1;
  classification = "confidential";
  input = some (str "loan");
  attributes = end;
}

abbrev agent_end : SpanEnd
agent_end = record {
  span_id = some (tally 3);
  status = "completed";
  classification = "confidential";
  output = some (str "approved");
  error_code = "";
  error_message = "";
  input_tokens = 7;
  output_tokens = 2;
  cached_tokens = 0;
  reasoning_tokens = 0;
  estimated_cost_usd = "0";
  attributes = end;
}

abbrev closing : SessionEnd
closing = record {
  status = "completed";
  classification = "confidential";
  output = none;
  failure_summary = "";
  attributes = end;
}

abbrev after : Result AuditError Trail → Trail
after (ok t) = t
after (raise e) = blank

abbrev opened : Trail
unfolding start_session
opened = after (start_session tools "manual" (some case_input) end blank)

abbrev working : Trail
unfolding start_span
working = after (start_span tools agent_span opened)

abbrev worked : Trail
unfolding end_span
worked = after (end_span tools agent_end working)

abbrev ended : Trail
unfolding end_session
ended = after (end_session tools closing worked)

recorded : Recorded tools blank ended
unfolding start_session start_span end_span end_session
recorded =
    session_ended closing
      (span_ended agent_end
        (span_started agent_span (started "manual" (some case_input) end refl) refl) refl)
      refl

blank-IsFirst : IsFirst tools blank
unfolding get_payload first_where
blank-IsFirst = record {
  no_events = refl;
  sealed = λ id p e. cc;
  redacted = λ id p e. absurd (cc e);
  unused = λ k le. refl;
}

ended-IsKept : IsKept columns ended
unfolding ended worked working opened redact
ended-IsKept = record {
  payloads = (refl, (refl, (refl, (refl, (refl, (refl, record {}))))));
  events = ((refl, refl), ((refl, refl), ((refl, refl), ((refl, refl), record {}))));
}

verify_session-Recorded_example :
    verify_session tools.hashes columns ended
    ≡ ok (report_of ended (span_problems ended) ended.session.last_hash)
verify_session-Recorded_example =
    verify_session-Recorded tools columns blank {t = ended} tally_inj blank-IsFirst recorded
      ended-IsKept

-- The first payload, as it is stored
abbrev stored : AuditPayload
stored = record {
  id = tally 0;
  classification = "confidential";
  content = obj (field "password" (str "[REDACTED]") (field "customer" (str "Lan") end));
  sha256 = "payload";
  redaction_count = 1;
}

stored_is_found : get_payload ended.payloads (tally 0) ≡ some stored
unfolding get_payload ended worked working opened redact
stored_is_found = refl

Recorded-IsRedacted_example : IsRedacted tools.patterns stored.content
Recorded-IsRedacted_example =
    Recorded-IsRedacted tools blank {t = ended} tally_inj blank-IsFirst recorded (tally 0) stored
      stored_is_found

-- The rows with another severity, which is not hashed
abbrev quieter : Trail
quieter = record ended {
  events = map (λ (ev : AuditEvent). record ev { severity = "debug" }) ended.events;
}

abbrev report : Report
report = report_of ended [] ended.session.last_hash

reported : verify_session tools.hashes columns ended ≡ ok report
unfolding verify_session ended worked working opened redact keep
reported = refl

reported_quieter : verify_session tools.hashes columns quieter ≡ ok report
unfolding verify_session ended worked working opened redact keep
reported_quieter = refl

apart :
    NoCollision tools.hashes.hash
      (evidence_in (as_read columns ended))
      (evidence_in (as_read columns quieter))
unfolding as_read NoCollision evidence_in evidence_list ended worked working opened
apart = (λ e. refl, (λ e. refl, (λ e. refl, (λ e. refl, record {}))))

verify_session_fixes_example :
    evidence_in (as_read columns ended) ≡ evidence_in (as_read columns quieter)
verify_session_fixes_example =
    verify_session_fixes tools.hashes columns ended quieter reported reported_quieter refl refl refl
      refl apart

-- An event whose type was changed is reported.
abbrev problems_of : Result AuditError Report → List Problem
problems_of (ok r) = r.problems
problems_of (raise e) = []

retyped_is_reported :
    problems_of (
      verify_session tools.hashes columns (record ended {
        events =
            map
              (λ (ev : AuditEvent).
                if ev.sequence_no == 2 then record ev { event_type = "agent.failed" } else ev)
              ended.events;
      }))
    ≡ event_hash_mismatch 2 ∷ []
unfolding verify_session ended worked working opened redact keep
retyped_is_reported = refl

-- Nobody has changed this event, but its time was given at another offset than the connection's.
abbrev cited : EventRecord
cited = record {
  span_id = none;
  event_type = "kb.cited";
  phase = "instant";
  status = none;
  severity = "info";
  classification = "confidential";
  input = none;
  output = none;
  occurred_at = some (record { millis = 4; offset = "+07:00" });
  attributes = end;
}

abbrev citing : Trail
unfolding emit_event
citing = after (emit_event tools cited opened)

offset_is_reported :
    problems_of (verify_session tools.hashes columns citing) ≡ event_hash_mismatch 2 ∷ []
unfolding verify_session citing opened redact keep
offset_is_reported = refl
