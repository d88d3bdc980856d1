-- ===== src/Audit/Recorded.antt =====
-- The trails that the sink's operations lead to, and their invariant.
use vaic2026_charcalavong.Prelude.{
  ℕ, suc, ◌-◌, ◌≤◌, String, ◌≡◌, refl, sym, ap, ◌∙◌, Option, none, some, List, [], ◌==◌, string_eq,
  nat_eq, arith, ok, bind-eq-ok, length,
}
use vaic2026_charcalavong.Store.{Json, Fields, first_where}
use vaic2026_charcalavong.Audit.{AuditSpan, AuditSession, Trail}
use vaic2026_charcalavong.Audit.Sink.{
  EventRecord, Tools, store_payload, id_of_payload, events_of_domain,
}
use vaic2026_charcalavong.Audit.Operations.{
  start_session, SpanStart, start_span, created_event, open_session, start_event, after_id,
  end_event, closing_event, aggregate_span, open_span, emit_event, SpanEnd, end_span, required,
  found_span, close_row, SessionEnd, end_session, close_session,
}
use vaic2026_charcalavong.Audit.Integrity.{get_payload, event_problems}
use vaic2026_charcalavong.Audit.Payloads.{IsSealed}
use vaic2026_charcalavong.Audit.Redacted.{IsRedacted}
use vaic2026_charcalavong.Audit.Chain.{
  IsSound, AllFound, NoClash, store_payload-IsSound, append_event-IsSound,
}

-- The trails that the sink's operations lead to, from an empty one; the clock may go on between two
-- operations, and another session of the tenant may store a payload.
pub data Recorded (tools : Tools) (first : Trail) : Trail → Type 0 where
  started :
      (trigger_type : String) (input : Option Json) (attributes : Fields) {t : Trail}
      → start_session tools trigger_type input attributes first ≡ ok t
      → Recorded tools first t
  span_started :
      (value : SpanStart) {t t' : Trail}
      → Recorded tools first t
      → start_span tools value t ≡ ok t'
      → Recorded tools first t'
  emitted :
      (value : EventRecord) {t t' : Trail}
      → Recorded tools first t
      → emit_event tools value t ≡ ok t'
      → Recorded tools first t'
  span_ended :
      (value : SpanEnd) {t t' : Trail}
      → Recorded tools first t
      → end_span tools value t ≡ ok t'
      → Recorded tools first t'
  session_ended :
      (value : SessionEnd) {t t' : Trail}
      → Recorded tools first t
      → end_session tools value t ≡ ok t'
      → Recorded tools first t'
  others_stored :
      (classification : String) (value : Json) {t : Trail}
      → Recorded tools first t
      → Recorded tools first (store_payload tools classification (some value) t).1
  waited :
      (now : ℕ) {t : Trail} → Recorded tools first t → Recorded tools first (record t { now = now })

-- The tenant's payloads before the session: redacted, sealed, and with none of the ids to come
pub record IsFirst (tools : Tools) (t : Trail) : Type 0 where
  pub no_events : t.events ≡ []
  pub sealed : IsSealed tools.hashes t.payloads
  pub redacted : AllFound (λ p. IsRedacted tools.patterns p.content) t.payloads
  pub unused : (k : ℕ) → t.fresh ≤ k → get_payload t.payloads (tools.new_id k) ≡ none

-- Only the id, the head and the rows of events and payloads matter.
same-IsSound :
    (tools : Tools) (t : Trail) (spans : List AuditSpan) (now fresh : ℕ) (row : AuditSession)
    → row.id ≡ t.session.id
    → row.last_sequence ≡ t.session.last_sequence
    → row.last_hash ≡ t.session.last_hash
    → t.fresh ≤ fresh
    → IsSound tools t
    → IsSound tools (record t { spans = spans; now = now; fresh = fresh; session = row })
same-IsSound tools t spans now fresh row hi hn hh le s = record {
  chain =
      ap (λ id. event_problems tools.hashes id t.payloads 1 "" t.events) hi
      ∙ s.chain
      ∙ ap (λ h. ok ([], h)) (sym hh);
  count = s.count ∙ sym hn;
  sealed = s.sealed;
  redacted = s.redacted;
  unused = λ k le'. s.unused k (omega (arith, le, le'));
}

module _ (tools : Tools) (no_clash : NoClash tools) where
  first-IsSound : (t : Trail) → IsFirst tools t → IsSound tools (open_session none t)
  unfolding event_problems
  first-IsSound t f = record {
    chain = ap (event_problems tools.hashes t.session.id t.payloads 1 "") f.no_events;
    count = ap length f.no_events;
    sealed = f.sealed;
    redacted = f.redacted;
    unused = f.unused;
  }

  opened-IsSound :
      (input : Option Json) (t : Trail)
      → IsFirst tools t
      → IsSound tools (
          open_session
            (store_payload tools "confidential" input t).0
            (store_payload tools "confidential" input t).1)
  unfolding store_payload
  opened-IsSound none t f = first-IsSound t f
  opened-IsSound (some v) t f =
      let opened = store_payload tools "confidential" (some v) (open_session none t) in
      same-IsSound tools opened.1 _ _ opened.1.fresh _ refl refl refl (omega arith) (
        store_payload-IsSound tools no_clash "confidential" (some v) (open_session none t)
          (first-IsSound t f))

  start_session-IsSound :
      (trigger_type : String) (input : Option Json) (attributes : Fields) (t : Trail) {t' : Trail}
      → IsFirst tools t
      → start_session tools trigger_type input attributes t ≡ ok t'
      → IsSound tools t'
  unfolding start_session
  start_session-IsSound trigger_type input attributes t f e =
      let (payload, t1) = store_payload tools "confidential" input t in
      append_event-IsSound tools no_clash (created_event trigger_type input attributes)
        (open_session payload t1) (opened-IsSound input t f) e

  start_span-IsSound :
      (value : SpanStart) (t : Trail) {t' : Trail}
      → IsSound tools t
      → start_span tools value t ≡ ok t'
      → IsSound tools t'
  unfolding start_span
  start_span-IsSound value t s e =
      let (events, _, h) = bind-eq-ok (events_of_domain value.node_type) _ e in
      let stored = store_payload tools value.classification value.input (after_id t) in
      append_event-IsSound tools no_clash (start_event value (tools.new_id t.fresh) events)
        (open_span (tools.new_id t.fresh) value stored.0 stored.1)
        (same-IsSound tools stored.1 _ _ stored.1.fresh _ refl refl refl (omega arith) (
          store_payload-IsSound tools no_clash value.classification value.input (after_id t)
            (same-IsSound tools t _ _ (suc t.fresh) _ refl refl refl (omega arith) s)))
        h

  end_span-IsSound :
      (value : SpanEnd) (t : Trail) {t' : Trail}
      → IsSound tools t
      → end_span tools value t ≡ ok t'
      → IsSound tools t'
  unfolding end_span close_row aggregate_span
  end_span-IsSound value t s e =
      let (span_id, _, e1) = bind-eq-ok (required value.span_id) _ e in
      let (span, _, e2) =
        bind-eq-ok (found_span span_id (first_where (λ (r : AuditSpan). r.id == span_id) t.spans)) _
          e1 in
      let (events, _, h) = bind-eq-ok (events_of_domain span.node_type) _ e2 in
      let stored = store_payload tools value.classification value.output t in
      append_event-IsSound tools no_clash
        (end_event tools value span_id (t.now - span.started_at) events)
        (close_row value span (id_of_payload stored.0) stored.1)
        (same-IsSound tools stored.1 _ _ stored.1.fresh _ refl refl refl (omega arith)
          (store_payload-IsSound tools no_clash value.classification value.output t s))
        h

  end_session-IsSound :
      (value : SessionEnd) (t : Trail) {t' : Trail}
      → IsSound tools t
      → end_session tools value t ≡ ok t'
      → IsSound tools t'
  unfolding end_session
  end_session-IsSound value t s e =
      let stored = store_payload tools value.classification value.output t in
      append_event-IsSound tools no_clash (closing_event value)
        (close_session value (id_of_payload stored.0) stored.1)
        (same-IsSound tools stored.1 _ _ stored.1.fresh _ refl refl refl (omega arith)
          (store_payload-IsSound tools no_clash value.classification value.output t s))
        e

  pub Recorded-IsSound :
      (first : Trail) {t : Trail} → IsFirst tools first → Recorded tools first t → IsSound tools t
  unfolding emit_event
  Recorded-IsSound first f (started trigger_type input attributes e) =
      start_session-IsSound trigger_type input attributes first f e
  Recorded-IsSound first f (span_started value {t = t} r e) =
      start_span-IsSound value t (Recorded-IsSound first f r) e
  Recorded-IsSound first f (emitted value {t = t} r e) =
      append_event-IsSound tools no_clash value t (Recorded-IsSound first f r) e
  Recorded-IsSound first f (span_ended value {t = t} r e) =
      end_span-IsSound value t (Recorded-IsSound first f r) e
  Recorded-IsSound first f (session_ended value {t = t} r e) =
      end_session-IsSound value t (Recorded-IsSound first f r) e
  Recorded-IsSound first f (others_stored classification value {t = t} r) =
      store_payload-IsSound tools no_clash classification (some value) t
        (Recorded-IsSound first f r)
  Recorded-IsSound first f (waited now {t = t} r) =
      same-IsSound tools t t.spans now t.fresh t.session refl refl refl (omega arith)
        (Recorded-IsSound first f r)
