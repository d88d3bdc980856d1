-- ===== src/Audit/Verified.antt =====
-- The verification of what the sink has written, and its stored payloads.
use vaic2026_charcalavong.Prelude.{
  String, ◌≡◌, refl, ap, ◌∙◌, some, List, map, [], ◌∷◌, ◌++◌, string_eq, nat_eq, beq_refl, arith,
  ok, bind-ok, length,
}
use vaic2026_charcalavong.Audit.{AuditPayload, AuditEvent, Trail}
use vaic2026_charcalavong.Audit.Sink.{Tools}
use vaic2026_charcalavong.Audit.Integrity.{
  get_payload, report_of, span_problems, verify_rows, verify_session, Columns, payload_read,
  event_read, as_read, head_problems,
}
use vaic2026_charcalavong.Audit.Redacted.{IsRedacted}
use vaic2026_charcalavong.Audit.Events.{payload_problems-references}
use vaic2026_charcalavong.Audit.Recorded.{Recorded, IsFirst, Recorded-IsSound}
use vaic2026_charcalavong.Audit.Chain.{NoClash}

head_problems-none :
    (t : Trail)
    → length t.events ≡ t.session.last_sequence
    → head_problems t t.session.last_hash ≡ []
head_problems-none t c = ground (
  arith,
  c,
  beq_refl t.session.last_hash,
  nat_eq.same_iff (length t.events) t.session.last_sequence,
)

abbrev pub All : {A : Type 0} → (A → Type 0) → List A → Type 0
All P [] = Unit {0}
All P (x ∷ xs) = P x × All P xs

-- The database returns each stored payload, and each event's attributes and time, as they were
-- written.
pub record IsKept (columns : Columns) (t : Trail) : Type 0 where
  pub payloads : All (λ (p : AuditPayload). columns.json p.content ≡ p.content) t.payloads
  pub events :
      All
        (λ (ev : AuditEvent).
          (columns.fields ev.attributes ≡ ev.attributes)
          × (columns.time ev.occurred_at ≡ ev.occurred_at))
        t.events

verify_rows-Recorded :
    (tools : Tools) (first : Trail) {t : Trail}
    → NoClash tools
    → IsFirst tools first
    → Recorded tools first t
    → verify_rows tools.hashes t ≡ ok (report_of t (span_problems t) t.session.last_hash)
unfolding verify_rows
verify_rows-Recorded tools first {t = t} no_clash f r =
    let s = Recorded-IsSound tools no_clash first f r in
    bind-ok _ s.chain
    ∙ ap (λ problems. ok (report_of t problems t.session.last_hash))
        (ap (λ p. p ++ [] ++ head_problems t t.session.last_hash ++ span_problems t)
            (payload_problems-references tools.hashes t.session.id t.payloads 1 "" t.events s.sealed
              s.chain)
          ∙ ap (λ p. p ++ span_problems t) (head_problems-none t s.count))

payloads-kept :
    (columns : Columns) (payloads : List AuditPayload)
    → All (λ (p : AuditPayload). columns.json p.content ≡ p.content) payloads
    → map (payload_read columns) payloads ≡ payloads
payloads-kept columns [] h = refl
payloads-kept columns (p ∷ payloads) h =
    rw h.0 (ap (λ ps. p ∷ ps) (payloads-kept columns payloads h.1))

events-kept :
    (columns : Columns) (events : List AuditEvent)
    → All
        (λ (ev : AuditEvent).
          (columns.fields ev.attributes ≡ ev.attributes)
          × (columns.time ev.occurred_at ≡ ev.occurred_at))
        events
    → map (event_read columns) events ≡ events
events-kept columns [] h = refl
events-kept columns (ev ∷ events) h =
    rw h.0.0 (rw h.0.1 (ap (λ es. ev ∷ es) (events-kept columns events h.1)))

-- Conditions: the generator gives no id twice; before the session the tenant's stored payloads are
-- redacted, sealed by their digests, and have none of the ids to come; and the database returns the
-- contents of the payloads, and the attributes and times of the events, as they were written. After
-- any successful operations of the sink, with waiting and payloads of other sessions in between,
-- the verification then returns a report that counts the session's events and ends in its last
-- hash, and its only problem, if any, is that of spans which still run although the session does
-- not.
pub verify_session-Recorded :
    (tools : Tools) (columns : Columns) (first : Trail) {t : Trail}
    → NoClash tools
    → IsFirst tools first
    → Recorded tools first t
    → IsKept columns t
    → verify_session tools.hashes columns t ≡ ok (report_of t (span_problems t) t.session.last_hash)
unfolding verify_session as_read
verify_session-Recorded tools columns first {t = t} no_clash f r kept =
    ap
      (λ ps.
        verify_rows tools.hashes
          (record t { payloads = ps; events = map (event_read columns) t.events }))
      (payloads-kept columns t.payloads kept.payloads)
    ∙ ap (λ es. verify_rows tools.hashes (record t { events = es }))
        (events-kept columns t.events kept.events)
    ∙ verify_rows-Recorded tools first no_clash f r

-- Conditions: the generator gives no id twice, and the payloads stored before the session
-- are redacted, sealed and have none of the ids to come. After any successful operations of the sink
-- every stored payload, whatever input or output it came from, has only the mark of the redaction
-- below a secret key, at every depth, and all its other texts are ones that the patterns cleaned.
pub Recorded-IsRedacted :
    (tools : Tools) (first : Trail) {t : Trail}
    → NoClash tools
    → IsFirst tools first
    → Recorded tools first t
    → (id : String) (p : AuditPayload) → get_payload t.payloads id ≡ some p
    → IsRedacted tools.patterns p.content
Recorded-IsRedacted tools first no_clash f r = (Recorded-IsSound tools no_clash first f r).redacted
