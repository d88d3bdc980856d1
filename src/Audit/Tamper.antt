-- ===== src/Audit/Tamper.antt =====
-- What the head of a verified chain of events fixes.
use vaic2026_charcalavong.Prelude.{
  ℕ, suc, String, ◌≡◌, refl, sym, ap, ◌∙◌, true, List, [], ◌∷◌, ◌++◌, string_eq, nat_eq, arith,
  Result, ok, raise, bind-eq-ok, length,
}
use vaic2026_charcalavong.Audit.{AuditError, AuditPayload, AuditEvent, Evidence, Hashes, Trail}
use vaic2026_charcalavong.Audit.Sink.{evidence_of}
use vaic2026_charcalavong.Audit.Integrity.{
  Problem, Report, Columns, as_read, verify_rows, digest_at, event_problems, own_problems,
  verify_session, is_valid, payload_problems, references, head_problems, span_problems,
}
use vaic2026_charcalavong.Audit.Events.{event_problems-Found, first_hash, joined-split}

abbrev shown : Result AuditError String → String
shown (raise e) = ""
shown (ok d) = d

-- The evidence of each event, with the digests of its payloads
unfoldable pub evidence_list : String → List AuditPayload → List AuditEvent → List Evidence
unfolding digest_at
evidence_list session_id payloads [] = []
evidence_list session_id payloads (ev ∷ events) =
    evidence_of session_id ev (shown (digest_at payloads ev.input_payload_id))
      (shown (digest_at payloads ev.output_payload_id))
    ∷ evidence_list session_id payloads events

unfoldable pub evidence_in : Trail → List Evidence
unfolding evidence_list
evidence_in t = evidence_list t.session.id t.payloads t.events

-- At no place do two pieces of evidence collide.
unfoldable pub NoCollision : (Evidence → String) → List Evidence → List Evidence → Type 0
NoCollision hash (e ∷ es) (e' ∷ es') = (hash e ≡ hash e' → e ≡ e') × NoCollision hash es es'
NoCollision hash es es' = Unit {0}

own_problems-none :
    (hashes : Hashes) (session_id : String) (n : ℕ) (prev : String) (ev : AuditEvent) (i o : String)
    → own_problems hashes session_id n prev ev i o ≡ []
    → (ev.prev_hash ≡ prev) × (hashes.hash (evidence_of session_id ev i o) ≡ ev.event_hash)
own_problems-none hashes session_id n prev ev i o e = ground (
  arith,
  e,
  string_eq.same_iff ev.prev_hash prev,
  string_eq.same_iff (hashes.hash (evidence_of session_id ev i o)) ev.event_hash,
)

cons_eq : {e e' : Evidence} {es es' : List Evidence} → e ≡ e' → es ≡ es' → (e ∷ es) ≡ (e' ∷ es')
cons_eq {e' = e'} {es = es} same same_later = ap (λ x. x ∷ es) same ∙ ap (λ xs. e' ∷ xs) same_later

signed_shown :
    (hashes : Hashes) (session_id : String) (ev : AuditEvent) (r q : Result AuditError String)
    {i o h : String}
    → r ≡ ok i
    → q ≡ ok o
    → hashes.hash (evidence_of session_id ev i o) ≡ h
    → hashes.hash (evidence_of session_id ev (shown r) (shown q)) ≡ h
signed_shown hashes session_id ev r q {i = i} er eq signed =
    ap (λ r. hashes.hash (evidence_of session_id ev (shown r) (shown q))) er
    ∙ ap (λ q. hashes.hash (evidence_of session_id ev i (shown q))) eq
    ∙ signed

module _ (hashes : Hashes) (s s' : String) (payloads payloads' : List AuditPayload) where
  same_evidence :
      (n n' : ℕ) (prev prev' last last' : String) (events events' : List AuditEvent)
      → event_problems hashes s payloads n prev events ≡ ok ([], last)
      → event_problems hashes s' payloads' n' prev' events' ≡ ok ([], last')
      → last ≡ last'
      → length events ≡ length events'
      → NoCollision hashes.hash
          (evidence_list s payloads events)
          (evidence_list s' payloads' events')
      → (prev ≡ prev') × (evidence_list s payloads events ≡ evidence_list s' payloads' events')
  unfolding event_problems evidence_list NoCollision
  same_evidence n n' prev prev' last last' [] [] e e' h c apart =
      (first_hash prev last e ∙ h ∙ sym (first_hash prev' last' e'), refl)
  same_evidence n n' prev prev' last last' [] (ev' ∷ events') e e' h c apart =
      absurd (omega (arith, c))
  same_evidence n n' prev prev' last last' (ev ∷ events) [] e e' h c apart =
      absurd (omega (arith, c))
  same_evidence n n' prev prev' last last' (ev ∷ events) (ev' ∷ events') e e' h c apart =
      let f = event_problems-Found hashes s payloads n prev ev events e in
      let f' = event_problems-Found hashes s' payloads' n' prev' ev' events' e' in
      let (none_own, later) = joined-split _ f.later f.result in
      let (none_own', later') = joined-split _ f'.later f'.result in
      let (same_hash, same_later) =
        same_evidence (suc n) (suc n') ev.event_hash ev'.event_hash last last' events events'
          (f.later_found ∙ ap ok later) (f'.later_found ∙ ap ok later') h (omega (arith, c))
          apart.1 in
      let (linked, signed) =
        own_problems-none hashes s n prev ev f.input_digest f.output_digest none_own in
      let (linked', signed') =
        own_problems-none hashes s' n' prev' ev' f'.input_digest f'.output_digest none_own' in
      let same = apart.0 (
        signed_shown hashes s ev _ _ f.input_found f.output_found signed
        ∙ same_hash
        ∙ sym (signed_shown hashes s' ev' _ _ f'.input_found f'.output_found signed')) in
      (sym linked ∙ ap (λ (x : Evidence). x.prev_hash) same ∙ linked', cons_eq same same_later)

abbrev reported : Report → Result AuditError Report
reported r = ok r

report_eq : {r r' : Report} → reported r ≡ reported r' → r ≡ r'
report_eq e = cc

append-none : (xs ys : List Problem) → xs ++ ys ≡ [] → xs ≡ []
append-none [] ys e = refl
append-none (x ∷ xs) ys e = cc

is_valid-none : (problems : List Problem) → is_valid problems ≡ true → problems ≡ []
is_valid-none [] e = refl
is_valid-none (p ∷ problems) e = cc

append-none-right : (xs ys : List Problem) → xs ++ ys ≡ [] → ys ≡ []
append-none-right [] ys e = e
append-none-right (x ∷ xs) ys e = cc

-- A valid report says that the chain has no problem and ends in the report's last hash.
verify_rows-chain :
    (hashes : Hashes) (t : Trail) {found : Report}
    → verify_rows hashes t ≡ ok found
    → found.valid ≡ true
    → (event_problems hashes t.session.id t.payloads 1 "" t.events ≡ ok ([], found.last_hash))
      × (length t.events ≡ found.event_count)
unfolding verify_rows
verify_rows-chain hashes t {found = found} e v =
    let (r, chain, returned) =
      bind-eq-ok (event_problems hashes t.session.id t.payloads 1 "" t.events) _ e in
    let same = report_eq returned in
    let whole = is_valid-none _ (ap (λ (x : Report). x.valid) same ∙ v) in
    (
      chain
          ∙ ap (λ problems. ok (problems, r.1))
              (append-none-right (payload_problems hashes t.payloads (references t.events)) r.0
                (append-none _ (head_problems t r.1) (append-none _ (span_problems t) whole)))
          ∙ ap (λ h. ok ([], h)) (ap (λ (x : Report). x.last_hash) same),
      ap (λ (x : Report). x.event_count) same,
    )

-- Conditions: two states of a session's rows are both reported as valid, with as many events and
-- the same last hash, and at no place do two different pieces of evidence, of the rows as the
-- database returns them, have the same hash. Then all events have the same evidence: their ids,
-- times, types, statuses, attributes and order, and the digests of their payloads, are as they were.
pub verify_session_fixes :
    (hashes : Hashes) (columns : Columns) (t t' : Trail) {found found' : Report}
    → verify_session hashes columns t ≡ ok found
    → verify_session hashes columns t' ≡ ok found'
    → found.valid ≡ true
    → found'.valid ≡ true
    → found.event_count ≡ found'.event_count
    → found.last_hash ≡ found'.last_hash
    → NoCollision hashes.hash (evidence_in (as_read columns t)) (evidence_in (as_read columns t'))
    → evidence_in (as_read columns t) ≡ evidence_in (as_read columns t')
unfolding evidence_list evidence_in verify_session as_read
verify_session_fixes hashes columns t t' e e' v v' c h apart =
    let u = as_read columns t in
    let u' = as_read columns t' in
    let (chain, count) = verify_rows-chain hashes u e v in
    let (chain', count') = verify_rows-chain hashes u' e' v' in
    (same_evidence hashes u.session.id u'.session.id u.payloads u'.payloads 1 1 "" "" _ _ u.events
      u'.events chain chain' h (count ∙ c ∙ sym count') apart).1
