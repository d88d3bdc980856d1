-- ===== src/Audit/Events.antt =====
-- The loop of the verification over the events: it may be run in two parts, a payload that is added
-- does not change it, and what it found of the payloads is no problem when they are sealed.
use vaic2026_charcalavong.Prelude.{
  ℕ, suc, ◌+◌, String, ◌≡◌, refl, sym, ap, ◌∙◌, List, [], ◌∷◌, ◌++◌, string_eq, nat_eq, arith,
  Result, ok, subst, bind-eq-ok, bind-ok, length,
}
use vaic2026_charcalavong.Audit.{AuditError, AuditPayload, AuditEvent, Hashes}
use vaic2026_charcalavong.Audit.Integrity.{
  Problem, references, payload_problems, digest_at, own_problems, joined, event_problems,
}
use vaic2026_charcalavong.Audit.Payloads.{digest_at-append, IsSealed, payload_problems-add}

-- The first event of a chain whose digests were all found
pub record Found (hashes : Hashes) (session_id : String) (payloads : List AuditPayload) (n : ℕ)
    (prev : String) (ev : AuditEvent) (events : List AuditEvent) (r : List Problem × String)
    : Type 0 where
  pub input_digest : String
  pub output_digest : String
  pub later : List Problem × String
  pub input_found : digest_at payloads ev.input_payload_id ≡ ok input_digest
  pub output_found : digest_at payloads ev.output_payload_id ≡ ok output_digest
  pub later_found :
      event_problems hashes session_id payloads (suc n) ev.event_hash events ≡ ok later
  pub result :
      joined (own_problems hashes session_id n prev ev input_digest output_digest) later ≡ ok r

abbrev pub found_none : String → Result AuditError (List Problem × String)
found_none h = ok ([], h)

pub first_hash : (prev last : String) → found_none prev ≡ found_none last → prev ≡ last
first_hash prev last e = cc

pub joined-split :
    (own : List Problem) (rest : List Problem × String) {last : String}
    → joined own rest ≡ ok ([], last)
    → (own ≡ []) × (rest ≡ ([], last))
joined-split [] ([], s) e = (refl, cc)
joined-split [] (p ∷ problems, s) e = cc
joined-split (p ∷ own) rest e = cc

module _ (hashes : Hashes) (session_id : String) where
  pub event_problems-Found :
      (payloads : List AuditPayload) (n : ℕ) (prev : String) (ev : AuditEvent)
      (events : List AuditEvent) {r : List Problem × String}
      → event_problems hashes session_id payloads n prev (ev ∷ events) ≡ ok r
      → Found hashes session_id payloads n prev ev events r
  unfolding event_problems
  event_problems-Found payloads n prev ev events e =
      let (i, hi, e1) = bind-eq-ok (digest_at payloads ev.input_payload_id) _ e in
      let (o, ho, e2) = bind-eq-ok (digest_at payloads ev.output_payload_id) _ e1 in
      let (s, hs, e3) =
        bind-eq-ok (event_problems hashes session_id payloads (suc n) ev.event_hash events) _ e2 in
      record {
        input_digest = i;
        output_digest = o;
        later = s;
        input_found = hi;
        output_found = ho;
        later_found = hs;
        result = e3;
      }

  pub Found-event_problems :
      (payloads : List AuditPayload) (n : ℕ) (prev : String) (ev : AuditEvent)
      (events : List AuditEvent) {i o : String} {s r : List Problem × String}
      → digest_at payloads ev.input_payload_id ≡ ok i
      → digest_at payloads ev.output_payload_id ≡ ok o
      → event_problems hashes session_id payloads (suc n) ev.event_hash events ≡ ok s
      → joined (own_problems hashes session_id n prev ev i o) s ≡ ok r
      → event_problems hashes session_id payloads n prev (ev ∷ events) ≡ ok r
  unfolding event_problems
  Found-event_problems payloads n prev ev events hi ho hs h =
      bind-ok _ hi ∙ bind-ok _ ho ∙ bind-ok _ hs ∙ h

  pub event_problems-payload :
      (payloads : List AuditPayload) (q : AuditPayload) (n : ℕ) (prev : String)
      (events : List AuditEvent) {r : List Problem × String}
      → event_problems hashes session_id payloads n prev events ≡ ok r
      → event_problems hashes session_id (payloads ++ q ∷ []) n prev events ≡ ok r
  unfolding event_problems
  event_problems-payload payloads q n prev [] e = e
  event_problems-payload payloads q n prev (ev ∷ events) e =
      let f = event_problems-Found payloads n prev ev events e in
      Found-event_problems (payloads ++ q ∷ []) n prev ev events
        (digest_at-append payloads q ev.input_payload_id f.input_found)
        (digest_at-append payloads q ev.output_payload_id f.output_found)
        (event_problems-payload payloads q (suc n) ev.event_hash events f.later_found) f.result

  pub payload_problems-references :
      (payloads : List AuditPayload) (n : ℕ) (prev : String) (events : List AuditEvent)
      {r : List Problem × String}
      → IsSealed hashes payloads
      → event_problems hashes session_id payloads n prev events ≡ ok r
      → payload_problems hashes payloads (references events) ≡ []
  unfolding payload_problems references
  payload_problems-references payloads n prev [] s e = refl
  payload_problems-references payloads n prev (ev ∷ events) s e =
      let f = event_problems-Found payloads n prev ev events e in
      payload_problems-add hashes payloads ev.input_payload_id _ s f.input_found (
        payload_problems-add hashes payloads ev.output_payload_id (references events) s
          f.output_found
          (payload_problems-references payloads (suc n) ev.event_hash events s f.later_found))

  -- A chain without a problem, and one more event
  pub event_problems-snoc :
      (payloads : List AuditPayload) (n m : ℕ) (prev last : String) (events : List AuditEvent)
      (ev : AuditEvent) {h : String}
      → event_problems hashes session_id payloads n prev events ≡ ok ([], last)
      → m ≡ length events + n
      → event_problems hashes session_id payloads m last (ev ∷ []) ≡ ok ([], h)
      → event_problems hashes session_id payloads n prev (events ++ ev ∷ []) ≡ ok ([], h)
  unfolding event_problems
  event_problems-snoc payloads n m prev last [] ev {h = h'} e c h =
      subst (λ p. event_problems hashes session_id payloads n p (ev ∷ []) ≡ ok ([], h'))
        (sym (first_hash prev last e))
        (subst (λ k. event_problems hashes session_id payloads k last (ev ∷ []) ≡ ok ([], h'))
          (omega (arith, c)) h)
  event_problems-snoc payloads n m prev last (ev' ∷ events) ev {h = h'} e c h =
      let f = event_problems-Found payloads n prev ev' events e in
      let (no_own, later) =
        joined-split (own_problems hashes session_id n prev ev' f.input_digest f.output_digest)
          f.later f.result in
      Found-event_problems payloads n prev ev' (events ++ ev ∷ []) f.input_found f.output_found
        (event_problems-snoc payloads (suc n) m ev'.event_hash last events ev
          (f.later_found ∙ ap ok later) (omega (arith, c)) h)
        (ap (λ own. joined own ([], h')) no_own)
