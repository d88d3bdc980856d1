-- ===== src/Audit/Chain.antt =====
-- The invariant of a trail: its chain of events has no problem and ends in the session's head, and
-- its payloads are sealed. Storing a payload and appending an event keep it.
use vaic2026_charcalavong.Prelude.{
  ℕ, suc, ◌+◌, ◌≤◌, String, ◌≡◌, refl, sym, ap, ◌∙◌, subst, Bool, true, false, Option, none, some,
  List, [], ◌∷◌, ◌++◌, if◌then◌else◌, ◌==◌, string_eq, nat_eq, beq_refl, arith, Result, ok,
  bind-eq-ok, length, length-append, Option-cases, inl, inr,
}
use vaic2026_charcalavong.Store.{Json}
use vaic2026_charcalavong.Audit.{
  AuditError, AuditPayload, AuditEvent, Hashes, Trail, validate_audit_type,
}
use vaic2026_charcalavong.Audit.Sink.{
  EventRecord, Tools, payload_of, store_payload, digest_of, id_of_payload, link, append_valid,
  append_event, signed_event, evidence_of,
}
use vaic2026_charcalavong.Audit.Integrity.{
  get_payload, digest_at, event_problems, own_problems, joined, sha_of,
}
use vaic2026_charcalavong.Audit.Payloads.{get_payload-append, digest_at-append, IsSealed}
use vaic2026_charcalavong.Audit.Redacted.{IsRedacted, redact-IsRedacted}
use vaic2026_charcalavong.Audit.Events.{
  event_problems-payload, event_problems-snoc, Found-event_problems,
}

-- What holds of every payload that is found
abbrev pub AllFound : (AuditPayload → Type 0) → List AuditPayload → Type 0
AllFound P payloads = (id : String) (p : AuditPayload) → get_payload payloads id ≡ some p → P p

pub record IsSound (tools : Tools) (t : Trail) : Type 0 where
  pub chain :
      event_problems tools.hashes t.session.id t.payloads 1 "" t.events
      ≡ ok ([], t.session.last_hash)
  pub count : length t.events ≡ t.session.last_sequence
  pub sealed : IsSealed tools.hashes t.payloads
  pub redacted : AllFound (λ p. IsRedacted tools.patterns p.content) t.payloads
  pub unused : (k : ℕ) → t.fresh ≤ k → get_payload t.payloads (tools.new_id k) ≡ none

if_some : (c : Bool) (q p : AuditPayload) → (if c then some q else none) ≡ some p → q ≡ p
if_some true q p e = cc
if_some false q p e = cc

-- A payload is found in the extended list as before, unless it is the new one.
get_payload-kept :
    (payloads : List AuditPayload) (q : AuditPayload) (id : String) {p : AuditPayload}
    → get_payload payloads id ≡ some p
    → get_payload (payloads ++ q ∷ []) id ≡ some p
get_payload-kept payloads q id e = ground (arith, e, get_payload-append payloads q id)

get_payload-new :
    (payloads : List AuditPayload) (q : AuditPayload) (id : String)
    → get_payload payloads id ≡ none
    → get_payload (payloads ++ q ∷ []) id ≡ (if q.id == id then some q else none)
get_payload-new payloads q id e = ground (arith, e, get_payload-append payloads q id)

own_problems-none :
    (hashes : Hashes) (session_id : String) (n : ℕ) (prev : String) (ev : AuditEvent) (i o : String)
    → ev.sequence_no ≡ n
    → ev.prev_hash ≡ prev
    → hashes.hash (evidence_of session_id ev i o) ≡ ev.event_hash
    → own_problems hashes session_id n prev ev i o ≡ []
own_problems-none hashes session_id n prev ev i o hn hp hh = ground (
  arith,
  hn,
  hp,
  hh,
  nat_eq.same_iff ev.sequence_no n,
  string_eq.same_iff ev.prev_hash prev,
  string_eq.same_iff (hashes.hash (evidence_of session_id ev i o)) ev.event_hash,
)

abbrev the_trail : Trail → Result AuditError Trail
the_trail t = ok t

AllFound-append :
    (P : AuditPayload → Type 0) (payloads : List AuditPayload) (q : AuditPayload)
    → AllFound P payloads
    → P q
    → AllFound P (payloads ++ q ∷ [])
AllFound-append P payloads q s e id p h = elim (Option-cases (get_payload payloads id)) [
  | inl n ↦ subst P (if_some (q.id == id) q p (sym (get_payload-new payloads q id n) ∙ h)) e
  | inr (p', h') ↦ s id p (h' ∙ sym (get_payload-kept payloads q id h') ∙ h)
]

abbrev pub NoClash : Tools → Type 0
NoClash tools = (j k : ℕ) → tools.new_id j ≡ tools.new_id k → j ≡ k

module _ (tools : Tools) (no_clash : NoClash tools) where
  new_id-other : (j k : ℕ) → suc j ≤ k → (tools.new_id j == tools.new_id k) ≡ false
  new_id-other j k le =
      ground (arith, le, no_clash j k, string_eq.same_iff (tools.new_id j) (tools.new_id k))

  pub store_payload-IsSound :
      (classification : String) (value : Option Json) (t : Trail)
      → IsSound tools t
      → IsSound tools (store_payload tools classification value t).1
  unfolding store_payload
  store_payload-IsSound classification none t s = s
  store_payload-IsSound classification (some v) t s =
      let q = payload_of tools (tools.new_id t.fresh) classification v in
      record {
        chain = event_problems-payload tools.hashes t.session.id t.payloads q 1 "" t.events s.chain;
        count = s.count;
        sealed =
            AllFound-append (λ p. tools.hashes.digest p.content ≡ p.sha256) t.payloads q s.sealed
              refl;
        redacted =
            AllFound-append (λ p. IsRedacted tools.patterns p.content) t.payloads q s.redacted
              (redact-IsRedacted tools.patterns v);
        unused = λ k le.
            get_payload-new t.payloads q (tools.new_id k) (s.unused k (omega (arith, le)))
            ∙ ap (λ c. if c then some q else none) (new_id-other t.fresh k le);
      }

  store_payload-digest_at :
      (classification : String) (value : Option Json) (t : Trail)
      → IsSound tools t
      → digest_at
          (store_payload tools classification value t).1.payloads
          (id_of_payload (store_payload tools classification value t).0)
        ≡ ok (digest_of (store_payload tools classification value t).0)
  unfolding store_payload digest_at
  store_payload-digest_at classification none t s = refl
  store_payload-digest_at classification (some v) t s = ap (sha_of _) (
      get_payload-new t.payloads (payload_of tools (tools.new_id t.fresh) classification v)
        (tools.new_id t.fresh) (s.unused t.fresh (omega arith))
      ∙ ap
          (λ c. if c then some (payload_of tools (tools.new_id t.fresh) classification v) else none)
          (beq_refl (tools.new_id t.fresh)))

  digest_at-store_payload :
      (classification : String) (value : Option Json) (t : Trail) (o : Option String) {d : String}
      → digest_at t.payloads o ≡ ok d
      → digest_at (store_payload tools classification value t).1.payloads o ≡ ok d
  unfolding store_payload
  digest_at-store_payload classification none t o e = e
  digest_at-store_payload classification (some v) t o e =
      digest_at-append t.payloads (payload_of tools (tools.new_id t.fresh) classification v) o e

  link-IsSound :
      (value : EventRecord) (p q : Option AuditPayload) (t : Trail)
      → IsSound tools t
      → digest_at t.payloads (id_of_payload p) ≡ ok (digest_of p)
      → digest_at t.payloads (id_of_payload q) ≡ ok (digest_of q)
      → IsSound tools (link tools value p q t)
  unfolding event_problems
  link-IsSound value p q t s hp hq =
      let ev = signed_event tools value p q t in
      let n = t.session.last_sequence + 1 in
      record {
        chain =
            event_problems-snoc tools.hashes t.session.id t.payloads 1 n "" t.session.last_hash
              t.events ev s.chain (ap (λ n. n + 1) (sym s.count))
              (Found-event_problems tools.hashes t.session.id t.payloads n t.session.last_hash ev []
                hp hq refl
                (ap (λ own. joined own ([], ev.event_hash))
                  (own_problems-none tools.hashes t.session.id n t.session.last_hash ev
                    (digest_of p) (digest_of q) refl refl refl)));
        count = length-append t.events (ev ∷ []) ∙ ap (λ n. n + 1) s.count;
        sealed = s.sealed;
        redacted = s.redacted;
        unused = λ k le. s.unused k (omega (arith, le));
      }

  append_valid-IsSound :
      (value : EventRecord) (t : Trail)
      → IsSound tools t
      → IsSound tools (append_valid tools value t)
  unfolding append_valid
  append_valid-IsSound value t s =
      let first = store_payload tools value.classification value.input t in
      let s1 = store_payload-IsSound value.classification value.input t s in
      let second = store_payload tools value.classification value.output first.1 in
      link-IsSound value first.0 second.0 second.1
        (store_payload-IsSound value.classification value.output first.1 s1)
        (digest_at-store_payload value.classification value.output first.1 (id_of_payload first.0)
          (store_payload-digest_at value.classification value.input t s))
        (store_payload-digest_at value.classification value.output first.1 s1)

  ok_eq : {a b : Trail} → the_trail a ≡ the_trail b → a ≡ b
  ok_eq e = cc

  pub append_event-IsSound :
      (value : EventRecord) (t : Trail) {t' : Trail}
      → IsSound tools t
      → append_event tools value t ≡ ok t'
      → IsSound tools t'
  unfolding append_event
  append_event-IsSound value t s e =
      let (_, _, h) = bind-eq-ok (validate_audit_type value.event_type) _ e in
      subst (IsSound tools) (ok_eq h) (append_valid-IsSound value t s)
