-- ===== src/Audit/Payloads.antt =====
-- The payloads of a verification: a payload that is added changes no digest that was found before,
-- and sealed payloads are no problem.
use vaic2026_charcalavong.Prelude.{
  String, ◌≡◌, refl, Option, none, some, List, [], ◌∷◌, ◌++◌, if◌then◌else◌, ◌==◌, string_eq,
  beq_refl, arith, Option-cases, inl, inr, ok,
}
use vaic2026_charcalavong.Store.{first_where}
use vaic2026_charcalavong.Audit.{AuditPayload, Hashes}
use vaic2026_charcalavong.Audit.Integrity.{
  get_payload, add_reference, digest_problem, payload_problems, digest_at,
}

pub get_payload-append :
    (payloads : List AuditPayload) (q : AuditPayload) (id : String)
    → get_payload (payloads ++ q ∷ []) id ≡ elim (get_payload payloads id) [
      | none ↦ if q.id == id then some q else none
      | some p ↦ some p
    ]
unfolding get_payload first_where
get_payload-append [] q id = refl
get_payload-append (p ∷ payloads) q id = ground (arith, get_payload-append payloads q id)

pub digest_at-append :
    (payloads : List AuditPayload) (q : AuditPayload) (o : Option String) {d : String}
    → digest_at payloads o ≡ ok d
    → digest_at (payloads ++ q ∷ []) o ≡ ok d
unfolding digest_at
digest_at-append payloads q none e = e
digest_at-append payloads q (some id) e = elim (Option-cases (get_payload payloads id)) [
  | inl n ↦ ground (arith, n, e)
  | inr (p, h) ↦ ground (arith, h, e, get_payload-append payloads q id)
]

abbrev pub IsSealed : Hashes → List AuditPayload → Type 0
IsSealed hashes payloads =
    (id : String) (p : AuditPayload)
    → get_payload payloads id ≡ some p
    → hashes.digest p.content ≡ p.sha256

pub digest_at-sealed :
    (hashes : Hashes) (payloads : List AuditPayload) (id : String) {d : String}
    → IsSealed hashes payloads
    → digest_at payloads (some id) ≡ ok d
    → digest_problem hashes id (get_payload payloads id) ≡ []
unfolding digest_at
digest_at-sealed hashes payloads id s e = elim (Option-cases (get_payload payloads id)) [
  | inl n ↦ ground (arith, n, e)
  | inr (p, h) ↦ ground (arith, h, s id p h, beq_refl p.sha256)
]

-- A set of ids whose payloads are no problem
pub payload_problems-add :
    (hashes : Hashes) (payloads : List AuditPayload) (o : Option String) (ids : List String)
    {d : String}
    → IsSealed hashes payloads
    → digest_at payloads o ≡ ok d
    → payload_problems hashes payloads ids ≡ []
    → payload_problems hashes payloads (add_reference o ids) ≡ []
unfolding payload_problems add_reference
payload_problems-add hashes payloads none ids s e h = h
payload_problems-add hashes payloads (some id) ids s e h =
    ground (arith, h, digest_at-sealed hashes payloads id s e)
