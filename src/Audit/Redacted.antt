-- ===== src/Audit/Redacted.antt =====
-- What the redaction (backend/app/modules/audit/redaction.py) leaves of a payload.
use vaic2026_charcalavong.Prelude.{
  ℕ, suc, ◌+◌, String, ◌≡◌, refl, sym, subst, Bool, true, false, if◌then◌else◌, string_eq,
}
use vaic2026_charcalavong.Store.{
  Json, null, truth, num, str, arr, obj, Items, nil, item, Fields, end, field,
}
use vaic2026_charcalavong.Audit.{Patterns, redact, redact_items, redact_fields}

-- Every text is one that the patterns have cleaned, and below a secret key, at whatever depth, there
-- is only the mark of the redaction.
unfoldable mutual
  pub IsRedacted : Patterns → Json → Type 0
  IsRedacted p null = Unit {0}
  IsRedacted p (truth b) = Unit {0}
  IsRedacted p (num n) = Unit {0}
  IsRedacted p (str t) = (s : String) × ((p.clean s).0 ≡ t)
  IsRedacted p (arr items) = AllItems p items
  IsRedacted p (obj fields) = AllFields p fields

  AllItems : Patterns → Items → Type 0
  AllItems p nil = Unit {0}
  AllItems p (item j items) = IsRedacted p j × AllItems p items

  AllFields : Patterns → Fields → Type 0
  AllFields p end = Unit {0}
  AllFields p (field k j fields) =
      (if p.is_secret k then j ≡ str "[REDACTED]" else IsRedacted p j) × AllFields p fields

AllFields-field :
    (p : Patterns) (c : Bool) (k : String) (j : Json) (n m : ℕ) (fields : Fields)
    → p.is_secret k ≡ c
    → IsRedacted p j
    → AllFields p fields
    → let r : Fields × ℕ =
        if c then (field k (str "[REDACTED]") fields, suc m) else (field k j fields, n + m) in
      AllFields p r.0
unfolding IsRedacted
AllFields-field p true k j n m fields e h rest = (
  subst (λ c. if c then str "[REDACTED]" ≡ str "[REDACTED]" else IsRedacted p (str "[REDACTED]"))
      (sym e) refl,
  rest,
)
AllFields-field p false k j n m fields e h rest =
    (subst (λ c. if c then j ≡ str "[REDACTED]" else IsRedacted p j) (sym e) h, rest)

mutual
  unfolding redact IsRedacted

  pub redact-IsRedacted : (p : Patterns) (j : Json) → IsRedacted p (redact p j).0
  redact-IsRedacted p null = record {}
  redact-IsRedacted p (truth b) = record {}
  redact-IsRedacted p (num n) = record {}
  redact-IsRedacted p (str t) = (t, refl)
  redact-IsRedacted p (arr items) = redact_items-AllItems p items
  redact-IsRedacted p (obj fields) = redact_fields-AllFields p fields

  redact_items-AllItems : (p : Patterns) (items : Items) → AllItems p (redact_items p items).0
  redact_items-AllItems p nil = record {}
  redact_items-AllItems p (item j items) = (redact-IsRedacted p j, redact_items-AllItems p items)

  redact_fields-AllFields :
      (p : Patterns) (fields : Fields) → AllFields p (redact_fields p fields).0
  redact_fields-AllFields p end = record {}
  redact_fields-AllFields p (field k j fields) =
      AllFields-field p (p.is_secret k) k (redact p j).0 (redact p j).1 (redact_fields p fields).1
        (redact_fields p fields).0 refl (redact-IsRedacted p j) (redact_fields-AllFields p fields)
