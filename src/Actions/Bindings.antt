-- ===== src/Actions/Bindings.antt =====
-- What every change of the bindings keeps: valid targets and events, and unique names and ids.
use vaic2026_charcalavong.Prelude.{
  ℕ, ◌≤◌, String, ◌≡◌, ◌≢◌, refl, sym, ap, ◌∙◌, subst, ◌⊎◌, inl, inr, Bool-cases, true≢false, true,
  false, Option, some, List, [], ◌∷◌, map, arith, ◌==◌, string_eq, pair_eq, beq→≡, ≢→beq, Result,
  raise, ok, elem, elem_self, elem_cons, Distinct,
}
use vaic2026_charcalavong.Store.{first_where, update_where}
use vaic2026_charcalavong.Catalog.{AppError}
use vaic2026_charcalavong.Actions.{
  event_types, ActionBinding, Desk, Principal, NewBinding, Patch, is_some, validate_event_type,
  validate_target, name_taken, create_binding, put_binding, update_binding, delete_binding,
}

-- The table's CHECK constraints: a known event, and the one target that the type names.
abbrev pub HasTarget : String → Option String → Option String → Type 0
HasTarget target_type workflow_id agent_id =
    ((target_type ≡ "workflow") × (is_some workflow_id ≡ true) × (is_some agent_id ≡ false))
    ⊎ ((target_type ≡ "agent") × (is_some agent_id ≡ true) × (is_some workflow_id ≡ false))

pub record IsValidBinding (b : ActionBinding) : Type 0 where
  pub event : elem b.event_type event_types ≡ true
  pub target : HasTarget b.target_type b.workflow_id b.agent_id

abbrev pub AllValid : List ActionBinding → Type 0
AllValid [] = Unit {0}
AllValid (b ∷ bindings) = IsValidBinding b × AllValid bindings

abbrev pub ids : List ActionBinding → List String
ids bindings = map (λ (b : ActionBinding). b.id) bindings

-- The tenant and the name, which are unique together
abbrev pub label : ActionBinding → String × String
label b = (b.tenant_id, b.name)

abbrev pub labels : List ActionBinding → List (String × String)
labels bindings = map label bindings

pub record IsTable (new_id : ℕ → String) (s : Desk) : Type 0 where
  pub valid : AllValid s.bindings
  pub unique_labels : Distinct (labels s.bindings)
  pub unique_ids : Distinct (ids s.bindings)
  pub unused : (i : ℕ) → s.catalog.fresh ≤ i → elem (new_id i) (ids s.bindings) ≡ false

-- The three requests that change the table
pub data Edit : Type 0 where
  create : Principal → NewBinding → Edit
  update : String → Patch → Edit
  delete : String → Edit

abbrev pub desk_of : Result AppError (Desk × ActionBinding) → Result AppError Desk
desk_of (raise e) = raise e
desk_of (ok p) = ok p.0

abbrev pub edit : (ℕ → String) → Edit → Desk → Result AppError Desk
edit new_id (create principal new) s = desk_of (create_binding new_id principal new s)
edit new_id (update id p) s = desk_of (update_binding id p s)
edit new_id (delete id) s = delete_binding id s

pub validate_event_type-ok :
    (t : String) → validate_event_type t ≡ ok tt → elem t event_types ≡ true
unfolding validate_event_type
validate_event_type-ok t h = elim (Bool-cases (elem t event_types)) [
  | inl e ↦ e
  | inr f ↦ ground arith
]

pub validate_target-HasTarget :
    (t : String) (w a : Option String) → validate_target t w a ≡ ok tt → HasTarget t w a
unfolding validate_target elem
validate_target-HasTarget t w a h =
    let same = string_eq.same_iff "workflow" t in
    let same' = string_eq.same_iff t "workflow" in
    let agent = string_eq.same_iff "agent" t in
    let agent' = string_eq.same_iff t "agent" in
    elim (Bool-cases (t == "workflow")) [
      | inl e ↦ inl (beq→≡ t "workflow" e, ground arith, ground arith)
      | inr f ↦
          let is_agent : t ≡ "agent" = ground arith in inr (is_agent, ground arith, ground arith)
    ]

pub name_taken-eq :
    (t n : String) (bindings : List ActionBinding)
    → name_taken t n bindings ≡ elem (t, n) (labels bindings)
unfolding name_taken elem
name_taken-eq t n [] = refl
name_taken-eq t n (b ∷ bindings) = ground (arith, name_taken-eq t n bindings)

elem-tail :
    (l m : String × String) (ls : List (String × String))
    → elem l (m ∷ ls) ≡ false
    → elem l ls ≡ false
unfolding elem
elem-tail l m ls h = ground arith

module _ (b' : ActionBinding) where
  -- A row is replaced by one with its id.
  pub ids-put : (bindings : List ActionBinding) → ids (put_binding b' bindings) ≡ ids bindings
  unfolding update_where
  ids-put [] = refl
  ids-put (r ∷ rows) = ground (arith, ids-put rows, string_eq.same_iff r.id b'.id)

  put-absent :
      (bindings : List ActionBinding)
      → elem b'.id (ids bindings) ≡ false
      → put_binding b' bindings ≡ bindings
  unfolding update_where elem
  put-absent [] h = refl
  put-absent (r ∷ rows) h = ground (arith, put-absent rows)

  pub AllValid-put :
      (bindings : List ActionBinding)
      → IsValidBinding b'
      → AllValid bindings
      → AllValid (put_binding b' bindings)
  unfolding update_where
  AllValid-put [] v h = tt
  AllValid-put (r ∷ rows) v h = elim (Bool-cases (r.id == b'.id)) [
    | inl t ↦ rw t (v, AllValid-put rows v h.1)
    | inr f ↦ rw f (h.0, AllValid-put rows v h.1)
  ]

  -- The label of the new row is either new or that of the old row.
  elem-labels_put :
      (l : String × String) (bindings : List ActionBinding)
      → (label b' == l) ≡ false
      → elem l (labels bindings) ≡ false
      → elem l (labels (put_binding b' bindings)) ≡ false
  unfolding update_where elem
  elem-labels_put l [] f h = refl
  elem-labels_put l (r ∷ rows) f h = elim (Bool-cases (r.id == b'.id)) [
    | inl t ↦ rw t (ground (arith, elem-labels_put l rows f))
    | inr g ↦ rw g (ground (arith, elem-labels_put l rows f))
  ]

  label-elem :
      (b : ActionBinding) (bindings : List ActionBinding)
      → first_where (λ (r : ActionBinding). r.id == b'.id) bindings ≡ some b
      → elem (label b) (labels bindings) ≡ true
  unfolding first_where elem
  label-elem b [] h = cc
  label-elem b (r ∷ rows) h = elim (Bool-cases (r.id == b'.id)) [
    | inl t ↦
        let same : r ≡ b = ground arith in
        subst (λ x. elem (label x) (labels (r ∷ rows)) ≡ true) same
          (elem_self (label r) (labels rows))
    | inr f ↦ elem_cons (label r) (label b) (labels rows) (label-elem b rows (ground arith))
  ]

  pub Distinct-put :
      (b : ActionBinding) (bindings : List ActionBinding)
      → first_where (λ (r : ActionBinding). r.id == b'.id) bindings ≡ some b
      → Distinct (ids bindings)
      → Distinct (labels bindings)
      → (label b' ≡ label b) ⊎ (elem (label b') (labels bindings) ≡ false)
      → Distinct (labels (put_binding b' bindings))
  unfolding first_where update_where
  Distinct-put b [] h di dl new = cc
  Distinct-put b (r ∷ rows) h di dl new = elim (Bool-cases (r.id == b'.id)) [
    | inl t ↦
        let r_is_b : r ≡ b = ground arith in
        let out : elem b'.id (ids rows) ≡ false =
          subst (λ i. elem i (ids rows) ≡ false) (beq→≡ r.id b'.id t) di.0 in
        let kept : put_binding b' rows ≡ rows = put-absent rows out in
        let fresh : elem (label b') (labels rows) ≡ false = elim new [
          | inl same ↦
              subst (λ l. elem l (labels rows) ≡ false) (sym (same ∙ ap label (sym r_is_b))) dl.0
          | inr free ↦ elem-tail (label b') (label r) (labels rows) free
        ] in
        rw t (subst (λ rs. Distinct (labels (b' ∷ rs))) (sym kept) (fresh, dl.1))
    | inr f ↦
        let h' : first_where (λ (r : ActionBinding). r.id == b'.id) rows ≡ some b = ground arith in
        let apart : label b' ≢ label r = λ e. elim new [
          | inl same ↦ true≢false (
              sym (label-elem b rows h')
              ∙ subst (λ l. elem l (labels rows) ≡ false) (sym e ∙ same) dl.0)
          | inr free ↦ true≢false (
              sym (elem_self (label r) (labels rows))
              ∙ subst (λ l. elem l (labels (r ∷ rows)) ≡ false) e free)
        ] in
        let new' : (label b' ≡ label b) ⊎ (elem (label b') (labels rows) ≡ false) = elim new [
          | inl same ↦ inl same
          | inr free ↦ inr (elem-tail (label b') (label r) (labels rows) free)
        ] in
        rw f (
          elem-labels_put (label r) rows (≢→beq (label b') (label r) apart) dl.0,
          Distinct-put b rows h' di.1 dl.1 new',
        )
  ]
