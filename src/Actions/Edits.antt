-- ===== src/Actions/Edits.antt =====
-- The CRUD operations on the bindings keep the table's constraints.
use vaic2026_charcalavong.Prelude.{
  Equality, true≢false, ℕ, String, ◌≡◌, refl, sym, ap, ◌∙◌, subst, ◌⊎◌, inl, inr, Bool-cases, Bool,
  true, false, not, ◌||◌, Option, none, some, List, [], ◌∷◌, ◌++◌, map, arith, ◌==◌, if◌then◌else◌,
  string_eq, pair_eq, beq→≡, ≢→beq, Result, raise, ok, bind-eq-ok, elem, elem-append, Distinct,
  Distinct-append, Distinct-map-keep, elem-map-keep, keep,
}
use vaic2026_charcalavong.Store.{first_where}
use vaic2026_charcalavong.Catalog.{AppError}
use vaic2026_charcalavong.Actions.{
  event_types, ActionBinding, Desk, Principal, NewBinding, Patch, is_some, or_old, or_same,
  validate_event_type, validate_target, name_taken, get_binding, require_free, new_binding,
  add_binding, create_binding, rename, retype, move, set_target, new_target, retarget, touch,
  store_binding, update_binding, delete_binding,
}
use vaic2026_charcalavong.Actions.Bindings.{
  HasTarget, IsValidBinding, AllValid, ids, label, labels, IsTable, Edit, create, update, delete,
  desk_of, edit, validate_event_type-ok, validate_target-HasTarget, name_taken-eq, ids-put,
  AllValid-put, Distinct-put,
}

-- Each block of `update_binding` changes its own fields only.
record Renamed (bindings : List ActionBinding) (b b' : ActionBinding) : Type 0 where
  pub only_name : b' ≡ record b { name = b'.name }
  pub free : (label b' ≡ label b) ⊎ (elem (label b') (labels bindings) ≡ false)

rename-Renamed :
    (o : Option String) (bindings : List ActionBinding) (b b' : ActionBinding)
    → rename o bindings b ≡ ok b'
    → Renamed bindings b b'
rename-Renamed none bindings b b' h =
    let same : b ≡ b' = cc in
    subst (λ x. Renamed bindings b x) same (record { only_name = refl; free = inl refl })
rename-Renamed (some name) bindings b b' h = elim (Bool-cases (name == b.name)) [
  | inl t ↦
      let same : record b { name = name } ≡ b' = ground arith in
      subst (λ x. Renamed bindings b x) same
        (record { only_name = refl; free = inl (ap (λ n. (b.tenant_id, n)) (beq→≡ name b.name t)) })
  | inr f ↦ elim (Bool-cases (name_taken b.tenant_id name bindings)) [
    | inl taken ↦ ground arith
    | inr free ↦
        let same : record b { name = name } ≡ b' = ground arith in
        subst (λ x. Renamed bindings b x) same
          (record {
            only_name = refl;
            free = inr (sym (name_taken-eq b.tenant_id name bindings) ∙ free);
          })
  ]
]

abbrev Retyped : ActionBinding → ActionBinding → Type 0
Retyped b b' =
    (b' ≡ record b { event_type = b'.event_type })
    × (elem b.event_type event_types ≡ true → elem b'.event_type event_types ≡ true)

retype-Retyped : (o : Option String) (b b' : ActionBinding) → retype o b ≡ ok b' → Retyped b b'
retype-Retyped none b b' h = let same : b ≡ b' = cc in subst (Retyped b) same (refl, λ e. e)
retype-Retyped (some t) b b' h =
    let (u, known, h') = bind-eq-ok (validate_event_type t) _ h in
    let same : record b { event_type = t } ≡ b' = cc in
    subst (Retyped b) same (refl, λ e. validate_event_type-ok t known)

abbrev Retargeted : ActionBinding → ActionBinding → Type 0
Retargeted b b' =
    (b' ≡ record b {
      target_type = b'.target_type;
      workflow_id = b'.workflow_id;
      agent_id = b'.agent_id;
    })
    × (HasTarget b.target_type b.workflow_id b.agent_id
        → HasTarget b'.target_type b'.workflow_id b'.agent_id)

set_target-Retargeted :
    (type : String) (wf ag : Option String) (b b' : ActionBinding)
    → set_target type wf ag b ≡ ok b'
    → Retargeted b b'
set_target-Retargeted type wf ag b b' h =
    let (u, valid, h') = bind-eq-ok (validate_target type wf ag) _ h in
    let same : record b { target_type = type; workflow_id = wf; agent_id = ag } ≡ b' = cc in
    subst (λ x. Retargeted b x) same (refl, λ e. validate_target-HasTarget type wf ag valid)

new_target-Retargeted :
    (type : String) (wf ag : Option String) (b b' : ActionBinding)
    → new_target type wf ag b ≡ ok b'
    → Retargeted b b'
new_target-Retargeted type wf ag b b' h = elim (Bool-cases (type == "workflow")) [
  | inl t ↦ set_target-Retargeted type wf none b b' (ground arith)
  | inr f ↦ set_target-Retargeted type none ag b b' (ground arith)
]

retarget-Retargeted : (p : Patch) (b b' : ActionBinding) → retarget p b ≡ ok b' → Retargeted b b'
retarget-Retargeted p b b' h =
    let targeted =
      new_target (or_old p.target_type b.target_type) (or_same p.workflow_id b.workflow_id)
        (or_same p.agent_id b.agent_id) b in
    elim (Bool-cases (is_some p.target_type || is_some p.workflow_id || is_some p.agent_id)) [
      | inr f ↦
          let same : ok b ≡ ok b' = subst (λ c. (if c then targeted else ok b) ≡ ok b') f h in
          let same' : b ≡ b' = cc in subst (λ x. Retargeted b x) same' (refl, λ e. e)
      | inl t ↦
          new_target-Retargeted _ _ _ b b' (subst (λ c. (if c then targeted else ok b) ≡ ok b') t h)
    ]

-- The blocks together: the id and the label are settled by the first, validity by the others.
patched :
    (bindings : List ActionBinding) (d : Option String) (p : Patch) (now : ℕ)
    (b b1 b2 b3 : ActionBinding)
    → Renamed bindings b b1
    → Retyped (move d b1) b2
    → Retargeted b2 b3
    → IsValidBinding b
    → IsValidBinding (touch p now b3) × (b3.id ≡ b.id) × (label b3 ≡ label b1)
patched bindings d p now b b1 b2 b3 rn re rt old = (
  record {
    event =
        subst (λ t. elem t event_types ≡ true) (ap (λ (b : ActionBinding). b.event_type) (sym rt.0))
          (re.1 (
            subst (λ t. elem t event_types ≡ true)
              (ap (λ (b : ActionBinding). b.event_type) (sym rn.only_name)) old.event));
    target = rt.1 (
        subst (λ (b : ActionBinding). HasTarget b.target_type b.workflow_id b.agent_id) (sym re.0)
          (subst (λ (b : ActionBinding). HasTarget b.target_type b.workflow_id b.agent_id)
            (sym rn.only_name) old.target));
  },
  ap (λ (b : ActionBinding). b.id) rt.0
      ∙ ap (λ (b : ActionBinding). b.id) re.0
      ∙ ap (λ (b : ActionBinding). b.id) rn.only_name,
  ap label rt.0 ∙ ap label re.0,
)

AllValid-append :
    (bs : List ActionBinding) (b : ActionBinding)
    → AllValid bs
    → IsValidBinding b
    → AllValid (bs ++ b ∷ [])
AllValid-append [] b v h = (h, tt)
AllValid-append (x ∷ bs) b v h = (v.0, AllValid-append bs b v.1 h)

AllValid-keep :
    (p : ActionBinding → Bool) (bs : List ActionBinding) → AllValid bs → AllValid (keep p bs)
unfolding keep
AllValid-keep p [] v = tt
AllValid-keep p (b ∷ bs) v = elim (Bool-cases (p b)) [
  | inl t ↦ rw t (v.0, AllValid-keep p bs v.1)
  | inr f ↦ rw f (AllValid-keep p bs v.1)
]

AllValid-first :
    (id : String) (bs : List ActionBinding) (b : ActionBinding)
    → first_where (λ (r : ActionBinding). r.id == id) bs ≡ some b
    → AllValid bs
    → IsValidBinding b × (b.id ≡ id)
unfolding first_where
AllValid-first id [] b h v = cc
AllValid-first id (r ∷ rs) b h v = elim (Bool-cases (r.id == id)) [
  | inl t ↦
      let same : r ≡ b = ground arith in
      subst (λ x. IsValidBinding x × (x.id ≡ id)) same (v.0, beq→≡ r.id id t)
  | inr f ↦ AllValid-first id rs b (ground arith) v.1
]

get_binding-first :
    (id : String) (bs : List ActionBinding) (b : ActionBinding)
    → get_binding id bs ≡ ok b
    → first_where (λ (r : ActionBinding). r.id == id) bs ≡ some b
unfolding get_binding
get_binding-first id bs b h = ground arith

map-snoc {ℓ} :
    {A : Type ℓ} (f : ActionBinding → A) (bs : List ActionBinding) (b : ActionBinding)
    → map f (bs ++ b ∷ []) ≡ map f bs ++ f b ∷ []
map-snoc f [] b = refl
map-snoc f (x ∷ bs) b = ap (λ l. f x ∷ l) (map-snoc f bs b)

elem-one : (a x : String) → (x == a) ≡ false → elem a (x ∷ []) ≡ false
unfolding elem
elem-one a x f = rw f refl

Distinct-snoc {ℓ} :
    {A : Type ℓ} ⦃e : Equality A⦄ (xs : List A) (a : A)
    → Distinct xs
    → elem a xs ≡ false
    → Distinct (xs ++ a ∷ [])
unfolding elem
Distinct-snoc xs a d out =
    Distinct-append xs (a ∷ []) d (refl, tt)
      (λ y m. elim (Bool-cases (a == y)) [
        | inl t ↦ subst (λ x. elem x xs ≡ false) (beq→≡ a y t) out
        | inr f ↦ absurd (true≢false (sym m ∙ rw f refl))
      ])

desk-eq :
    (r : Result AppError (Desk × ActionBinding)) (s : Desk)
    → desk_of r ≡ ok s
    → (p : Desk × ActionBinding) × (r ≡ ok p) × (p.0 ≡ s)
desk-eq (raise e) s h = cc
desk-eq (ok p) s h = (p, refl, cc)

module _ (new_id : ℕ → String) (no_clash : (i j : ℕ) → new_id i ≡ new_id j → i ≡ j) (s : Desk)
    (table : IsTable new_id s) where
  create-IsTable :
      (principal : Principal) (new : NewBinding) (p : Desk × ActionBinding)
      → create_binding new_id principal new s ≡ ok p
      → IsTable new_id p.0
  unfolding create_binding
  create-IsTable principal new p h =
      let (u, event, h1) = bind-eq-ok (validate_event_type new.event_type) _ h in
      let (u', target, h2) =
        bind-eq-ok (validate_target new.target_type new.workflow_id new.agent_id) _ h1 in
      let (u'', free, h3) =
        bind-eq-ok (require_free (name_taken principal.tenant_id new.name s.bindings) new.name) _
          h2 in
      let b = new_binding (new_id s.catalog.fresh) s.catalog.now principal new in
      let same : add_binding b s ≡ p = cc in
      let free' : elem (label b) (labels s.bindings) ≡ false =
        sym (name_taken-eq principal.tenant_id new.name s.bindings) ∙ ground arith in
      subst (λ (p : Desk × ActionBinding). IsTable new_id p.0) same
        (record {
          valid = AllValid-append s.bindings b table.valid (record {
            event = validate_event_type-ok new.event_type event;
            target = validate_target-HasTarget new.target_type new.workflow_id new.agent_id target;
          });
          unique_labels =
              rw (map-snoc label s.bindings b)
                (Distinct-snoc (labels s.bindings) (label b) table.unique_labels free');
          unique_ids = rw (map-snoc (λ (b : ActionBinding). b.id) s.bindings b) (
              Distinct-snoc (ids s.bindings) b.id table.unique_ids
                (table.unused s.catalog.fresh (omega arith)));
          unused = λ i le. rw (map-snoc (λ (b : ActionBinding). b.id) s.bindings b) (
              elem-append (new_id i) (ids s.bindings) (b.id ∷ [])
              ∙ rw (table.unused i (omega arith)) (
                  elem-one (new_id i) b.id
                    (≢→beq b.id (new_id i) (λ e. omega (arith, no_clash s.catalog.fresh i e)))));
        })

  update-IsTable :
      (id : String) (p : Patch) (out : Desk × ActionBinding)
      → update_binding id p s ≡ ok out
      → IsTable new_id out.0
  unfolding update_binding
  update-IsTable id p out h =
      let (b, at_id, h1) = bind-eq-ok (get_binding id s.bindings) _ h in
      let (b1, renamed, h2) = bind-eq-ok (rename p.name s.bindings b) _ h1 in
      let (b2, retyped, h3) = bind-eq-ok (retype p.event_type (move p.database_id b1)) _ h2 in
      let (b3, targeted, h4) = bind-eq-ok (retarget p b2) _ h3 in
      let first = get_binding-first id s.bindings b at_id in
      let (old, b_id) = AllValid-first id s.bindings b first table.valid in
      let rn = rename-Renamed p.name s.bindings b b1 renamed in
      let (valid, id3, label3) =
        patched s.bindings p.database_id p s.catalog.now b b1 b2 b3 rn
          (retype-Retyped p.event_type (move p.database_id b1) b2 retyped)
          (retarget-Retargeted p b2 b3 targeted) old in
      let b' = touch p s.catalog.now b3 in
      let same : store_binding s b' ≡ out = cc in
      let first' : first_where (λ (r : ActionBinding). r.id == b'.id) s.bindings ≡ some b =
        subst (λ i. first_where (λ (r : ActionBinding). r.id == i) s.bindings ≡ some b)
          (sym (id3 ∙ b_id)) first in
      subst (λ (q : Desk × ActionBinding). IsTable new_id q.0) same
        (record {
          valid = AllValid-put b' s.bindings valid table.valid;
          unique_labels = Distinct-put b' b s.bindings first' table.unique_ids table.unique_labels (
              subst (λ l. (l ≡ label b) ⊎ (elem l (labels s.bindings) ≡ false)) (sym label3)
                rn.free);
          unique_ids = rw (ids-put b' s.bindings) table.unique_ids;
          unused = λ i le. rw (ids-put b' s.bindings) (table.unused i le);
        })

  delete-IsTable : (id : String) (s' : Desk) → delete_binding id s ≡ ok s' → IsTable new_id s'
  unfolding delete_binding
  delete-IsTable id s' h =
      let (b, at_id, h1) = bind-eq-ok (get_binding id s.bindings) _ h in
      let p : ActionBinding → Bool = λ r. not (r.id == b.id) in
      let same : record s { bindings = keep p s.bindings } ≡ s' = cc in
      subst (IsTable new_id) same (record {
        valid = AllValid-keep p s.bindings table.valid;
        unique_labels = Distinct-map-keep label p s.bindings table.unique_labels;
        unique_ids = Distinct-map-keep (λ (b : ActionBinding). b.id) p s.bindings table.unique_ids;
        unused = λ i le.
            elem-map-keep (λ (b : ActionBinding). b.id) p (new_id i) s.bindings (table.unused i le);
      })

  -- Conditions: no two of the generator's ids agree, and the table is as it should be: every
  -- binding has a known event and exactly the target that its type names, names are unique for a
  -- tenant, ids are unique, and ids that are yet to be given out are not used. Then the same holds
  -- after every creation, update or deletion that succeeds.
  pub edit-IsTable : (e : Edit) (s' : Desk) → edit new_id e s ≡ ok s' → IsTable new_id s'
  edit-IsTable (create principal new) s' h =
      let (p, made, same) = desk-eq (create_binding new_id principal new s) s' h in
      subst (IsTable new_id) same (create-IsTable principal new p made)
  edit-IsTable (update id p) s' h =
      let (q, made, same) = desk-eq (update_binding id p s) s' h in
      subst (IsTable new_id) same (update-IsTable id p q made)
  edit-IsTable (delete id) s' h = delete-IsTable id s' h
