-- ===== src/Actions/Rounds.antt =====
-- One round of the dispatch settles its event, if it is pending, and leaves the others.
use vaic2026_charcalavong.Prelude.{
  ℕ, String, ◌≡◌, refl, sym, ap, ◌∙◌, subst, ◌⊎◌, inl, inr, Bool-cases, Bool, true, false, ◌&&◌,
  Option, none, some, List, [], ◌∷◌, arith, ◌==◌, if◌then◌else◌, string_eq, beq→≡, beq_refl, beq-ne,
  ≢→beq, ◌≢◌, ok, keep, any,
}
use mathlib.Core.Option
use vaic2026_charcalavong.Catalog.{Workflow}
use vaic2026_charcalavong.Actions.{
  EventStatus, event_dispatched, event_skipped, is_event_pending, ActionBinding, ActionEvent,
  EventResult, Desk,
}
use vaic2026_charcalavong.Actions.Dispatch.{
  Pass, Progress, matches, finished, finish_event, dispatch_to, dispatch_from, dispatch_row,
  find_event, dispatch_if_pending, skipped_for, dispatched_to,
}
use vaic2026_charcalavong.Actions.Rows.{find-id, find_event-update}
use vaic2026_charcalavong.Actions.Growth.{Grew, Grew-here, AllRunnable, dispatch_bindings-Grows}

-- What becomes of a pending event: dispatched, if some active binding is for it.
abbrev pub match_in : ActionEvent → Option String → List ActionBinding → Bool
match_in ev none bindings = false
match_in ev (some database_id) bindings = any (matches ev database_id) bindings

abbrev pub has_match : ActionEvent → List ActionBinding → Bool
has_match ev bindings = match_in ev ev.database_id bindings

abbrev pub verdict : ActionEvent → List ActionBinding → EventStatus
verdict ev bindings = if has_match ev bindings then event_dispatched else event_skipped

-- A pending event of the list is settled, any other is as it was.
abbrev pub Settled : List ActionBinding → Bool → ActionEvent → ActionEvent → Type 0
Settled bindings listed ev ev' =
    ((listed && is_event_pending ev.status ≡ false) × (ev' ≡ ev))
    ⊎ ((is_event_pending ev.status ≡ true) × (ev'.status ≡ verdict ev bindings))

abbrev pub AllSettled : (String → Bool) → Desk → Desk → Type 0
AllSettled listed s s' =
    (k : String) (ev : ActionEvent)
    → find_event k s.events ≡ some ev
    → (ev' : ActionEvent) × (find_event k s'.events ≡ some ev')
      × Settled s.bindings (listed k) ev ev'

pub record Passed (listed : String → Bool) (acc : Progress) (s : Desk) (out : Pass Progress)
    : Type 0 where
  pub acc' : Progress
  pub s' : Desk
  pub returns : out ≡ (ok acc', s')
  pub grew : Grew acc s acc' s'
  pub settled : AllSettled listed s s'

find-finish :
    (k id : String) (status : EventStatus) (result : EventResult) (run_id : Option String)
    (s : Desk)
    → find_event k (finish_event id status result run_id s).events
      ≡ Option.map
          (λ ev. if ev.id == id then finished status result run_id s.catalog.now ev else ev)
          (find_event k s.events)
unfolding finish_event
find-finish k id status result run_id s =
    find_event-update k id (finished status result run_id s.catalog.now) s.events (λ ev. refl)

-- What a round leaves before the event is finished
record Finished (ev : ActionEvent) (acc : Progress) (s : Desk) (out : Pass Progress) : Type 0 where
  pub acc' : Progress
  pub s' : Desk
  pub status : EventStatus
  pub result : EventResult
  pub run_id : Option String
  pub returns : out ≡ (ok acc', finish_event ev.id status result run_id s')
  pub grew : Grew acc s acc' s'
  pub same_events : s'.events ≡ s.events
  pub decided : status ≡ verdict ev s.bindings

keep-none :
    (p : ActionBinding → Bool) (bindings : List ActionBinding)
    → keep p bindings ≡ []
    → any p bindings ≡ false
unfolding keep any
keep-none p [] h = refl
keep-none p (b ∷ bindings) h = ground (arith, keep-none p bindings)

keep-some :
    (p : ActionBinding → Bool) (bindings : List ActionBinding) (b : ActionBinding)
    (bs : List ActionBinding)
    → keep p bindings ≡ b ∷ bs
    → any p bindings ≡ true
unfolding keep any
keep-some p [] b bs h = cc
keep-some p (x ∷ bindings) b bs h = ground (arith, keep-some p bindings b bs)

AllRunnable-keep :
    (workflows : List Workflow) (p : ActionBinding → Bool) (bindings : List ActionBinding)
    → AllRunnable workflows bindings
    → AllRunnable workflows (keep p bindings)
unfolding keep
AllRunnable-keep workflows p [] r = tt
AllRunnable-keep workflows p (b ∷ bindings) r = elim (Bool-cases (p b)) [
  | inl t ↦ rw t (r.0, AllRunnable-keep workflows p bindings r.1)
  | inr f ↦ rw f (AllRunnable-keep workflows p bindings r.1)
]

Grew-finish :
    (acc : Progress) (s : Desk) (acc' : Progress) (s' : Desk) (id : String) (status : EventStatus)
    (result : EventResult) (run_id : Option String)
    → Grew acc s acc' s'
    → Grew acc s acc' (finish_event id status result run_id s')
unfolding finish_event
Grew-finish acc s acc' s' id status result run_id g = record {
  same_bindings = g.same_bindings;
  same_workflows = g.same_workflows;
  same_jobs = g.same_jobs;
  new_runs = g.new_runs;
  runs = g.runs;
  reported = g.reported;
}

module _ (new_id : ℕ → String) where
  dispatch_to-Finished :
      (ev : ActionEvent) (bindings : List ActionBinding) (acc : Progress) (s : Desk)
      → AllRunnable s.catalog.workflows bindings
      → ((bindings ≡ []) → has_match ev s.bindings ≡ false)
      → ((b : ActionBinding) (bs : List ActionBinding)
          → bindings ≡ b ∷ bs
          → has_match ev s.bindings ≡ true)
      → Finished ev acc s (dispatch_to new_id ev bindings acc s)
  unfolding dispatch_to
  dispatch_to-Finished ev [] acc s run nobody somebody = record {
    acc' = acc;
    s' = s;
    status = event_skipped;
    result = skipped_for "no matching active binding";
    run_id = none;
    returns = refl;
    grew = Grew-here acc s;
    same_events = refl;
    decided = rw (nobody refl) refl;
  }
  dispatch_to-Finished ev (b ∷ bs) acc s run nobody somebody =
      let g =
        dispatch_bindings-Grows new_id ev (b ∷ bs)
          (record acc { dispatched = []; first_run_id = none }) s run in
      record {
        acc' = g.acc';
        s' = g.s';
        status = event_dispatched;
        result = dispatched_to g.acc'.dispatched;
        run_id = g.acc'.first_run_id;
        returns = rw g.returns refl;
        grew = record {
          same_bindings = g.grew.same_bindings;
          same_workflows = g.grew.same_workflows;
          same_jobs = g.grew.same_jobs;
          new_runs = g.grew.new_runs;
          runs = g.grew.runs;
          reported = g.grew.reported;
        };
        same_events = g.same_events;
        decided = rw (somebody b bs refl) refl;
      }

  dispatch_from-Finished :
      (ev : ActionEvent) (o : Option String) (acc : Progress) (s : Desk)
      → ev.database_id ≡ o
      → AllRunnable s.catalog.workflows s.bindings
      → Finished ev acc s (dispatch_from new_id ev o acc s)
  unfolding dispatch_from
  dispatch_from-Finished ev none acc s e run = record {
    acc' = acc;
    s' = s;
    status = event_skipped;
    result = skipped_for "app has no database";
    run_id = none;
    returns = refl;
    grew = Grew-here acc s;
    same_events = refl;
    decided =
        ap (λ o. if match_in ev o s.bindings then event_dispatched else event_skipped) (sym e);
  }
  dispatch_from-Finished ev (some d) acc s e run =
      dispatch_to-Finished ev (keep (matches ev d) s.bindings) acc s
        (AllRunnable-keep s.catalog.workflows (matches ev d) s.bindings run)
        (λ h. ap (λ o. match_in ev o s.bindings) e ∙ keep-none (matches ev d) s.bindings h)
        (λ b bs h.
          ap (λ o. match_in ev o s.bindings) e ∙ keep-some (matches ev d) s.bindings b bs h)

  dispatch_row-Finished :
      (ev : ActionEvent) (acc : Progress) (s : Desk)
      → AllRunnable s.catalog.workflows s.bindings
      → Finished ev acc s (dispatch_row new_id ev acc s)
  unfolding dispatch_row
  dispatch_row-Finished ev acc s run = dispatch_from-Finished ev ev.database_id acc s refl run

  unlisted :
      (id k : String) (events : List ActionEvent) (ev : ActionEvent)
      → find_event k events ≡ some ev
      → ((ev' : ActionEvent)
          → find_event id events ≡ some ev'
          → is_event_pending ev'.status ≡ false)
      → ((id == k) && is_event_pending ev.status) ≡ false
  unlisted id k events ev h idle = elim (Bool-cases (id == k)) [
    | inl t ↦ rw t (idle ev (subst (λ i. find_event i events ≡ some ev) (sym (beq→≡ id k t)) h))
    | inr f ↦ rw f refl
  ]

  -- A round that does nothing
  idle-Passed :
      (id : String) (acc : Progress) (s : Desk)
      → ((ev : ActionEvent) → find_event id s.events ≡ some ev → is_event_pending ev.status ≡ false)
      → Passed (λ k. id == k) acc s (ok acc, s)
  idle-Passed id acc s idle = record {
    acc' = acc;
    s' = s;
    returns = refl;
    grew = Grew-here acc s;
    settled = λ k ev h. (ev, h, inl (unlisted id k s.events ev h idle, refl));
  }

  finished-Settled :
      (id : String) (ev0 : ActionEvent) (acc : Progress) (s : Desk) (out : Pass Progress)
      (fin : Finished ev0 acc s out)
      → find_event id s.events ≡ some ev0
      → is_event_pending ev0.status ≡ true
      → AllSettled (λ k. id == k) s (finish_event ev0.id fin.status fin.result fin.run_id fin.s')
  finished-Settled id ev0 acc s out fin e t k ev h =
      let change = finished fin.status fin.result fin.run_id fin.s'.catalog.now in
      let found =
        find-finish k ev0.id fin.status fin.result fin.run_id fin.s'
        ∙ ap (λ es. Option.map (λ ev. if ev.id == ev0.id then change ev else ev) (find_event k es))
            fin.same_events
        ∙ ap (Option.map (λ ev. if ev.id == ev0.id then change ev else ev)) h in
      let same_test : (ev.id == ev0.id) ≡ (k == id) =
        ap (λ i. i == ev0.id) (find-id k s.events ev h)
        ∙ ap (λ i. k == i) (find-id id s.events ev0 e) in
      elim (Bool-cases (id == k)) [
        | inl u ↦
            let same : some ev0 ≡ some ev =
              sym e ∙ subst (λ i. find_event i s.events ≡ some ev) (sym (beq→≡ id k u)) h in
            let same' : ev0 ≡ ev = cc in
            let test : (ev.id == ev0.id) ≡ true =
              same_test ∙ subst (λ i. (k == i) ≡ true) (sym (beq→≡ id k u)) (beq_refl k) in
            (
              change ev,
              found ∙ ap (λ c. some (if c then change ev else ev)) test,
              inr (
                subst (λ (x : ActionEvent). is_event_pending x.status ≡ true) same' t,
                fin.decided ∙ ap (λ x. verdict x s.bindings) same',
              ),
            )
        | inr f ↦
            let test : (ev.id == ev0.id) ≡ false =
              same_test ∙ ≢→beq k id (λ p. beq-ne id k f (sym p)) in
            (ev, found ∙ ap (λ c. some (if c then change ev else ev)) test, inl (rw f refl, refl))
      ]

  pub dispatch_if_pending-Passed :
      (id : String) (o : Option ActionEvent) (acc : Progress) (s : Desk)
      → find_event id s.events ≡ o
      → AllRunnable s.catalog.workflows s.bindings
      → Passed (λ k. id == k) acc s (dispatch_if_pending new_id o acc s)
  unfolding dispatch_if_pending
  dispatch_if_pending-Passed id none acc s e run =
      idle-Passed id acc s (λ ev h. absurd (none≢some ev (sym e ∙ h)))
    where
      none≢some : (ev : ActionEvent) → none ≢ some ev
      none≢some ev p = cc
  dispatch_if_pending-Passed id (some ev0) acc s e run =
      elim (Bool-cases (is_event_pending ev0.status)) [
        | inr f ↦ rw f (
            idle-Passed id acc s (λ ev h.
              let same : some ev0 ≡ some ev = sym e ∙ h in
              let same' : ev0 ≡ ev = cc in
              subst (λ (x : ActionEvent). is_event_pending x.status ≡ false) same' f))
        | inl t ↦
            let fin = dispatch_row-Finished ev0 acc s run in
            rw t (record {
              acc' = fin.acc';
              s' = finish_event ev0.id fin.status fin.result fin.run_id fin.s';
              returns = fin.returns;
              grew =
                  Grew-finish acc s fin.acc' fin.s' ev0.id fin.status fin.result fin.run_id
                    fin.grew;
              settled = finished-Settled id ev0 acc s _ fin e t;
            })
      ]
