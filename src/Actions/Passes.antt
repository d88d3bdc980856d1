-- ===== src/Actions/Passes.antt =====
-- A pass of the dispatch settles every pending event and leaves the others.
use vaic2026_charcalavong.Prelude.{
  ℕ, String, ◌≡◌, refl, sym, ap, ◌∙◌, subst, inl, inr, Bool-cases, Bool, true, false, true≢false,
  ◌&&◌, ◌||◌, some, List, [], ◌∷◌, arith, ◌==◌, string_eq, elem,
}
use vaic2026_charcalavong.Actions.{is_event_pending, ActionBinding, ActionEvent, Desk}
use vaic2026_charcalavong.Actions.Dispatch.{
  Pass, after, Progress, find_event, dispatch_event, dispatch_events, pending_ids, no_progress,
  dispatch_pending_events,
}
use vaic2026_charcalavong.Actions.Rows.{found-listed}
use vaic2026_charcalavong.Actions.Growth.{Grew-here, Grew-then, AllRunnable}
use vaic2026_charcalavong.Actions.Rounds.{verdict, Settled, Passed, dispatch_if_pending-Passed}

is_pending-verdict :
    (bindings : List ActionBinding) (ev : ActionEvent)
    → is_event_pending (verdict ev bindings) ≡ false
is_pending-verdict bindings ev = ground arith

either_false : (a b c : Bool) → (a && c) ≡ false → (b && c) ≡ false → ((a || b) && c) ≡ false
either_false a b c h h' = ground arith

Settled-then :
    (bindings : List ActionBinding) (a b : Bool) (ev ev' ev'' : ActionEvent)
    → Settled bindings a ev ev'
    → Settled bindings b ev' ev''
    → Settled bindings (a || b) ev ev''
Settled-then bindings a b ev ev' ev'' (inl (p, e)) (inl (q, e')) =
    let q' = subst (λ (x : ActionEvent). (b && is_event_pending x.status) ≡ false) e q in
    inl (either_false a b (is_event_pending ev.status) p q', e' ∙ e)
Settled-then bindings a b ev ev' ev'' (inl (p, e)) (inr (q, e')) = inr (
  subst (λ (x : ActionEvent). is_event_pending x.status ≡ true) e q,
  e' ∙ ap (λ x. verdict x bindings) e,
)
Settled-then bindings a b ev ev' ev'' (inr (p, e)) (inl (q, e')) =
    inr (p, ap (λ (x : ActionEvent). x.status) e' ∙ e)
Settled-then bindings a b ev ev' ev'' (inr (p, e)) (inr (q, e')) =
    absurd (true≢false (sym q ∙ ap is_event_pending e ∙ is_pending-verdict bindings ev))

Passed-then :
    (listed listed' : String → Bool) (acc : Progress) (s : Desk) (out : Pass Progress)
    (f : Progress → Desk → Pass Progress)
    → Passed listed acc s out
    → ((acc' : Progress) (s' : Desk)
        → s'.bindings ≡ s.bindings
        → s'.catalog.workflows ≡ s.catalog.workflows
        → Passed listed' acc' s' (f acc' s'))
    → Passed (λ k. listed k || listed' k) acc s (after out f)
Passed-then listed listed' acc s out f g h =
    let next = h g.acc' g.s' g.grew.same_bindings g.grew.same_workflows in
    record {
      acc' = next.acc';
      s' = next.s';
      returns = ap (λ o. after o f) g.returns ∙ next.returns;
      grew = Grew-then acc g.acc' next.acc' s g.s' next.s' g.grew next.grew;
      settled = λ k ev at_k.
          let (ev', found, one) = g.settled k ev at_k in
          let (ev'', found', two) = next.settled k ev' found in
          (
            ev'',
            found',
            Settled-then s.bindings (listed k) (listed' k) ev ev' ev'' one
                (subst (λ bs. Settled bs (listed' k) ev' ev'') g.grew.same_bindings two),
          );
    }

module _ (new_id : ℕ → String) where
  dispatch_events-Passed :
      (ids : List String) (acc : Progress) (s : Desk)
      → AllRunnable s.catalog.workflows s.bindings
      → Passed (λ k. elem k ids) acc s (dispatch_events new_id ids acc s)
  unfolding dispatch_events dispatch_event elem
  dispatch_events-Passed [] acc s run = record {
    acc' = acc;
    s' = s;
    returns = refl;
    grew = Grew-here acc s;
    settled = λ k ev h. (ev, h, inl (refl, refl));
  }
  dispatch_events-Passed (id ∷ ids) acc s run =
      Passed-then (λ k. id == k) (λ k. elem k ids) acc s _ (dispatch_events new_id ids)
        (dispatch_if_pending-Passed new_id id (find_event id s.events) acc s refl run)
        (λ acc' s' same_b same_w. dispatch_events-Passed ids acc' s' (
          subst (λ bs. AllRunnable s'.catalog.workflows bs) (sym same_b)
            (subst (λ ws. AllRunnable ws s.bindings) (sym same_w) run)))

  pub dispatch_pending_events-Passed :
      (s : Desk)
      → AllRunnable s.catalog.workflows s.bindings
      → Passed (λ k. true) no_progress s (dispatch_pending_events new_id s)
  unfolding dispatch_pending_events pending_ids
  dispatch_pending_events-Passed s run =
      let g = dispatch_events-Passed (pending_ids s.events) no_progress s run in
      record {
        acc' = g.acc';
        s' = g.s';
        returns = g.returns;
        grew = g.grew;
        settled = λ k ev h.
            let (ev', found, one) = g.settled k ev h in (ev', found, all_listed k ev ev' h one);
      }
    where
      all_listed :
          (k : String) (ev ev' : ActionEvent)
          → find_event k s.events ≡ some ev
          → Settled s.bindings (elem k (pending_ids s.events)) ev ev'
          → Settled s.bindings true ev ev'
      all_listed k ev ev' h (inr r) = inr r
      all_listed k ev ev' h (inl (p, e)) = elim (Bool-cases (is_event_pending ev.status)) [
        | inr f ↦ inl (f, e)
        | inl t ↦ absurd (
            true≢false (
              sym t
              ∙ subst (λ c. (c && is_event_pending ev.status) ≡ false)
                  (found-listed (λ (ev : ActionEvent). is_event_pending ev.status) k s.events ev h
                    t)
                  p))
      ]
