-- ===== src/Actions/Rows.antt =====
-- The rows of the events by their ids.
use vaic2026_charcalavong.Prelude.{
  String, ◌≡◌, refl, ap, subst, inl, inr, Bool-cases, Bool, true, false, some, List, [], ◌∷◌, map,
  arith, if◌then◌else◌, ◌==◌, string_eq, beq→≡, keep, elem, Distinct, elem-map-keep, true≢false,
  sym, ◌∙◌,
}
use mathlib.Core.Option
use vaic2026_charcalavong.Store.{update_where, first_where}
use vaic2026_charcalavong.Actions.{ActionEvent}
use vaic2026_charcalavong.Actions.Dispatch.{find_event}

abbrev pub ids_of : List ActionEvent → List String
ids_of events = map (λ (ev : ActionEvent). ev.id) events

pub find-id :
    (k : String) (events : List ActionEvent) (ev : ActionEvent)
    → find_event k events ≡ some ev
    → ev.id ≡ k
unfolding find_event first_where
find-id k [] ev h = cc
find-id k (e ∷ events) ev h = ground (arith, find-id k events ev, string_eq.same_iff e.id k)

pub find_event-update :
    (k id : String) (change : ActionEvent → ActionEvent) (events : List ActionEvent)
    → ((ev : ActionEvent) → (change ev).id ≡ ev.id)
    → find_event k (update_where (λ (ev : ActionEvent). ev.id == id) change events)
      ≡ Option.map (λ ev. if ev.id == id then change ev else ev) (find_event k events)
unfolding find_event first_where update_where
find_event-update k id change [] same = refl
find_event-update k id change (e ∷ events) same =
    ground (arith, find_event-update k id change events same, same e)

-- A row that is found is listed under any test that it passes, and conversely if ids are unique.
pub found-listed :
    (p : ActionEvent → Bool) (k : String) (events : List ActionEvent) (ev : ActionEvent)
    → find_event k events ≡ some ev
    → p ev ≡ true
    → elem k (ids_of (keep p events)) ≡ true
unfolding find_event elem keep
found-listed p k [] ev h t = cc
found-listed p k (e ∷ events) ev h t = elim (Bool-cases (e.id == k)) [
  | inl at_k ↦ let same : e ≡ ev = ground arith in rw (ap p same ∙ t) (rw at_k refl)
  | inr f ↦
      let rest = found-listed p k events ev (ground arith) t in
      elim (Bool-cases (p e)) [ inl y ↦ rw y (rw f rest) | inr n ↦ rw n rest ]
]

pub listed-found :
    (p : ActionEvent → Bool) (k : String) (events : List ActionEvent)
    → Distinct (ids_of events)
    → elem k (ids_of (keep p events)) ≡ true
    → (ev : ActionEvent) × (find_event k events ≡ some ev) × (p ev ≡ true)
unfolding find_event elem keep
listed-found p k [] d m = cc
listed-found p k (e ∷ events) d m = elim (Bool-cases (e.id == k)) [
  | inl at_k ↦ elim (Bool-cases (p e)) [
    | inl y ↦ (e, rw at_k refl, y)
    | inr n ↦
        let out =
          subst (λ i. elem i (ids_of (keep p events)) ≡ false) (beq→≡ e.id k at_k)
            (elem-map-keep (λ (ev : ActionEvent). ev.id) p e.id events d.0) in
        absurd (
          true≢false (
            sym (
              subst (λ c. elem k (ids_of (if c then e ∷ keep p events else keep p events)) ≡ true) n
                m)
            ∙ out))
  ]
  | inr f ↦ let (ev, found, t) = listed-found p k events d.1 (ground arith) in (ev, rw f found, t)
]
