-- ===== src/Worker/Requests.antt =====
-- The rollback requests of a run name nodes of its graph, as every operation keeps it.
use vaic2026_charcalavong.Prelude.{
  String, ◌≡◌, subst, inl, inr, Bool, true, some, List, [], ◌∷◌, ◌++◌, arith, ◌==◌, string_eq,
  pair_eq, ok, elem, Bool-cases,
}
use vaic2026_charcalavong.Store.{Db, RunRollbackRequest, update_where, first_where}
use vaic2026_charcalavong.Review.Rollback.{get_request}

abbrev pub IsKnown : List String → RunRollbackRequest → Type 0
IsKnown keys r = (elem r.target_node_key keys ≡ true) × (elem r.requester_node_key keys ≡ true)

abbrev pub AllKnown : List String → List RunRollbackRequest → Type 0
AllKnown keys [] = Unit {0}
AllKnown keys (r ∷ rs) = IsKnown keys r × AllKnown keys rs

pub AllKnown-append :
    (keys : List String) (rs : List RunRollbackRequest) (r : RunRollbackRequest)
    → AllKnown keys rs
    → IsKnown keys r
    → AllKnown keys (rs ++ r ∷ [])
AllKnown-append keys [] r h k = (k, tt)
AllKnown-append keys (q ∷ rs) r h k = (h.0, AllKnown-append keys rs r h.1 k)

pub AllKnown-update :
    (keys : List String) (hit : RunRollbackRequest → Bool)
    (change : RunRollbackRequest → RunRollbackRequest) (rs : List RunRollbackRequest)
    → ((r : RunRollbackRequest) → IsKnown keys r → IsKnown keys (change r))
    → AllKnown keys rs
    → AllKnown keys (update_where hit change rs)
unfolding update_where
AllKnown-update keys hit change [] keep h = tt
AllKnown-update keys hit change (r ∷ rs) keep h = (
  elim (Bool-cases (hit r)) [ inl t ↦ rw t (keep r h.0) | inr f ↦ rw f h.0 ],
  AllKnown-update keys hit change rs keep h.1,
)

pub get_request-IsKnown :
    (keys : List String) (rollback_id : String) (db : Db) (req : RunRollbackRequest)
    → AllKnown keys db.rollbacks
    → get_request rollback_id db ≡ ok req
    → IsKnown keys req
unfolding get_request
get_request-IsKnown keys rollback_id db req h e =
    first keys rollback_id db.rollbacks h (ground arith)
  where
    first :
        (keys : List String) (i : String) (rs : List RunRollbackRequest)
        → AllKnown keys rs
        → first_where (λ (r : RunRollbackRequest). r.id == i) rs ≡ some req
        → IsKnown keys req
    first keys i [] h e = cc
    first keys i (r ∷ rs) h e = elim (Bool-cases (r.id == i)) [
      | inl t ↦ subst (IsKnown keys) {x = r} {y = req} (ground arith) h.0
      | inr f ↦ first keys i rs h.1 (ground arith)
    ]
