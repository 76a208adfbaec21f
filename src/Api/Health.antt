-- ===== src/Api/Health.antt =====
-- internal/api/health.go: GET /health and GET /ready. The checks run side by side in the source; what
-- they returned is a list, in their order.
use near_real_time_hybrid_se.Common.{
  Bool, true, false, List, [], ◌∷◌, Option, none, some, if◌then◌else◌,
}
use near_real_time_hybrid_se.Common.Bytes.{codes}
use near_real_time_hybrid_se.Errors.{Err}
use near_real_time_hybrid_se.Rrf.{Scores}
use near_real_time_hybrid_se.Api.{Handled}
use near_real_time_hybrid_se.Api.Response.{Marshal, status_body, write_json, answer}

-- The loop of Check over the errors.
unfoldable pub all_passed : Bool → List (Option Err) → Bool
all_passed ready [] = ready
all_passed ready (none ∷ es) = all_passed ready es
all_passed ready (some e ∷ es) = all_passed false es

-- Check, with what the observer is told, if there is one.
unfoldable pub check : Bool → List (Option Err) → Bool × List Bool
unfolding all_passed
check observed errs =
    let ready = all_passed true errs in (ready, (if observed then ready ∷ [] else []))

module _ (f : Scores) (m : Marshal f) where
  unfoldable pub health : Handled
  unfolding write_json
  health = answer f m (write_json f m 200 (status_body (codes "ok")))

  unfoldable pub ready : List (Option Err) → Handled
  unfolding check write_json
  ready errs = answer f m (
      if (check false errs).0
      then write_json f m 200 (status_body (codes "ready"))
      else write_json f m 503 (status_body (codes "not_ready")))
