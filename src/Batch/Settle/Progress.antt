-- ===== src/Batch/Settle/Progress.antt =====
-- The checkpoint of a round (`run_batch` of execution/routes.py).
use sanka.Prelude.{
  String, ◌≡◌, refl, Bool, true, false, Option, some, List, [], ◌∷◌, if◌then◌else◌, ◌==◌, any,
  arith,
}
use sanka.Model.{failed, eq_status}
use sanka.Batch.{RecordState, status_or_failed}
use sanka.Batch.Settle.{RouteTally, tally_failed, tally_settled, tally, tally_states}

-- A record that counts as failed.
abbrev pub counts_as_failed : RecordState → Bool
counts_as_failed state = status_or_failed state.status == failed

-- The last record before the first failed one.
unfoldable pub last_settled : Option String → List RecordState → Option String
last_settled cursor [] = cursor
last_settled cursor (state ∷ states) =
    let rest = last_settled (some state.source_record_id) states in
    if counts_as_failed state then cursor else rest

stopped :
    (states : List RecordState) (t : RouteTally)
    → t.batch_failed ≡ true
    → ((tally_states states t).batch_failed ≡ true)
      × ((tally_states states t).last_terminal_cursor ≡ t.last_terminal_cursor)
unfolding tally_states tally tally_failed tally_settled
stopped [] t h = (h, refl)
stopped (state ∷ states) t h = ground (arith, stopped states (tally state t), h)

-- A round that starts with no failure ends with one exactly if some record failed, and its cursor is the
-- last record before the first that failed: behind it, no record moves the checkpoint.
pub tally_states-last_settled :
    (states : List RecordState) (t : RouteTally)
    → t.batch_failed ≡ false
    → ((tally_states states t).batch_failed ≡ any counts_as_failed states)
      × ((tally_states states t).last_terminal_cursor ≡ last_settled t.last_terminal_cursor states)
unfolding tally_states tally tally_failed tally_settled any last_settled
tally_states-last_settled [] t h = (h, refl)
tally_states-last_settled (state ∷ states) t h =
    ground
      (arith, stopped states (tally state t), tally_states-last_settled states (tally state t), h)
