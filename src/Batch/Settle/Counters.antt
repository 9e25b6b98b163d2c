-- ===== src/Batch/Settle/Counters.antt =====
-- The counters of a route and its set of failed ids (`run_batch` of execution/routes.py).
use sanka.Prelude.{
  ℕ, String, ◌≡◌, refl, ◌+◌, ◌-◌, Bool, false, ◌&&◌, ◌||◌, not, List, [], ◌∷◌, ◌++◌, if◌then◌else◌,
  ◌==◌, eq_string, eq_option, filter, contains, length, arith, contains-append, contains-filter,
  length-append, ◌≢◌, Bool-cases, inl, inr, ap, ◌∙◌,
}
use sanka.Prelude.Dict.{Dict, set, get_or, get-set}
use sanka.Model.{WriteStatus, failed, eq_status, status_eq_iff}
use sanka.Batch.{RecordState, status_or_failed}
use sanka.Batch.Settle.{
  RouteTally, add_id, discard_id, count_new, tally_failed, tally_settled, tally, tally_states,
}

-- Each id once.
abbrev pub IsUnique : List String → Type 0
IsUnique [] = Unit
IsUnique (id ∷ ids) = (contains id ids ≡ false) × IsUnique ids

-- The counter of failed records is the number of the failed ids.
abbrev pub CountsFailed : RouteTally → Type 0
CountsFailed t = (get_or failed 0 t.counts ≡ length t.failed_ids) × IsUnique t.failed_ids

contains_append_one :
    (a b : String) (ids : List String) → contains a (ids ++ b ∷ []) ≡ (contains a ids || (b == a))
unfolding contains
contains_append_one a b ids = ground (arith, contains-append a ids (b ∷ []))

append-IsUnique :
    (id : String) (ids : List String)
    → contains id ids ≡ false
    → IsUnique ids
    → IsUnique (ids ++ id ∷ [])
unfolding contains
append-IsUnique id [] h s = (refl, tt)
append-IsUnique id (x ∷ xs) h s = ground (
  arith,
  append-IsUnique id xs,
  contains_append_one x id xs,
  eq_string.beq_iff x id,
  eq_string.beq_iff id x,
)

pub add_id-IsUnique : (id : String) (ids : List String) → IsUnique ids → IsUnique (add_id id ids)
unfolding add_id
add_id-IsUnique id ids s = ground (arith, append-IsUnique id ids, Bool-cases (contains id ids))

discard_absent :
    (id : String) (ids : List String) → contains id ids ≡ false → discard_id id ids ≡ ids
unfolding discard_id filter contains
discard_absent id [] h = refl
discard_absent id (x ∷ xs) h = ground (arith, discard_absent id xs)

pub contains-discard_id :
    (a id : String) (ids : List String)
    → contains a (discard_id id ids) ≡ (not (a == id) && contains a ids)
unfolding discard_id
contains-discard_id a id ids = contains-filter a (λ other. not (other == id)) ids

discard_id-IsUnique :
    (id : String) (ids : List String) → IsUnique ids → IsUnique (discard_id id ids)
unfolding discard_id filter
discard_id-IsUnique id [] s = tt
discard_id-IsUnique id (x ∷ xs) s =
    ground (arith, discard_id-IsUnique id xs, contains-filter x (λ other. not (other == id)) xs)

length-discard_id :
    (id : String) (ids : List String)
    → IsUnique ids
    → length (discard_id id ids) + (if contains id ids then 1 else 0) ≡ length ids
unfolding discard_id filter contains
length-discard_id id [] s = refl
length-discard_id id (x ∷ xs) s =
    ground (arith, length-discard_id id xs, discard_absent id xs, eq_string.beq_iff x id)

get_or-set :
    (k j : WriteStatus) (n : ℕ) (d : Dict WriteStatus ℕ)
    → get_or j 0 (set k n d) ≡ (if k == j then n else get_or j 0 d)
unfolding get_or
get_or-set k j n d = ground (arith, get-set k j n d)

module _ (t : RouteTally) where
  tally_failed-CountsFailed : (id : String) → CountsFailed t → CountsFailed (tally_failed id t)
  unfolding tally_failed add_id
  tally_failed-CountsFailed id (e, s) = (
    ground (
      arith,
      e,
      get_or-set failed failed (get_or failed 0 t.counts + 1) t.counts,
      length-append t.failed_ids (id ∷ []),
    ),
    add_id-IsUnique id t.failed_ids s,
  )

  count_new-failed :
      (already : Bool) (status : WriteStatus) (id : String)
      → status ≢ failed
      → get_or failed 0 (count_new already status t.counts) ≡ get_or failed 0 t.counts
  unfolding count_new
  count_new-failed already status id n = ground (
    arith,
    n,
    get_or-set status failed (get_or status 0 t.counts + 1) t.counts,
    status_eq_iff status failed,
  )

  tally_settled-CountsFailed :
      (already : Bool) (status : WriteStatus) (id : String) (relationship_failed : Bool)
      → status ≢ failed
      → CountsFailed t
      → CountsFailed (tally_settled already status id relationship_failed t)
  unfolding tally_settled
  tally_settled-CountsFailed already status id relationship_failed n (e, s) =
      let counts = count_new already status t.counts in
      (
        ground (
          arith,
          e,
          count_new-failed already status id n,
          get_or-set failed failed (get_or failed 0 counts - 1) counts,
          length-discard_id id t.failed_ids s,
        ),
        discard_id-IsUnique id t.failed_ids s,
      )

  tally-CountsFailed : (state : RecordState) → CountsFailed t → CountsFailed (tally state t)
  unfolding tally
  tally-CountsFailed state h =
      let status = status_or_failed state.status in
      elim (Bool-cases (status == failed)) [
        | inl e ↦ ground (arith, e, tally_failed-CountsFailed state.source_record_id h)
        | inr e ↦ ground (
          arith,
          e,
          status_eq_iff status failed,
          tally_settled-CountsFailed state.already_terminal status state.source_record_id
              state.relationship_failed,
          h,
        )
      ]

-- The counter of failed records stays the size of the set of failed ids, each there once, whatever
-- results the records of a round have.
pub tally_states-CountsFailed :
    (states : List RecordState) (t : RouteTally)
    → CountsFailed t
    → CountsFailed (tally_states states t)
unfolding tally_states
tally_states-CountsFailed [] t h = h
tally_states-CountsFailed (state ∷ states) t h =
    tally_states-CountsFailed states (tally state t) (tally-CountsFailed t state h)

-- A record whose result is new and settled.
abbrev pub is_new : WriteStatus → RecordState → Bool
is_new status state = not state.already_terminal && status_or_failed state.status == status

tally-get :
    (status : WriteStatus) (state : RecordState) (t : RouteTally)
    → status ≢ failed
    → get_or status 0 (tally state t).counts
      ≡ get_or status 0 t.counts + (if is_new status state then 1 else 0)
unfolding tally tally_failed tally_settled count_new
tally-get status state t n =
    let s = status_or_failed state.status in
    let counts = set s (get_or s 0 t.counts + 1) t.counts in
    ground (
      arith,
      n,
      get_or-set failed status (get_or failed 0 t.counts + 1) t.counts,
      get_or-set failed status (get_or failed 0 counts - 1) counts,
      get_or-set failed status (get_or failed 0 t.counts - 1) t.counts,
      get_or-set s status (get_or s 0 t.counts + 1) t.counts,
      status_eq_iff s status,
      status_eq_iff s failed,
      status_eq_iff failed status,
    )

-- The counter of `created`, `updated` or `skipped` grows by the number of the records of the round that
-- have this result and were not terminal before it.
pub tally_states-get :
    (status : WriteStatus) (states : List RecordState) (t : RouteTally)
    → status ≢ failed
    → get_or status 0 (tally_states states t).counts
      ≡ get_or status 0 t.counts + length (filter (is_new status) states)
unfolding tally_states filter
tally_states-get status [] t n = ground arith
tally_states-get status (state ∷ states) t n =
    ground (arith, tally_states-get status states (tally state t) n, tally-get status state t n)

-- Whether the last of the states with an id failed; without one, the given answer.
unfoldable pub ends_failed : Bool → String → List RecordState → Bool
ends_failed before id [] = before
ends_failed before id (state ∷ states) =
    ends_failed
      (if state.source_record_id == id then status_or_failed state.status == failed else before) id
      states

tally-contains :
    (id : String) (state : RecordState) (t : RouteTally)
    → contains id (tally state t).failed_ids ≡ (
        if state.source_record_id == id
        then status_or_failed state.status == failed
        else contains id t.failed_ids)
unfolding tally tally_failed tally_settled add_id
tally-contains id state t =
    let other = state.source_record_id in
    ground (
      arith,
      contains_append_one id other t.failed_ids,
      contains-discard_id id other t.failed_ids,
      eq_string.beq_iff other id,
      eq_string.beq_iff id other,
      status_eq_iff (status_or_failed state.status) failed,
    )

-- After a round an id is in the set of failed ids exactly if the last record with this id failed, or, if
-- no record has it, if it was there before.
pub contains-tally_states :
    (id : String) (states : List RecordState) (t : RouteTally)
    → contains id (tally_states states t).failed_ids
      ≡ ends_failed (contains id t.failed_ids) id states
unfolding tally_states ends_failed
contains-tally_states id [] t = refl
contains-tally_states id (state ∷ states) t =
    contains-tally_states id states (tally state t)
    ∙ ap (λ b. ends_failed b id states) (tally-contains id state t)
