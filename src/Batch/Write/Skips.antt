-- ===== src/Batch/Write/Skips.antt =====
-- Which records of a page reach the destination in the write phase (`run_batch` of execution/routes.py).
use sanka.Prelude.{
  ℕ, suc, String, ◌≡◌, ◌⊎◌, ◌++◌, ◌∙◌, ap, ◌≢◌, refl, Bool, not, ◌&&◌, Option, List, [], ◌∷◌,
  eq_string, ◌==◌, arith, filter, Bool-cases, Option-cases, inl, inr,
}
use sanka.Prelude.Dict.{Dict, get, has}
use sanka.Fault.{Fault, Result, return, raise, Result-cases}
use sanka.Effect.{Eff}
use sanka.Records.{SourceRecord, WriteOptions, BatchWriteInput, BatchWriteResult}
use sanka.Batch.{ExecutionRoute, RecordState, BatchHost, dispatch_write, record_identity}
use sanka.Batch.Write.{
  OnMissingIdentity, write_identified, write_page, write_phase, write_batch, write_fresh,
  write_single, fresh_state, terminal_state, unidentified,
}

OnMissingIdentity-cases :
    (m : OnMissingIdentity) → (m ≡ OnMissingIdentity.drop) ⊎ (m ≡ OnMissingIdentity.fail)
OnMissingIdentity-cases OnMissingIdentity.drop = inl refl
OnMissingIdentity-cases OnMissingIdentity.fail = inr refl

-- A record has an identity, and no terminal result.
unfoldable pub is_unwritten : ExecutionRoute → Dict String (Option String) → SourceRecord → Bool
is_unwritten route terminal r =
    let id = record_identity route.source_identity_field r in
    not (id == "") && not (has id terminal)

module _ {W : Type 0} (host : BatchHost W) (route : ExecutionRoute) (options : WriteOptions)
    (payload : SourceRecord → Result SourceRecord) where
  -- Two pages are written alike: both loops return, with the same inputs for the batch writer and in
  -- the same world.
  record Alike (on_missing : OnMissingIdentity) (terminal : Dict String (Option String)) (m n : ℕ)
      (xs ys : List SourceRecord) (w : W) : Type 0 where
    xs_states : List RecordState
    ys_states : List RecordState
    inputs : List BatchWriteInput
    after : W
    xs_written :
        write_page host route options payload on_missing terminal m xs w
        ≡ (return (xs_states, inputs), after)
    ys_written :
        write_page host route options payload on_missing terminal n ys w
        ≡ (return (ys_states, inputs), after)

  write_fresh_no_fault :
      (state : RecordState) (w : W) (e : Fault)
      → (write_fresh host route options payload state w).0 ≢ raise e
  unfolding write_fresh write_single
  write_fresh_no_fault state w e h = elim (Result-cases (payload state.source_record)) [
    | inr (f, invalid) ↦ ground (arith, invalid, h)
    | inl (properties, valid) ↦ elim (Option-cases host.write_records) [
      | inr (write_records, many) ↦ ground (arith, valid, many, h)
      | inl single ↦
          let written =
            dispatch_write host.retry
              (host.write_record route.destination_object properties options) w in
          elim (Result-cases written.0) [
            | inr (f, raised) ↦ ground (arith, valid, single, raised, h)
            | inl (result, returned) ↦ ground (arith, valid, single, returned, h)
          ]
    ]
  ]

  -- The write of a record raises nothing.
  write_fresh_returns :
      (state : RecordState) (w : W)
      → (p : RecordState × List BatchWriteInput) × (after : W) × (write_fresh host route options
            payload state w
          ≡ (return p, after))
  write_fresh_returns state w =
      let x = write_fresh host route options payload state w in
      elim (Result-cases x.0) [
        | inl (p, returned) ↦ (p, x.1, ap (λ r. (r, x.1)) returned)
        | inr (e, raised) ↦ absurd (write_fresh_no_fault state w e raised)
      ]

  write_page-Alike :
      (on_missing : OnMissingIdentity) (terminal : Dict String (Option String)) (m n : ℕ)
      (records : List SourceRecord) (w : W)
      → Alike on_missing terminal m n records (filter (is_unwritten route terminal) records) w
  unfolding write_page write_identified filter is_unwritten has
  write_page-Alike on_missing terminal m n [] w = record {
    xs_states = [];
    ys_states = [];
    inputs = [];
    after = w;
    xs_written = refl;
    ys_written = refl;
  }
  write_page-Alike on_missing terminal m n (r ∷ records) w =
      let id = record_identity route.source_identity_field r in
      elim (Bool-cases (id == "")) [
        | inl blank ↦ elim (OnMissingIdentity-cases on_missing) [
          | inl dropped ↦
              let a = write_page-Alike on_missing terminal m n records w in
              record {
                xs_states = a.xs_states;
                ys_states = a.ys_states;
                inputs = a.inputs;
                after = a.after;
                xs_written = ground (arith, blank, dropped, a.xs_written);
                ys_written = ground (arith, blank, a.ys_written);
              }
          | inr failing ↦
              let a = write_page-Alike on_missing terminal (suc m) n records w in
              record {
                xs_states = unidentified r m ∷ a.xs_states;
                ys_states = a.ys_states;
                inputs = a.inputs;
                after = a.after;
                xs_written = ground (arith, blank, failing, a.xs_written);
                ys_written = ground (arith, blank, a.ys_written);
              }
        ]
        | inr named ↦ elim (Option-cases (get id terminal)) [
          | inl no_row ↦
              let ((state, input), z, written) = write_fresh_returns (fresh_state r id) w in
              let a = write_page-Alike on_missing terminal m n records z in
              record {
                xs_states = state ∷ a.xs_states;
                ys_states = state ∷ a.ys_states;
                inputs = input ++ a.inputs;
                after = a.after;
                xs_written = ground (arith, named, no_row, written, a.xs_written);
                ys_written = ground (arith, named, no_row, written, a.ys_written);
              }
          | inr (d, row) ↦
              let a = write_page-Alike on_missing terminal m n records w in
              record {
                xs_states = terminal_state r id d ∷ a.xs_states;
                ys_states = a.ys_states;
                inputs = a.inputs;
                after = a.after;
                xs_written = ground (arith, named, row, a.xs_written);
                ys_written = ground (arith, named, row, a.ys_written);
              }
        ]
      ]

  -- The batch writer is given the inputs, whatever the states are.
  write_batch_same :
      (write_records : String → List BatchWriteInput → WriteOptions → Eff W (List BatchWriteResult))
      (inputs : List BatchWriteInput) (xs ys : List RecordState) (w : W)
      → ((e : Fault)
          → (write_batch host route options payload write_records inputs xs w).0 ≢ raise e)
        × ((write_batch host route options payload write_records inputs xs w).1
            ≡ (write_batch host route options payload write_records inputs ys w).1)
  unfolding write_batch
  write_batch_same write_records [] xs ys w = (λ e h. ground arith, refl)
  write_batch_same write_records (i ∷ inputs) xs ys w =
      let written =
        dispatch_write host.retry (write_records route.destination_object (i ∷ inputs) options) w in
      elim (Result-cases written.0) [
        | inr (f, raised) ↦ (λ e h. ground (arith, raised, h), ground (arith, raised))
        | inl (results, returned) ↦ (λ e h. ground (arith, returned, h), ground (arith, returned))
      ]

  write_batch_returns :
      (write_records : String → List BatchWriteInput → WriteOptions → Eff W (List BatchWriteResult))
      (inputs : List BatchWriteInput) (xs ys : List RecordState) (w : W)
      → (states : List RecordState) × (write_batch host route options payload write_records inputs
            xs w
          ≡ (return states, (write_batch host route options payload write_records inputs ys w).1))
  write_batch_returns write_records inputs xs ys w =
      let x = write_batch host route options payload write_records inputs xs w in
      let (no_fault, same) = write_batch_same write_records inputs xs ys w in
      elim (Result-cases x.0) [
        | inl (states, returned) ↦
            (states, ap (λ r. (r, x.1)) returned ∙ ap (λ z. (return states, z)) same)
        | inr (e, raised) ↦ absurd (no_fault e raised)
      ]

  -- The write phase of a page returns, and acts on the world as the write phase of only those of its
  -- records that have an identity and no terminal result, in their order: it makes the same calls of
  -- the destination, whether in one batch or one by one.
  pub write_phase_new :
      (on_missing : OnMissingIdentity) (terminal : Dict String (Option String))
      (records : List SourceRecord) (w : W)
      → (states : List RecordState) × (write_phase host route options payload on_missing terminal
            records w
          ≡ (
            return states,
            (write_phase host route options payload on_missing terminal
                (filter (is_unwritten route terminal) records)
                w).1,
          ))
  unfolding write_phase
  write_phase_new on_missing terminal records w =
      let a = write_page-Alike on_missing terminal 0 0 records w in
      elim (Option-cases host.write_records) [
        | inl single ↦ (a.xs_states, ground (arith, single, a.xs_written, a.ys_written))
        | inr (write_records, many) ↦
            let (states, e) =
              write_batch_returns write_records a.inputs a.xs_states a.ys_states a.after in
            (states, ground (arith, many, a.xs_written, a.ys_written, e))
      ]
