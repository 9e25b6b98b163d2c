-- ===== src/Journal/Fence.antt =====
-- Attempts by their number, under the saves and claims of any handles (runtime/execution/local.py).
use sanka.Prelude.{
  ℕ, ◌≤◌, ◌<◌, String, ◌≡◌, ◌≢◌, refl, true, false, some, arith, eq_string, eq_option, ◌==◌,
  beq_refl, Bool-cases, inl, inr, ap, ◌∙◌,
}
use sanka.Prelude.Dict.{get, get-set}
use sanka.Model.{AttemptIdentity, JournalEntry}
use sanka.Journal.Steps.{Saves, save-Saves, Claims, claim-Claims, get-write_entry_sync}
use sanka.Journal.{
  written, claimed_row, JournalRow, Journal, Handle, ClaimOutcome, superseded, save, claim,
  owned_by_other_attempt, may_claim,
}

-- A claimed handle that is not fenced out holds the row's attempt.
held_by :
    (h : Handle) (entry : JournalEntry) (row : JournalRow) (a : AttemptIdentity) (i : String)
    → h.claimed ≡ some a
    → row.attempt_id ≡ some i
    → 0 < row.attempt_number
    → owned_by_other_attempt h entry row ≡ false
    → i ≡ a.attempt_id
unfolding owned_by_other_attempt
held_by h entry row a i c own pos free = ground (arith, eq_string.beq_iff i a.attempt_id)

fenced_out :
    (h : Handle) (entry : JournalEntry) (row : JournalRow) (a : AttemptIdentity) (i : String)
    → h.claimed ≡ some a
    → row.attempt_id ≡ some i
    → 0 < row.attempt_number
    → i ≢ a.attempt_id
    → owned_by_other_attempt h entry row ≡ true
unfolding owned_by_other_attempt
fenced_out h entry row a i c own pos other = ground (arith, eq_string.beq_iff i a.attempt_id)

-- The number that a claimed handle stores with its own entry.
written-attempt_number :
    (h : Handle) (now : String) (entry : JournalEntry) (a : AttemptIdentity) (journal : Journal)
    → h.claimed ≡ some a
    → entry.attempt_id ≡ some a.attempt_id
    → (written h now entry journal).attempt_number ≡ a.attempt_number
written-attempt_number h now entry a journal c own = ground (arith, beq_refl a.attempt_id)

claim_least :
    (number_of : String → ℕ) (row : JournalRow) (a : AttemptIdentity) (i : String) (n : ℕ)
    → row.attempt_id ≡ some i
    → row.attempt_number ≡ number_of i
    → a.attempt_number ≡ number_of a.attempt_id
    → may_claim a row ≡ true
    → n ≤ number_of i
    → n ≤ number_of a.attempt_id
unfolding may_claim
claim_least number_of row a i n held numbered num guard least =
    ground (arith, eq_string.beq_iff i a.attempt_id)

-- An attempt id determines its number, as in `f"{task_run_id}:{attempt_number}"`.
module _ (number_of : String → ℕ) where
  abbrev pub IsNumbered : AttemptIdentity → Type 0
  IsNumbered a = a.attempt_number ≡ number_of a.attempt_id

  -- A save through a handle that has claimed `a`, of an entry that carries that attempt, or a claim.
  pub data Step (before after : Journal) : Type 0 where
    saves :
        (h : Handle) (now : String) (entry : JournalEntry) (a : AttemptIdentity)
        → h.claimed ≡ some a
        → entry.attempt_id ≡ some a.attempt_id
        → IsNumbered a
        → after ≡ (save h now entry before).1
        → Step before after
    claims :
        (h : Handle) (now : String) (a : AttemptIdentity)
        → IsNumbered a
        → after ≡ (claim h now a before).2
        → Step before after

  pub data Reach (start : Journal) : Journal → Type 0 where
    here : Reach start start
    next : {a b : Journal} → Reach start a → Step a b → Reach start b

  -- The run's row is held by an attempt with number `n` or more.
  pub record Fenced (n : ℕ) (run_id : String) (journal : Journal) : Type 0 where
    pub row : JournalRow
    pub there : get run_id journal ≡ some row
    pub attempt_id : String
    pub held : row.attempt_id ≡ some attempt_id
    pub numbered : row.attempt_number ≡ number_of attempt_id
    pub least : n ≤ number_of attempt_id

  module _ (n : ℕ) (run_id : String) where
    save-Fenced :
        (h : Handle) (now : String) (entry : JournalEntry) (a : AttemptIdentity) (journal : Journal)
        → 0 < n
        → h.claimed ≡ some a
        → entry.attempt_id ≡ some a.attempt_id
        → IsNumbered a
        → Fenced n run_id journal
        → Fenced n run_id (save h now entry journal).1
    save-Fenced h now entry a journal pos c own num f =
        go (save h now entry journal).1 (save-Saves h now entry journal)
      where
        go : (after : Journal) → Saves h now entry journal after → Fenced n run_id after
        go after (Saves.unchanged e) = rw e f
        go after (Saves.wrote e w same rules) = elim (Bool-cases (h.run_id == run_id)) [
          | inl here_run ↦
              let row_there : get h.run_id journal ≡ some f.row =
                ground (arith, f.there, eq_string.beq_iff h.run_id run_id) in
              let same_attempt : f.attempt_id ≡ a.attempt_id =
                held_by h entry f.row a f.attempt_id c f.held (omega (arith, f.numbered, f.least))
                  (rules f.row row_there).0 in
              rw w (record {
                row = written h now e journal;
                there = ground (arith, get-write_entry_sync run_id h now e journal);
                attempt_id = a.attempt_id;
                held = same ∙ own;
                numbered = written-attempt_number h now e a journal c (same ∙ own) ∙ num;
                least = rw same_attempt at f.least;
              })
          | inr other ↦ rw w (record {
            row = f.row;
            there = ground (arith, get-write_entry_sync run_id h now e journal, f.there);
            attempt_id = f.attempt_id;
            held = f.held;
            numbered = f.numbered;
            least = f.least;
          })
        ]

    claim-Fenced :
        (h : Handle) (now : String) (a : AttemptIdentity) (journal : Journal)
        → IsNumbered a
        → Fenced n run_id journal
        → Fenced n run_id (claim h now a journal).2
    claim-Fenced h now a journal num f = go (claim h now a journal).2 (claim-Claims h now a journal)
      where
        go : (after : Journal) → Claims h now a journal after → Fenced n run_id after
        go after (Claims.unchanged e) = rw e f
        go after (Claims.updates row there live guard w) = elim (Bool-cases (h.run_id == run_id)) [
          | inl here_run ↦
              let same_row : row ≡ f.row =
                ground (arith, f.there, there, eq_string.beq_iff h.run_id run_id) in
              rw w (record {
                row = claimed_row row now a;
                there = ground (arith, get-set h.run_id run_id (claimed_row row now a) journal);
                attempt_id = a.attempt_id;
                held = refl;
                numbered = num;
                least =
                    claim_least number_of row a f.attempt_id n (rw (← same_row) at f.held)
                      (rw (← same_row) at f.numbered) num guard f.least;
              })
          | inr other ↦ rw w (record {
            row = f.row;
            there =
                ground (arith, get-set h.run_id run_id (claimed_row row now a) journal, f.there);
            attempt_id = f.attempt_id;
            held = f.held;
            numbered = f.numbered;
            least = f.least;
          })
        ]

    Reach-Fenced : {a b : Journal} → 0 < n → Reach a b → Fenced n run_id a → Fenced n run_id b
    Reach-Fenced pos here f = f
    Reach-Fenced pos (next {a = m} r (saves h now entry a c own num e)) f =
        rw e (save-Fenced h now entry a m pos c own num (Reach-Fenced pos r f))
    Reach-Fenced pos (next {a = m} r (claims h now a num e)) f =
        rw e (claim-Fenced h now a m num (Reach-Fenced pos r f))

  -- Once a run's row is held by an attempt with number `n` > 0, and after any saves by handles that
  -- write their own claimed attempt and any claims, an attempt with a lower number is locked out: its
  -- save is superseded and changes nothing, and its claim does not succeed.
  pub older_attempt_locked_out :
      (n : ℕ) (run_id : String) {start journal : Journal}
      → 0 < n
      → Fenced n run_id start
      → Reach start journal
      → (h : Handle) (now : String) (entry : JournalEntry) (a : AttemptIdentity) → h.run_id ≡ run_id
      → IsNumbered a
      → a.attempt_number < n
      → (h.claimed ≡ some a → save h now entry journal ≡ (superseded, journal))
        × ((claim h now a journal).0.0 ≢ ClaimOutcome.claimed)
  unfolding save claim
  older_attempt_locked_out n run_id {journal = journal} pos start r h now entry a same num low =
      let f = Reach-Fenced n run_id pos r start in
      let there : get h.run_id journal ≡ some f.row = rw same f.there in
      let other : f.attempt_id ≢ a.attempt_id =
        λ e. absurd (omega (arith, f.least, ap number_of e, num, low)) in
      let blocked : may_claim a f.row ≡ false =
        unfold may_claim in
        ground
          (arith, f.held, f.numbered, f.least, low, eq_string.beq_iff f.attempt_id a.attempt_id) in
      (
        λ c. ground (
          arith,
          there,
          fenced_out h entry f.row a f.attempt_id c f.held (omega (arith, f.numbered, f.least))
              other,
        ),
        ground (arith, there, blocked),
      )
