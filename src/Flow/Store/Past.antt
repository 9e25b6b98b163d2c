-- ===== src/Flow/Store/Past.antt =====
-- A row that has moved past a claim stays past it (runtime/flow/sqlite.py).
use sanka.Prelude.{
  ◌≤◌, ◌<◌, String, ◌≡◌, ◌≢◌, ◌⊎◌, Option, none, some, ◌==◌, eq_string, eq_nat, eq_option, arith,
  inl, inr, Bool-cases, subst, opt_eq_iff, ◌∙◌,
}
use sanka.Prelude.Dict.{get, get-set}
use sanka.Flow.Model.{Claim, to_dict}
use sanka.Flow.Store.{
  InstallationRow, FlowDb, Handle, Readings, put_row, claimed_row, eq_plan_key, is_new_claim,
}
use sanka.Flow.Store.Changes.{
  Change, unchanged, opened, planned, claimed, begun, completed, constructed, recorded, released,
  abandoned,
}

-- The row has moved past the claim: to a later generation, or away from its attempt.
abbrev pub IsPast : Claim → InstallationRow → Type 0
IsPast c r =
    (c.generation < r.generation)
    ⊎ ((c.generation ≤ r.generation) × (r.attempt ≢ some c.attempt_id))

pub record Fenced (id : String) (c : Claim) (db : FlowDb) : Type 0 where
  pub row : InstallationRow
  pub there : get id db.installations ≡ some row
  pub past : IsPast c row

claimed_row-IsPast :
    (h : Handle) (digest attempt_id : String) (clock : Readings) (c : Claim) (r : InstallationRow)
    → IsPast c r
    → IsPast c (claimed_row h digest attempt_id clock r)
unfolding is_new_claim
claimed_row-IsPast h digest attempt_id clock c r (inl later) = inl (ground (arith, later))
claimed_row-IsPast h digest attempt_id clock c r (inr (same, away)) =
    elim (Bool-cases (r.attempt == some attempt_id)) [
      | inr other ↦ inl (ground (arith, same, other))
      | inl own ↦
          let kept : r.attempt ≡ some attempt_id = (opt_eq_iff r.attempt (some attempt_id)).0 own in
          inr (ground (arith, same), λ e. away (kept ∙ e))
    ]

abbrev pub cleared : InstallationRow → Option String → InstallationRow
cleared r active = record r { active_plan = active; attempt = none; lease_until = 0 }

cleared-IsPast :
    (c : Claim) (r : InstallationRow) (active : Option String)
    → IsPast c r
    → IsPast c (cleared r active)
cleared-IsPast c r active (inl later) = inl later
cleared-IsPast c r active (inr (same, away)) = inr (same, λ e. absurd (cc))

module _ (id : String) (c : Claim) where
  put_row-Fenced :
      (h : Handle) (r : InstallationRow) (db : FlowDb)
      → Fenced id c db
      → (h.id ≡ id → IsPast c r)
      → Fenced id c (put_row h r db)
  put_row-Fenced h r db f past = elim (Bool-cases (h.id == id)) [
    | inl same ↦ record {
      row = r;
      there = ground (arith, get-set h.id id r db.installations, same);
      past = past ((eq_string.beq_iff h.id id).0 same);
    }
    | inr other ↦ record {
      row = f.row;
      there = ground (arith, get-set h.id id r db.installations, other, f.there);
      past = f.past;
    }
  ]

  -- The row that a call reads is the fenced one.
  IsPast-of :
      (h : Handle) (r : InstallationRow) (db : FlowDb)
      → Fenced id c db
      → get h.id db.installations ≡ some r
      → h.id ≡ id
      → IsPast c r
  IsPast-of h r db f there same =
      let e : f.row ≡ r = ground (arith, f.there, there, same) in subst (IsPast c) e f.past

  pub Change-Fenced : (h : Handle) (a b : FlowDb) → Change h a b → Fenced id c a → Fenced id c b
  Change-Fenced h a b (unchanged w) f = rw w f
  Change-Fenced h a b (opened r new free idle w) f =
      rw w (put_row-Fenced h r a f λ same. absurd (ground (arith, f.there, new, same)))
  Change-Fenced h a b (planned digest p new live open_plan w) f =
      rw w (record { row = f.row; there = f.there; past = f.past })
  Change-Fenced h a b (claimed digest attempt_id clock p r plan_there live there free w) f = rw w (
      put_row-Fenced h _ a f
        λ same. claimed_row-IsPast h digest attempt_id clock c r (IsPast-of h r a f there same))
  Change-Fenced h a b (begun d r op held new no_receipt w) f =
      rw w (record { row = f.row; there = f.there; past = f.past })
  Change-Fenced h a b (completed d r x held there same w) f =
      rw w (record { row = f.row; there = f.there; past = f.past })
  Change-Fenced h a b (constructed d p r i o held plan_there new complete there next_revision w) f =
      let moved : InstallationRow = record r {
        revision = i.revision;
        resources = (to_dict i).resources;
      } in
      let g = put_row-Fenced h moved a f (IsPast-of h r a f there) in
      rw w (record { row = g.row; there = g.there; past = g.past })
  Change-Fenced h a b (recorded d kind e held new w) f =
      rw w (record { row = f.row; there = f.there; past = f.past })
  Change-Fenced h a b (released d r active held there which w) f =
      rw w (put_row-Fenced h _ a f λ same. cleared-IsPast c r active (IsPast-of h r a f there same))
  Change-Fenced h a b (abandoned d p r held plan_there new no_results no_evidence there w) f =
      rw w (
        put_row-Fenced h _ _ (record { row = f.row; there = f.there; past = f.past })
          λ same. cleared-IsPast c r none (IsPast-of h r a f there same))
