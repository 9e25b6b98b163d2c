-- ===== src/Prelude/Dict.antt =====
-- Python's `dict` as a list of entries in insertion order, and `set` as a list.
use Prim.Native.Nat.{ℕ, ◌+◌}
use mathlib.Core.Path.{◌≡◌, refl}
use mathlib.Core.Bool.{Bool, true, false}
use mathlib.Core.Option.{Option, none, some}
use mathlib.Core.List.{List, [], ◌∷◌, ◌++◌}
use native.Mathlib.Omega.{arith}
use sanka.Prelude.Lists.{length}
use sanka.Prelude.Tests.{Eq, ◌==◌, beq_refl, if◌then◌else◌}

abbrev pub Dict {ℓ κ} : Type ℓ → Type κ → Type (ℓ ⊔ κ)
Dict K V = List (K × V)

module _ {ℓ κ} {K : Type ℓ} {V : Type κ} ⦃e : Eq K⦄ where
  -- `d.get(k)`
  unfoldable pub get : K → Dict K V → Option V
  get k [] = none
  get k ((j, v) ∷ d) = if j == k then some v else get k d

  -- `d[k] = v`: the entry keeps its place, a new one comes last.
  unfoldable pub set : K → V → Dict K V → Dict K V
  set k v [] = (k, v) ∷ []
  set k v ((j, w) ∷ d) = if j == k then (k, v) ∷ d else (j, w) ∷ set k v d

  -- `d.pop(k, None)`
  unfoldable pub pop : K → Dict K V → Dict K V
  pop k [] = []
  pop k ((j, w) ∷ d) = if j == k then pop k d else (j, w) ∷ pop k d

  -- `k in d`
  unfoldable pub has : K → Dict K V → Bool
  has k d = elim (get k d) [ none ↦ false | some v ↦ true ]

  -- `d.get(k, default)`
  unfoldable pub get_or : K → V → Dict K V → V
  get_or k default d = elim (get k d) [ none ↦ default | some v ↦ v ]

  pub get-set :
      (k j : K) (v : V) (d : Dict K V) → get j (set k v d) ≡ (if k == j then some v else get j d)
  unfolding get set
  get-set k j v [] = refl
  get-set k j v ((i, w) ∷ d) =
      ground (arith, get-set k j v d, e.beq_iff i k, e.beq_iff i j, e.beq_iff k j)

  pub get-pop : (k j : K) (d : Dict K V) → get j (pop k d) ≡ (if k == j then none else get j d)
  unfolding get pop
  get-pop k j [] = ground arith
  get-pop k j ((i, w) ∷ d) =
      ground (arith, get-pop k j d, e.beq_iff i k, e.beq_iff i j, e.beq_iff k j)

  pub get-set_self : (k : K) (v : V) (d : Dict K V) → get k (set k v d) ≡ some v
  get-set_self k v d = ground (arith, get-set k k v d, beq_refl k)

  -- `d.update(items)`, and a dict comprehension from no entry: later items win.
  unfoldable pub update : Dict K V → List (K × V) → Dict K V
  update d [] = d
  update d ((k, v) ∷ items) = update (set k v d) items

  -- The last value that `items` gives to a key.
  unfoldable pub get_last : K → List (K × V) → Option V
  get_last k [] = none
  get_last k ((j, v) ∷ items) =
      let rest = get_last k items in
      elim rest [ none ↦ if j == k then some v else none | some w ↦ some w ]

  pub get-update :
      (k : K) (d : Dict K V) (items : List (K × V))
      → get k (update d items) ≡ elim (get_last k items) [ none ↦ get k d | some v ↦ some v ]
  unfolding update get_last
  get-update k d [] = refl
  get-update k d ((j, v) ∷ items) =
      ground (arith, get-update k (set j v d) items, get-set j k v d, e.beq_iff j k)

  -- Each key has one entry, as in every dict.
  abbrev pub Distinct : Dict K V → Type κ
  Distinct [] = Unit
  Distinct ((k, v) ∷ d) = (get k d ≡ none) × Distinct d

  pub set-Distinct : (k : K) (v : V) (d : Dict K V) → Distinct d → Distinct (set k v d)
  unfolding set get
  set-Distinct k v [] h = (refl, tt)
  set-Distinct k v ((j, w) ∷ d) h =
      ground (arith, get-set k j v d, set-Distinct k v d h.1, e.beq_iff j k, e.beq_iff k j)

-- `GROUP BY` with `COUNT(*)`, and a counter built by `d[k] = d.get(k, 0) + 1`.
module _ {ℓ} {K : Type ℓ} ⦃e : Eq K⦄ where
  unfoldable pub bump : K → Dict K ℕ → Dict K ℕ
  bump k d = set k (get_or k 0 d + 1) d

  unfoldable pub count_by : Dict K ℕ → List K → Dict K ℕ
  count_by d [] = d
  count_by d (k ∷ ks) = count_by (bump k d) ks

  unfoldable pub count : K → List K → ℕ
  count k [] = 0
  count k (j ∷ ks) = (if j == k then 1 else 0) + count k ks

  pub get_or-bump :
      (k j : K) (d : Dict K ℕ) → get_or j 0 (bump k d) ≡ (if k == j then 1 else 0) + get_or j 0 d
  unfolding bump get_or
  get_or-bump k j d = ground (arith, get-set k j (get_or k 0 d + 1) d, e.beq_iff k j)

  -- A key's count is the number of its occurrences.
  pub get_or-count_by :
      (k : K) (d : Dict K ℕ) (ks : List K) → get_or k 0 (count_by d ks) ≡ get_or k 0 d + count k ks
  unfolding count_by count
  get_or-count_by k d [] = omega arith
  get_or-count_by k d (j ∷ ks) = omega (arith, get_or-count_by k (bump j d) ks, get_or-bump j k d)

  -- The counts of all groups add up.
  unfoldable pub total : Dict K ℕ → ℕ
  total [] = 0
  total ((k, n) ∷ d) = n + total d

  pub total-set : (k : K) (n : ℕ) (d : Dict K ℕ) → total (set k n d) + get_or k 0 d ≡ total d + n
  unfolding total set get get_or
  total-set k n [] = omega arith
  total-set k n ((j, m) ∷ d) = ground (arith, total-set k n d)

  pub total-count_by : (d : Dict K ℕ) (ks : List K) → total (count_by d ks) ≡ total d + length ks
  unfolding count_by
  total-count_by d [] = omega arith
  total-count_by d (k ∷ ks) = omega (arith, total-count_by (bump k d) ks, total-bump)
    where
      total-bump : total (bump k d) ≡ total d + 1
      total-bump = unfold bump in omega (arith, total-set k (get_or k 0 d + 1) d)

-- `d.setdefault(k, []).append(v)`, as with a `defaultdict(list)`.
module _ {ℓ κ} {K : Type ℓ} {V : Type κ} ⦃e : Eq K⦄ where
  unfoldable pub append_to : K → V → Dict K (List V) → Dict K (List V)
  append_to k v d = set k (get_or k [] d ++ (v ∷ [])) d

  pub get_or-append_to :
      (k j : K) (v : V) (d : Dict K (List V))
      → get_or j [] (append_to k v d)
        ≡ (if k == j then get_or j [] d ++ (v ∷ []) else get_or j [] d)
  unfolding append_to get_or
  get_or-append_to k j v d =
      ground (arith, get-set k j (get_or k [] d ++ (v ∷ [])) d, e.beq_iff k j)
