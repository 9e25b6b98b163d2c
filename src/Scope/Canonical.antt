-- ===== src/Scope/Canonical.antt =====
-- The canonical form of candidate ids and their hash (runtime/execution/scope.py).
use sanka.Prelude.{
  String, ◌≡◌, refl, sym, ap, ◌∙◌, Bool, not, ◌&&◌, List, [], ◌∷◌, map, filter, contains,
  contains-filter, ◌==◌, eq_string,
}
use mathlib.Core.Path.{ap₂}
use sanka.Prelude.Dict.{Dict}
use sanka.Prelude.Text.{strip}
use sanka.Prelude.Sort.{sorted_set_ext, sorted_set-IsSortedSet, contains-sorted_set}
use sanka.Scope.{canonical_ids, exact_candidate_hash}

-- `id` is one of the ids that a list names: of the stripped ones that are not blank.
abbrev pub names : String → List String → Bool
names id ids = not (id == "") && contains id (map strip ids)

canonical_ids_ext :
    (xs ys : List String)
    → ((id : String) → names id xs ≡ names id ys)
    → canonical_ids xs ≡ canonical_ids ys
unfolding canonical_ids
canonical_ids_ext xs ys h =
    sorted_set_ext _ _ (sorted_set-IsSortedSet _) (sorted_set-IsSortedSet _) λ id.
      contains-sorted_set id (filter (λ other. not (other == "")) (map strip xs))
      ∙ contains-filter id (λ other. not (other == "")) (map strip xs)
      ∙ h id
      ∙ sym (contains-filter id (λ other. not (other == "")) (map strip ys))
      ∙ sym (contains-sorted_set id (filter (λ other. not (other == "")) (map strip ys)))

-- Two candidate maps with the same routes in the same order, which name the same ids on each.
abbrev pub SameCandidates : Dict String (List String) → Dict String (List String) → Type 0
SameCandidates [] [] = Unit
SameCandidates ((k, xs) ∷ c) ((j, ys) ∷ d) =
    (k ≡ j) × (((id : String) → names id xs ≡ names id ys) × SameCandidates c d)
SameCandidates _ _ = ⊥

abbrev canonical_map : Dict String (List String) → Dict String (List String)
canonical_map c = map (λ (key, ids). (key, canonical_ids ids)) c

module _ (content_hash : Dict String (List String) → String) where
  canonical-SameCandidates :
      (c d : Dict String (List String)) → SameCandidates c d → canonical_map c ≡ canonical_map d
  canonical-SameCandidates [] [] h = refl
  canonical-SameCandidates [] (x ∷ d) h = elim h [ ]
  canonical-SameCandidates (x ∷ c) [] h = elim h [ ]
  canonical-SameCandidates ((k, xs) ∷ c) ((j, ys) ∷ d) (e, (same, h)) =
      ap₂ (λ x rest. x ∷ rest) (ap₂ (λ a b. (a, b)) e (canonical_ids_ext xs ys same))
        (canonical-SameCandidates c d h)

  -- The candidate hash does not depend on the order, the repetition, the blanks or the surrounding space
  -- of the candidate ids of each route: maps that name the same ids on each route have one hash.
  pub exact_candidate_hash-SameCandidates :
      (c d : Dict String (List String))
      → SameCandidates c d
      → exact_candidate_hash content_hash c ≡ exact_candidate_hash content_hash d
  unfolding exact_candidate_hash
  exact_candidate_hash-SameCandidates c d h = ap content_hash (canonical-SameCandidates c d h)
