-- ===== src/Tests/Scope.antt =====
-- An example of the scope's theorem.
use sanka.Prelude.{String, ◌≡◌, refl, List, [], ◌∷◌, contains, arith, eq_string}
use sanka.Prelude.Dict.{Dict}
use sanka.Prelude.Text.{strip, is_space}
use sanka.Scope.{exact_candidate_hash}
use sanka.Scope.Canonical.{SameCandidates, exact_candidate_hash-SameCandidates}

-- A hash that shows the ids of its first route.
abbrev first_id : Dict String (List String) → String
first_id [] = ""
first_id ((key, []) ∷ candidates) = ""
first_id ((key, id ∷ ids) ∷ candidates) = id

abbrev untidy : Dict String (List String)
untidy = ("Contact|contacts", "2" ∷ " 1" ∷ "" ∷ "2" ∷ []) ∷ []

abbrev tidy : Dict String (List String)
tidy = ("Contact|contacts", "1" ∷ "2" ∷ []) ∷ []

untidy-SameCandidates : SameCandidates untidy tidy
unfolding contains strip is_space
untidy-SameCandidates =
    (refl, (λ id. ground (arith, eq_string.beq_iff id "", eq_string.beq_iff "" id), tt))

exact_candidate_hash-SameCandidates_example :
    exact_candidate_hash first_id untidy ≡ exact_candidate_hash first_id tidy
exact_candidate_hash-SameCandidates_example =
    exact_candidate_hash-SameCandidates first_id untidy tidy untidy-SameCandidates
