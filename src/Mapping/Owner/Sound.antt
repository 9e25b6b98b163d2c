-- ===== src/Mapping/Owner/Sound.antt =====
-- The resolution of an owner by the profiles of an email (mapping/owner_mapping.py).
use mathlib.Core.List.{append_assoc, append-nil}
use sanka.Prelude.{
  String, ◌≡◌, ◌⊎◌, inl, inr, ◌∙◌, sym, refl, Bool, true, ◌&&◌, not, Option, none, some, List, [],
  ◌∷◌, ◌++◌, if◌then◌else◌, filter, ◌==◌, eq_string, arith, Bool-cases,
}
use sanka.Prelude.Dict.{Dict, get, get_or, append_to, get_or-append_to}
use sanka.Fault.{Result, return, raise}
use sanka.Mapping.Owner.{
  OwnerProfile, MissingOwnerPolicy, block, fallback, leave_empty, normalize_owner_email,
  index_profiles, owner_directory, resolve_matches, resolve_block, resolve, inactive, not_found,
  duplicate, fallback_required,
}

module _ (lower : String → String) where
  abbrev is_match : String → OwnerProfile → Bool
  is_match email p = normalize_owner_email lower p.email == email && not (email == "")

  -- The profiles whose normalized email is `email`, in order; none for the empty email.
  unfoldable pub matches : List OwnerProfile → String → List OwnerProfile
  matches profiles email = filter (is_match email) profiles

  get_or-index_profiles :
      (email : String) (by_email : Dict String (List OwnerProfile)) (profiles : List OwnerProfile)
      → get_or email [] (index_profiles lower by_email profiles)
        ≡ get_or email [] by_email ++ matches profiles email
  unfolding index_profiles matches filter
  get_or-index_profiles email by_email [] = sym (append-nil (get_or email [] by_email))
  get_or-index_profiles email by_email (p ∷ profiles) =
      let e = normalize_owner_email lower p.email in
      elim (Bool-cases (e == "")) [
        | inl empty ↦ ground (
          arith,
          get_or-index_profiles email by_email profiles,
          eq_string.beq_iff e "",
          eq_string.beq_iff e email,
          eq_string.beq_iff email "",
        )
        | inr given ↦ ground (
          arith,
          get_or-index_profiles email (append_to e p by_email) profiles,
          get_or-append_to e email p by_email,
          append_assoc (get_or email [] by_email) (p ∷ []) (matches profiles email),
          eq_string.beq_iff e "",
          eq_string.beq_iff e email,
        )
      ]

  -- The directory gives an email its profiles.
  pub get_or-owner_directory :
      (profiles : List OwnerProfile) (email : String)
      → get_or email [] (owner_directory lower profiles) ≡ matches profiles email
  unfolding owner_directory
  get_or-owner_directory profiles email =
      get_or-index_profiles email [] profiles ∙ unfold get_or get in refl

  -- `id` is that of the one profile with this email, which is active.
  abbrev pub IsOnlyOwner : List OwnerProfile → String → String → Type 0
  IsOnlyOwner profiles email id =
      (p : OwnerProfile) × (matches profiles email ≡ p ∷ []) × (p.active ≡ true) × (p.id ≡ id)

  resolve_matches-some :
      (ms : List OwnerProfile) (by_policy : Result (Option String)) (id : String)
      → resolve_matches ms by_policy ≡ return (some id)
      → ((p : OwnerProfile) × (ms ≡ p ∷ []) × (p.active ≡ true) × (p.id ≡ id))
        ⊎ ((ms ≡ []) × (by_policy ≡ return (some id)))
  unfolding resolve_matches
  resolve_matches-some [] by_policy id h = inr (refl, h)
  resolve_matches-some (p ∷ []) by_policy id h = inl (p, refl, ground arith, ground arith)
  resolve_matches-some (p ∷ q ∷ ms) by_policy id h = absurd (cc)

  resolve_block_sound :
      (profiles : List OwnerProfile) (email id : String)
      → resolve_block lower (owner_directory lower profiles) email ≡ return (some id)
      → IsOnlyOwner profiles (normalize_owner_email lower email) id
  unfolding resolve_block
  resolve_block_sound profiles email id h =
      let e = normalize_owner_email lower email in
      let ms = get_or e [] (owner_directory lower profiles) in
      elim (resolve_matches-some ms (raise not_found) id h) [
        | inl (p, one, a, i) ↦ (p, sym (get_or-owner_directory profiles e) ∙ one, a, i)
        | inr (nobody, h') ↦ absurd (cc)
      ]

  by_fallback : String → String → Result (Option String) → Result (Option String)
  by_fallback other e next =
      if other == "" then raise fallback_required else if other == e then raise not_found else next

  by_fallback-some :
      (other e : String) (next : Result (Option String)) (id : String)
      → by_fallback other e next ≡ return (some id)
      → next ≡ return (some id)
  unfolding by_fallback
  by_fallback-some other e next id h = ground arith

  -- A resolved id is that of the only profile of an email, which is active: of the normalized email,
  -- or, under the policy "fallback" and where the email has no profile, of the fallback email.
  pub resolve_sound :
      (profiles : List OwnerProfile) (email fallback_email : String) (policy : MissingOwnerPolicy)
      (id : String)
      → resolve lower (owner_directory lower profiles) email policy fallback_email
        ≡ return (some id)
      → IsOnlyOwner profiles (normalize_owner_email lower email) id
        ⊎ ((policy ≡ fallback)
            × (matches profiles (normalize_owner_email lower email) ≡ [])
            × IsOnlyOwner profiles
                (normalize_owner_email lower (normalize_owner_email lower fallback_email))
                id)
  unfolding resolve
  resolve_sound profiles email fb block id h = inl (resolve_block_sound profiles email id h)
  resolve_sound profiles email fb leave_empty id h =
      let e = normalize_owner_email lower email in
      elim (resolve_matches-some (get_or e [] (owner_directory lower profiles)) (return none) id
        h) [
          | inl (p, one, a, i) ↦ inl (p, sym (get_or-owner_directory profiles e) ∙ one, a, i)
          | inr (nobody, h') ↦ absurd (cc)
        ]
  resolve_sound profiles email fb fallback id h =
      let e = normalize_owner_email lower email in
      let other = normalize_owner_email lower fb in
      let next = resolve_block lower (owner_directory lower profiles) other in
      elim (resolve_matches-some (get_or e [] (owner_directory lower profiles))
        (by_fallback other e next) id (unfold by_fallback in h)) [
          | inl (p, one, a, i) ↦ inl (p, sym (get_or-owner_directory profiles e) ∙ one, a, i)
          | inr (nobody, h') ↦ inr (
            refl,
            sym (get_or-owner_directory profiles e) ∙ nobody,
            resolve_block_sound profiles other id (by_fallback-some other e next id h'),
          )
        ]

  -- Whatever the policy: an email of exactly one profile gives that profile's id if it is active and
  -- fails if it is not, and an email of several profiles fails.
  pub resolve_by_matches :
      (profiles : List OwnerProfile) (email fallback_email : String) (policy : MissingOwnerPolicy)
      → ((p : OwnerProfile)
          → matches profiles (normalize_owner_email lower email) ≡ p ∷ []
          → resolve lower (owner_directory lower profiles) email policy fallback_email
            ≡ (if p.active then return (some p.id) else raise inactive))
        × ((p q : OwnerProfile) (ms : List OwnerProfile)
            → matches profiles (normalize_owner_email lower email) ≡ p ∷ q ∷ ms
            → resolve lower (owner_directory lower profiles) email policy fallback_email
              ≡ raise duplicate)
  unfolding resolve resolve_matches
  resolve_by_matches profiles email fb block =
      let found = get_or-owner_directory profiles (normalize_owner_email lower email) in
      (λ p e. rw (found, e) refl, λ p q ms e. rw (found, e) refl)
  resolve_by_matches profiles email fb leave_empty =
      let found = get_or-owner_directory profiles (normalize_owner_email lower email) in
      (λ p e. rw (found, e) refl, λ p q ms e. rw (found, e) refl)
  resolve_by_matches profiles email fb fallback =
      let found = get_or-owner_directory profiles (normalize_owner_email lower email) in
      (λ p e. rw (found, e) refl, λ p q ms e. rw (found, e) refl)
