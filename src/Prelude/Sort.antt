-- ===== src/Prelude/Sort.antt =====
-- `sorted(xs)` by insertion, and `sorted(set(xs))` of strings.
use Prim.Native.Nat.{suc}
use Prim.Native.String.{String}
use mathlib.Core.Path.{◌≡◌, refl, ap, ap₂, sym, ◌∙◌}
use mathlib.Core.Bool.{Bool, true, false, ◌||◌}
use mathlib.Core.List.{List, [], ◌∷◌}
use native.Mathlib.Omega.{arith}
use sanka.Prelude.Tests.{Eq, eq_string, ◌==◌, beq_refl, if◌then◌else◌}
use sanka.Prelude.Lists.{length, contains, All}
use sanka.Prelude.Text.{text_le, text_le_total, text_le_trans, text_le_antisym, text_le_refl}

module _ {ℓ} {A : Type ℓ} (le : A → A → Bool) where
  unfoldable pub insert_sorted : A → List A → List A
  insert_sorted a [] = a ∷ []
  insert_sorted a (x ∷ xs) = if le a x then a ∷ x ∷ xs else x ∷ insert_sorted a xs

  unfoldable pub sort : List A → List A
  sort [] = []
  sort (x ∷ xs) = insert_sorted x (sort xs)

  length-insert : (a : A) (xs : List A) → length (insert_sorted a xs) ≡ suc (length xs)
  unfolding insert_sorted
  length-insert a [] = refl
  length-insert a (x ∷ xs) = ground (arith, length-insert a xs)

  pub length-sort : (xs : List A) → length (sort xs) ≡ length xs
  unfolding sort
  length-sort [] = refl
  length-sort (x ∷ xs) = omega (arith, length-sort xs, length-insert x (sort xs))

module _ {ℓ} {A : Type ℓ} ⦃e : Eq A⦄ (le : A → A → Bool) where
  pub contains-insert_sorted :
      (b a : A) (xs : List A) → contains b (insert_sorted le a xs) ≡ ((a == b) || contains b xs)
  unfolding insert_sorted contains
  contains-insert_sorted b a [] = refl
  contains-insert_sorted b a (x ∷ xs) = ground (arith, contains-insert_sorted b a xs)

  pub contains-sort : (b : A) (xs : List A) → contains b (sort le xs) ≡ contains b xs
  unfolding sort contains
  contains-sort b [] = refl
  contains-sort b (x ∷ xs) =
      ground (arith, contains-sort b xs, contains-insert_sorted b x (sort le xs))

-- `sorted(set(xs))`
unfoldable pub insert_set : String → List String → List String
insert_set a [] = a ∷ []
insert_set a (x ∷ xs) =
    if a == x then x ∷ xs else if text_le a x then a ∷ x ∷ xs else x ∷ insert_set a xs

unfoldable pub sorted_set : List String → List String
unfolding insert_set
sorted_set [] = []
sorted_set (x ∷ xs) = insert_set x (sorted_set xs)

-- Strictly increasing.
abbrev pub Below : String → List String → Type 0
Below x = All (λ y. text_le y x ≡ false)

abbrev pub IsSortedSet : List String → Type 0
IsSortedSet [] = Unit
IsSortedSet (x ∷ xs) = Below x xs × IsSortedSet xs

contains-insert_set :
    (b a : String) (xs : List String) → contains b (insert_set a xs) ≡ ((a == b) || contains b xs)
unfolding insert_set contains
contains-insert_set b a [] = refl
contains-insert_set b a (x ∷ xs) = ground (arith, contains-insert_set b a xs, eq_string.beq_iff a x)

pub contains-sorted_set :
    (b : String) (xs : List String) → contains b (sorted_set xs) ≡ contains b xs
unfolding sorted_set contains
contains-sorted_set b [] = refl
contains-sorted_set b (x ∷ xs) =
    ground (arith, contains-sorted_set b xs, contains-insert_set b x (sorted_set xs))

Below-trans : (a x : String) (xs : List String) → text_le x a ≡ false → Below x xs → Below a xs
Below-trans a x [] h b = tt
Below-trans a x (y ∷ ys) h (p, b) = (lt_trans, Below-trans a x ys h b)
  where
    lt_trans : text_le y a ≡ false
    lt_trans = ground (arith, text_le_trans y a x, text_le_total x a)

Below-insert :
    (x a : String) (xs : List String) → text_le a x ≡ false → Below x xs → Below x (insert_set a xs)
unfolding insert_set
Below-insert x a [] h b = (h, tt)
Below-insert x a (y ∷ ys) h (p, b) = ground (arith, Below-insert x a ys h b)

insert-IsSortedSet :
    (a : String) (xs : List String) → IsSortedSet xs → IsSortedSet (insert_set a xs)
unfolding insert_set
insert-IsSortedSet a [] h = (tt, tt)
insert-IsSortedSet a (x ∷ xs) (b, h) = ground (
  arith,
  insert-IsSortedSet a xs h,
  text_le_antisym a x,
  text_le_total a x,
  eq_string.beq_iff a x,
  Below-trans a x xs,
  Below-insert x a xs,
)

pub sorted_set-IsSortedSet : (xs : List String) → IsSortedSet (sorted_set xs)
unfolding sorted_set
sorted_set-IsSortedSet [] = tt
sorted_set-IsSortedSet (x ∷ xs) = insert-IsSortedSet x (sorted_set xs) (sorted_set-IsSortedSet xs)

Below-not_contains : (x : String) (xs : List String) → Below x xs → contains x xs ≡ false
unfolding contains
Below-not_contains x [] b = refl
Below-not_contains x (y ∷ ys) (p, b) =
    ground (arith, Below-not_contains x ys b, eq_string.beq_iff y x, text_le_refl x)

contains-lt :
    (x y : String) (ys : List String) → Below y ys → contains x ys ≡ true → text_le x y ≡ false
unfolding contains
contains-lt x y [] b c = absurd (ground arith)
contains-lt x y (z ∷ zs) (p, b) c = ground (arith, contains-lt x y zs b, eq_string.beq_iff z x)

same_head :
    (x y : String) (xs ys : List String)
    → Below x xs
    → Below y ys
    → contains x (y ∷ ys) ≡ true
    → contains y (x ∷ xs) ≡ true
    → x ≡ y
unfolding contains
same_head x y xs ys b c p q = ground (
  arith,
  contains-lt x y ys c,
  contains-lt y x xs b,
  text_le_total x y,
  eq_string.beq_iff x y,
  eq_string.beq_iff y x,
)

same_tail :
    (x a : String) (xs ys : List String)
    → Below x xs
    → Below x ys
    → contains a (x ∷ xs) ≡ contains a (x ∷ ys)
    → contains a xs ≡ contains a ys
unfolding contains
same_tail x a xs ys b c same =
    ground (arith, Below-not_contains x xs b, Below-not_contains x ys c, eq_string.beq_iff x a)

-- Two sorted sets with the same members are equal.
pub sorted_set_ext :
    (xs ys : List String)
    → IsSortedSet xs
    → IsSortedSet ys
    → ((a : String) → contains a xs ≡ contains a ys)
    → xs ≡ ys
sorted_set_ext [] [] h k same = refl
sorted_set_ext [] (y ∷ ys) h k same = absurd (unfold contains in ground (arith, same y, beq_refl y))
sorted_set_ext (x ∷ xs) [] h k same = absurd (unfold contains in ground (arith, same x, beq_refl x))
sorted_set_ext (x ∷ xs) (y ∷ ys) (b, h) (c, k) same =
    let head : x ≡ y =
      same_head x y xs ys b c (sym (same x) ∙ unfold contains in ground (arith, beq_refl x))
        (same y ∙ unfold contains in ground (arith, beq_refl y)) in
    let c' : Below x ys = rw head c in
    ap₂ (λ a zs. a ∷ zs) head
      (sorted_set_ext xs ys h k
        (λ a. same_tail x a xs ys b c' (same a ∙ ap (λ z. contains a (z ∷ ys)) (sym head))))
