-- ===== src/Base/Membership.antt =====
-- Membership in a list as a witness, and predicates on every element, through the list functions.
use Prim.Native.Nat.{ℕ, zero, suc, ◌≤◌}
use mathlib.Core.Path.{◌≡◌, refl, ap, sym, subst, ◌∙◌}
use mathlib.Core.Logic.{◌⊎◌, inl, inr}
use mathlib.Core.Bool.{Bool, true}
use mathlib.Core.List.{List, [], ◌∷◌, map}
use native.Mathlib.Omega.{arith}
use zappermeow.Base.Tests.{◌==◌, ==_iff, Bool-cases}
use zappermeow.Base.Lists.{select, All, take, elem, length}

module _ {A : Type 0} where
  abbrev pub In : A → List A → Type 0
  In a [] = ⊥
  In a (x ∷ xs) = (a ≡ x) ⊎ In a xs

  All-In : (P : A → Type 0) (xs : List A) (a : A) → All P xs → In a xs → P a
  All-In P (x ∷ xs) a (p, ps) (inl e) = subst P (sym e) p
  All-In P (x ∷ xs) a (p, ps) (inr i) = All-In P xs a ps i
  All-In P [] a h i = absurd i

  All-of_In : (P : A → Type 0) (xs : List A) → ((a : A) → In a xs → P a) → All P xs
  All-of_In P [] h = tt
  All-of_In P (x ∷ xs) h = (h x (inl refl), All-of_In P xs (λ a i. h a (inr i)))

  -- The elements that a selection keeps are those that pass its test.
  pub In-select : (p : A → Bool) (xs : List A) (a : A) → In a (select p xs) → In a xs × (p a ≡ true)
  In-select p [] a i = absurd i
  In-select p (x ∷ xs) a i = elim (Bool-cases (p x)) [
    | inl pass ↦ kept (In-select p xs a) pass (rw pass at i)
    | inr fail ↦ let (j, q) = In-select p xs a (rw fail at i) in (inr j, q)
  ]
    where
      kept :
          (In a (select p xs) → In a xs × (p a ≡ true))
          → p x ≡ true
          → In a (x ∷ select p xs)
          → In a (x ∷ xs) × (p a ≡ true)
      kept ih pass (inl e) = (inl e, ap p e ∙ pass)
      kept ih pass (inr j) = let (k, q) = ih j in (inr k, q)

  pub In-select_of :
      (p : A → Bool) (xs : List A) (a : A) → In a xs → p a ≡ true → In a (select p xs)
  In-select_of p [] a i pass = absurd i
  In-select_of p (x ∷ xs) a (inl e) pass = rw (sym (ap p e) ∙ pass) (inl e)
  In-select_of p (x ∷ xs) a (inr i) pass = elim (Bool-cases (p x)) [
    | inl kept ↦ rw kept (inr (In-select_of p xs a i pass))
    | inr gone ↦ rw gone (In-select_of p xs a i pass)
  ]

  pub In-take : (n : ℕ) (xs : List A) (a : A) → In a (take n xs) → In a xs
  In-take zero xs a i = absurd i
  In-take (suc n) [] a i = absurd i
  In-take (suc n) (x ∷ xs) a (inl e) = inl e
  In-take (suc n) (x ∷ xs) a (inr i) = inr (In-take n xs a i)

  pub take_all : (n : ℕ) (xs : List A) → length xs ≤ n → take n xs ≡ xs
  take_all zero [] h = refl
  take_all (suc n) [] h = refl
  take_all zero (x ∷ xs) h = absurd (omega arith)
  take_all (suc n) (x ∷ xs) h = ap (◌∷◌ x) (take_all n xs (omega arith))

module _ {A B : Type 0} (f : A → B) where
  pub In-map : (xs : List A) (b : B) → In b (map f xs) → (a : A) × In a xs × (b ≡ f a)
  In-map [] b i = absurd i
  In-map (x ∷ xs) b (inl e) = (x, inl refl, e)
  In-map (x ∷ xs) b (inr i) = let (a, j, e) = In-map xs b i in (a, inr j, e)

  pub In-map_of : (xs : List A) (a : A) → In a xs → In (f a) (map f xs)
  In-map_of [] a i = absurd i
  In-map_of (x ∷ xs) a (inl e) = inl (ap f e)
  In-map_of (x ∷ xs) a (inr i) = inr (In-map_of xs a i)

pub elem→In : (a : ℕ) (xs : List ℕ) → elem a xs ≡ true → In a xs
elem→In a [] h = cc
elem→In a (x ∷ xs) h = elim (Bool-cases (x == a)) [
  | inl e ↦ inl (sym ((==_iff x a).0 e))
  | inr e ↦ inr (elem→In a xs (rw e at h))
]

pub In→elem : (a : ℕ) (xs : List ℕ) → In a xs → elem a xs ≡ true
In→elem a [] i = absurd i
In→elem a (x ∷ xs) (inl e) = ground arith
In→elem a (x ∷ xs) (inr i) = ground (arith, In→elem a xs i)
