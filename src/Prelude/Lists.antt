-- ===== src/Prelude/Lists.antt =====
-- Lists measured and searched by native numbers and Boolean tests.
use Prim.Native.Nat.{ℕ, suc, ◌+◌, ◌≤◌}
use mathlib.Core.Path.{◌≡◌, refl}
use mathlib.Core.Bool.{Bool, true, false, ◌&&◌, ◌||◌}
use mathlib.Core.List.{List, [], ◌∷◌, ◌++◌}
use mathlib.Core.Option.{Option, none, some}
use native.Mathlib.Omega.{arith}
use ascension_watchdog.Prelude.Tests.{if◌then◌else◌}

module _ {ℓ} {A : Type ℓ} where
  abbrev pub length : List A → ℕ
  length [] = 0
  length (x ∷ xs) = suc (length xs)

  -- How many elements pass a test.
  abbrev pub count_where : (A → Bool) → List A → ℕ
  count_where p [] = 0
  count_where p (x ∷ xs) = (if p x then 1 else 0) + count_where p xs

  -- The elements that pass a test, in their order.
  abbrev pub keep_where : (A → Bool) → List A → List A
  keep_where p [] = []
  keep_where p (x ∷ xs) = let rest = keep_where p xs in if p x then x ∷ rest else rest

  -- The first element that passes a test.
  abbrev pub find_where : (A → Bool) → List A → Option A
  find_where p [] = none
  find_where p (x ∷ xs) = let rest = find_where p xs in if p x then some x else rest

  abbrev pub all_where : (A → Bool) → List A → Bool
  all_where p [] = true
  all_where p (x ∷ xs) = p x && all_where p xs

  -- `f` at the elements that pass a test, the others as they are.
  abbrev pub update_where : (A → Bool) → (A → A) → List A → List A
  update_where p f [] = []
  update_where p f (x ∷ xs) = (if p x then f x else x) ∷ update_where p f xs

-- A predicate at every element; it computes to nested pairs.
abbrev pub All {ℓ κ} : {A : Type ℓ} → (A → Type κ) → List A → Type κ
All P [] = Unit
All P (x ∷ xs) = P x × All P xs

module _ {ℓ} {A : Type ℓ} where
  pub length-append : (xs ys : List A) → length (xs ++ ys) ≡ length xs + length ys
  length-append [] ys = omega arith
  length-append (x ∷ xs) ys = omega (arith, length-append xs ys)

  pub length-keep_where : (p : A → Bool) (xs : List A) → length (keep_where p xs) ≡ count_where p xs
  length-keep_where p [] = refl
  length-keep_where p (x ∷ xs) = ground (arith, length-keep_where p xs)

  pub count_where-le-length : (p : A → Bool) (xs : List A) → count_where p xs ≤ length xs
  count_where-le-length p [] = omega arith
  count_where-le-length p (x ∷ xs) = ground (arith, count_where-le-length p xs)

  pub length-update_where :
      (p : A → Bool) (f : A → A) (xs : List A) → length (update_where p f xs) ≡ length xs
  length-update_where p f [] = refl
  length-update_where p f (x ∷ xs) = ground (arith, length-update_where p f xs)

  pub count_where-append :
      (p : A → Bool) (xs ys : List A)
      → count_where p (xs ++ ys) ≡ count_where p xs + count_where p ys
  count_where-append p [] ys = omega arith
  count_where-append p (x ∷ xs) ys = ground (arith, count_where-append p xs ys)

-- How an update of the elements that pass `p` moves the count of those that pass `q`.
module _ {ℓ} {A : Type ℓ} (p q : A → Bool) (f : A → A) where
  pub count_where-update_drop :
      ((x : A) → p x ≡ true → q x ≡ true)
      → ((x : A) → p x ≡ true → q (f x) ≡ false)
      → (xs : List A) → count_where q (update_where p f xs) + count_where p xs ≡ count_where q xs
  count_where-update_drop was is [] = omega arith
  count_where-update_drop was is (x ∷ xs) =
      ground (arith, was x, is x, count_where-update_drop was is xs)

  pub count_where-update_gain :
      ((x : A) → p x ≡ true → q x ≡ false)
      → ((x : A) → p x ≡ true → q (f x) ≡ true)
      → (xs : List A) → count_where q (update_where p f xs) ≡ count_where q xs + count_where p xs
  count_where-update_gain was is [] = omega arith
  count_where-update_gain was is (x ∷ xs) =
      ground (arith, was x, is x, count_where-update_gain was is xs)

  pub count_where-update_same :
      ((x : A) → p x ≡ true → q (f x) ≡ q x)
      → (xs : List A) → count_where q (update_where p f xs) ≡ count_where q xs
  count_where-update_same same [] = refl
  count_where-update_same same (x ∷ xs) = ground (arith, same x, count_where-update_same same xs)

  pub count_where-update_le :
      ((x : A) → p x ≡ true → q (f x) ≡ true → q x ≡ true)
      → (xs : List A) → count_where q (update_where p f xs) ≤ count_where q xs
  count_where-update_le was [] = omega arith
  count_where-update_le was (x ∷ xs) = ground (arith, was x, count_where-update_le was xs)

module _ {ℓ} {A : Type ℓ} (p q : A → Bool) where
  pub count_where-or_zero :
      (xs : List A)
      → count_where (λ x. p x || q x) xs ≡ 0
      → (count_where p xs ≡ 0) × (count_where q xs ≡ 0)
  count_where-or_zero [] h = (refl, refl)
  count_where-or_zero (x ∷ xs) h = ground (arith, count_where-or_zero xs)

  -- A filter that keeps what passes `p` keeps its count.
  pub count_where-keep_where :
      ((x : A) → p x ≡ true → q x ≡ true)
      → (xs : List A) → count_where p (keep_where q xs) ≡ count_where p xs
  count_where-keep_where kept [] = refl
  count_where-keep_where kept (x ∷ xs) = ground (arith, kept x, count_where-keep_where kept xs)

  pub count_where_mono :
      (xs : List A) → All (λ x. p x ≡ true → q x ≡ true) xs → count_where p xs ≤ count_where q xs
  count_where_mono [] h = omega arith
  count_where_mono (x ∷ xs) h = ground (arith, h.0, count_where_mono xs h.1)
