-- ===== src/Prelude/Earliest.antt =====
-- The first row of a list in an order of times, where ties are broken in some way.
use mathlib.Core.Path.{◌≡◌, refl, ap}
use mathlib.Core.Logic.{◌⊎◌, inl, inr}
use mathlib.Core.Bool.{Bool, true, false}
use mathlib.Core.Option.{Option, none, some}
use mathlib.Core.List.{List, [], ◌∷◌, Memᴰ}
use mathlib.Core.List.Memᴰ.{head, tail, not-nil}
use Prim.Native.Nat.{ℕ, ◌≤◌}
use native.Mathlib.Omega.{arith}
use ascension_watchdog.Prelude.Tests.{if◌then◌else◌, Bool-cases}
use ascension_watchdog.Prelude.Lists.{All, keep_where}
use ascension_watchdog.Prelude.Members.{mem-keep_where, keep_where-mem}

module _ {A : Type 0} where
  abbrev sooner : (A → A → Bool) → A → Option A → A
  sooner before x none = x
  sooner before x (some y) = if before y x then y else x

  -- The first element: `ORDER BY` with `LIMIT 1`.
  abbrev pub earliest_by : (A → A → Bool) → List A → Option A
  earliest_by before [] = none
  earliest_by before (x ∷ xs) = some (sooner before x (earliest_by before xs))

  All-mem : (P : A → Type 0) (xs : List A) → ((x : A) → Memᴰ x xs → P x) → All P xs
  All-mem P [] each = tt
  All-mem P (x ∷ xs) each = (each x (head refl), All-mem P xs (λ y m. each y (tail m)))

  -- An element of the list that is chosen, where every other is passed over or not before it.
  pub record IsEarliest (Chosen Skipped : A → Type 0) (at : A → ℕ) (xs : List A) (x : A)
      : Type 0 where
    pub chosen : Chosen x
    pub stored : Memᴰ x xs
    pub earliest : All (λ other. Skipped other ⊎ (at x ≤ at other)) xs

  pub earliest_by-none :
      (Skipped : A → Type 0) (before : A → A → Bool) (passes : A → Bool) (xs : List A)
      → ((y : A) → passes y ≡ false → Skipped y)
      → earliest_by before (keep_where passes xs) ≡ none
      → All Skipped xs
  earliest_by-none Skipped before passes [] skipped h = tt
  earliest_by-none Skipped before passes (x ∷ xs) skipped h = elim (Bool-cases (passes x)) [
    | inl e ↦ cc (rw e at h)
    | inr e ↦ (skipped x e, earliest_by-none Skipped before passes xs skipped (rw e at h))
  ]

module _ {A : Type 0} (before : A → A → Bool) (at : A → ℕ)
    (first : (x y : A) → before y x ≡ true → at y ≤ at x)
    (second : (x y : A) → before y x ≡ false → at x ≤ at y) where
  sooner-is :
      (x y : A) {z : A}
      → ◌≡◌ {A = Option A} (some (if before y x then y else x)) (some z)
      → ((z ≡ y) × (at y ≤ at x)) ⊎ ((z ≡ x) × (at x ≤ at y))
  sooner-is x y h = elim (Bool-cases (before y x)) [
    | inl b ↦ inl (cc (rw b at h), first x y b)
    | inr b ↦ inr (cc (rw b at h), second x y b)
  ]

  earliest_by-mem : (xs : List A) {z : A} → earliest_by before xs ≡ some z → Memᴰ z xs
  earliest_by-mem [] h = cc
  earliest_by-mem (x ∷ []) h = head (cc h)
  earliest_by-mem (x ∷ y ∷ xs) h =
      let rest = earliest_by-mem (y ∷ xs) refl in
      elim (sooner-is x _ h) [ inl (e, _) ↦ tail (rw e rest) | inr (e, _) ↦ head e ]

  earliest_by-le :
      (xs : List A) {z : A} (other : A)
      → earliest_by before xs ≡ some z
      → Memᴰ other xs
      → at z ≤ at other
  earliest_by-le [] other h m = absurd (not-nil m)
  earliest_by-le (x ∷ []) {z = z} other h (head e) =
      let same : x ≡ z = cc h in omega (arith, ap at e, ap at same)
  earliest_by-le (x ∷ []) other h (tail m) = absurd (not-nil m)
  earliest_by-le (x ∷ y ∷ xs) other h (head e) = elim (sooner-is x _ h) [
    | inl (is, le) ↦ omega (arith, ap at e, ap at is, le)
    | inr (is, le) ↦ omega (arith, ap at e, ap at is, le)
  ]
  earliest_by-le (x ∷ y ∷ xs) other h (tail m) =
      let rest = earliest_by-le (y ∷ xs) other refl m in
      elim (sooner-is x _ h) [
        | inl (is, le) ↦ omega (arith, rest, ap at is, le)
        | inr (is, le) ↦ omega (arith, rest, ap at is, le)
      ]

  pub earliest_by-IsEarliest :
      (Chosen Skipped : A → Type 0) (passes : A → Bool) (xs : List A) {x : A}
      → ((y : A) → passes y ≡ true → Chosen y)
      → ((y : A) → passes y ≡ false → Skipped y)
      → earliest_by before (keep_where passes xs) ≡ some x
      → IsEarliest Chosen Skipped at xs x
  earliest_by-IsEarliest Chosen Skipped passes xs {x = x} chosen skipped h =
      let (passed, stored) = mem-keep_where passes _ xs (earliest_by-mem _ h) in
      record {
        chosen = chosen x passed;
        stored = stored;
        earliest = All-mem _ xs (λ other m. elim (Bool-cases (passes other)) [
          | inl e ↦ inr (earliest_by-le _ other h (keep_where-mem passes other xs m e))
          | inr e ↦ inl (skipped other e)
        ]);
      }
