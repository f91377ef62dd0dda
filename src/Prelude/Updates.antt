-- ===== src/Prelude/Updates.antt =====
-- Searches of a list after an update of some of its elements.
use mathlib.Core.Path.{◌≡◌, refl, ap}
use mathlib.Core.Logic.{inl, inr}
use mathlib.Core.Bool.{Bool, true}
use mathlib.Core.List.{List, [], ◌∷◌, ◌++◌}
use mathlib.Core.Option.{some}
use native.Mathlib.Omega.{arith}
use ascension_watchdog.Prelude.Tests.{if◌then◌else◌, Bool-cases}
use ascension_watchdog.Prelude.Lists.{count_where, keep_where, find_where, update_where}

module _ {ℓ} {A : Type ℓ} (p q : A → Bool) (f : A → A) where
  -- The first element that passes `p` passes `q` too, and the update keeps `p`.
  pub find_where-update :
      ((x : A) → p (f x) ≡ p x)
      → (xs : List A) {r : A} → find_where p xs ≡ some r
      → q r ≡ true
      → find_where p (update_where q f xs) ≡ some (f r)
  find_where-update keeps [] h t = cc
  find_where-update keeps (x ∷ xs) {r = r} h t = elim (Bool-cases (p x)) [
    | inl e ↦ let same : x ≡ r = cc (rw e at h) in rw (same, t, keeps r) (rw (← same, e) refl)
    | inr e ↦
        let rest = find_where-update keeps xs (rw e at h) t in
        elim (Bool-cases (q x)) [ inl u ↦ rw (u, keeps x, e) rest | inr u ↦ rw (u, e) rest ]
  ]

  keep_where-update_none :
      (xs : List A)
      → count_where p xs ≡ 0
      → count_where q xs ≡ 0
      → keep_where p (update_where q f xs) ≡ []
  keep_where-update_none [] h z = refl
  keep_where-update_none (x ∷ xs) h z = ground (arith, keep_where-update_none xs)

  -- One element is updated, and passes `p` after where none did before.
  pub keep_where-update_one :
      ((x : A) → q x ≡ true → p (f x) ≡ true)
      → (xs : List A) → count_where p xs ≡ 0
      → count_where q xs ≡ 1
      → (x : A) × (q x ≡ true) × (keep_where p (update_where q f xs) ≡ f x ∷ [])
  keep_where-update_one to [] h z = absurd (omega arith)
  keep_where-update_one to (x ∷ xs) h z = elim (Bool-cases (q x)) [
    | inl u ↦ (
      x,
      u,
      rw (u, to x u)
          (ap (λ ys. f x ∷ ys) (keep_where-update_none xs (ground arith) (ground arith))),
    )
    | inr u ↦
        let (y, v, e) = keep_where-update_one to xs (ground arith) (ground arith) in
        (y, v, ground (arith, e))
  ]

pub find_where-holds {ℓ} :
    {A : Type ℓ} (p : A → Bool) (xs : List A) {r : A} → find_where p xs ≡ some r → p r ≡ true
find_where-holds p [] h = cc
find_where-holds p (x ∷ xs) {r = r} h = elim (Bool-cases (p x)) [
  | inl e ↦ let same : x ≡ r = cc (rw e at h) in rw (← same) e
  | inr e ↦ find_where-holds p xs (rw e at h)
]

pub find_where-append_last {ℓ} :
    {A : Type ℓ} (p : A → Bool) (xs : List A) (y : A)
    → count_where p xs ≡ 0
    → p y ≡ true
    → find_where p (xs ++ y ∷ []) ≡ some y
find_where-append_last p [] y h t = rw t refl
find_where-append_last p (x ∷ xs) y h t = ground (arith, find_where-append_last p xs y)

pub find_where-append {ℓ} :
    {A : Type ℓ} (p : A → Bool) (xs ys : List A) {r : A}
    → find_where p xs ≡ some r
    → find_where p (xs ++ ys) ≡ some r
find_where-append p [] ys h = cc
find_where-append p (x ∷ xs) ys h = elim (Bool-cases (p x)) [
  | inl e ↦ rw e (rw e at h)
  | inr e ↦ rw e (find_where-append p xs ys (rw e at h))
]

-- An update that keeps `p` where it acts finds the same element, updated if it is.
pub find_where-update_kept {ℓ} :
    {A : Type ℓ} (p q : A → Bool) (f : A → A)
    → ((x : A) → q x ≡ true → p (f x) ≡ p x)
    → (xs : List A) {r : A} → find_where p xs ≡ some r
    → find_where p (update_where q f xs) ≡ some (if q r then f r else r)
find_where-update_kept p q f keeps [] h = cc
find_where-update_kept p q f keeps (x ∷ xs) {r = r} h = elim (Bool-cases (q x)) [
  | inl u ↦ elim (Bool-cases (p x)) [
    | inl e ↦ let is : x ≡ r = cc (rw e at h) in rw (← is, u, keeps x u, e) refl
    | inr e ↦ rw (u, keeps x u, e) (find_where-update_kept p q f keeps xs (rw e at h))
  ]
  | inr u ↦ elim (Bool-cases (p x)) [
    | inl e ↦ let is : x ≡ r = cc (rw e at h) in rw (← is, u, e) refl
    | inr e ↦ rw (u, e) (find_where-update_kept p q f keeps xs (rw e at h))
  ]
]
