-- ===== src/Prelude/Members.antt =====
-- Members of a filtered list.
use mathlib.Core.Path.{◌≡◌, subst}
use mathlib.Core.Logic.{inl, inr}
use mathlib.Core.Bool.{Bool, true}
use mathlib.Core.List.{List, [], ◌∷◌, Memᴰ}
use mathlib.Core.List.Memᴰ.{head, tail, not-nil}
use mathlib.Core.Path.{ap, ◌∙◌}
use ascension_watchdog.Prelude.Tests.{if◌then◌else◌, Bool-cases}
use ascension_watchdog.Prelude.Lists.{keep_where}

module _ {ℓ} {A : Type ℓ} (p : A → Bool) where
  pub mem-keep_where : (x : A) (xs : List A) → Memᴰ x (keep_where p xs) → (p x ≡ true) × Memᴰ x xs
  mem-keep_where x [] m = absurd (not-nil m)
  mem-keep_where x (y ∷ ys) m = elim (Bool-cases (p y)) [
    | inl h ↦
        elim (subst (λ (t : Bool). Memᴰ x (if t then y ∷ keep_where p ys else keep_where p ys)) h
          m) [
            | head e ↦ (ap p e ∙ h, head e)
            | tail m' ↦ let (q, in_rest) = mem-keep_where x ys m' in (q, tail in_rest)
          ]
    | inr h ↦
        let m' =
          subst (λ (t : Bool). Memᴰ x (if t then y ∷ keep_where p ys else keep_where p ys)) h m in
        let (q, in_rest) = mem-keep_where x ys m' in (q, tail in_rest)
  ]

  pub keep_where-mem : (x : A) (xs : List A) → Memᴰ x xs → p x ≡ true → Memᴰ x (keep_where p xs)
  keep_where-mem x [] m h = absurd (not-nil m)
  keep_where-mem x (y ∷ ys) (head e) h = rw (← ap p e, h) (head e)
  keep_where-mem x (y ∷ ys) (tail m) h = elim (Bool-cases (p y)) [
    | inl t ↦ rw t (tail (keep_where-mem x ys m h))
    | inr f ↦ rw f (keep_where-mem x ys m h)
  ]
