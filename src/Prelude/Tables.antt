-- ===== src/Prelude/Tables.antt =====
-- A database table as the list of its rows, and the statements that the stores run on it.
use mathlib.Core.Option
use Prim.Native.Nat.{ℕ}
use Prim.Native.String.{String}
use text.Mathlib.Text.{◌==◌ as str_eq}
use mathlib.Core.Path.{◌≡◌, refl}
use mathlib.Core.Bool.{Bool, true, false}
use mathlib.Core.Option.{Option, none, some}
use mathlib.Core.List.{List, [], ◌∷◌, map}
use native.Mathlib.Omega.{arith}
use inference_engine.Prelude.Tests.{if◌then◌else◌, not, ltb}
use inference_engine.Prelude.Lists.{filter, find}

module _ {ℓ} {A : Type ℓ} where
  abbrev pub set_if : (A → Bool) → (A → A) → A → A
  set_if p f x = if p x then f x else x

  -- `UPDATE … SET … WHERE p`
  abbrev pub update_where : (A → Bool) → (A → A) → List A → List A
  update_where p f = map (set_if p f)

  -- `DELETE … WHERE p`
  abbrev pub delete_where : (A → Bool) → List A → List A
  delete_where p = filter (λ x. not (p x))

  pub find-map :
      (p : A → Bool) (g : A → A) (xs : List A)
      → ((x : A) → p (g x) ≡ p x)
      → find p (map g xs) ≡ Option.map g (find p xs)
  find-map p g [] h = refl
  find-map p g (x ∷ xs) h = ground (arith, h x, find-map p g xs h)

  -- `ORDER BY key DESC LIMIT 1`: the first of the rows with the greatest key.
  abbrev pub latest_from : (A → ℕ) → A → List A → A
  latest_from key m [] = m
  latest_from key m (x ∷ xs) = latest_from key (if ltb (key m) (key x) then x else m) xs

  abbrev pub latest : (A → ℕ) → List A → Option A
  latest key [] = none
  latest key (x ∷ xs) = some (latest_from key x xs)

-- `if text:`: neither None nor the empty text.
abbrev pub truthy : Option String → Option String
truthy none = none
truthy (some s) = if str_eq s "" then none else some s

-- `column = ?` against a column that may be NULL.
abbrev pub eq_text : Option String → String → Bool
eq_text none s = false
eq_text (some t) s = str_eq t s

abbrev pub is_null {ℓ} : {A : Type ℓ} → Option A → Bool
is_null none = true
is_null (some a) = false
