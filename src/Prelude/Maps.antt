-- ===== src/Prelude/Maps.antt =====
-- A dictionary with text keys, as the list of its entries with distinct keys.

use Prim.Native.String.{String}
use text.Mathlib.Text.{◌==◌ as str_eq}
use text.Mathlib.TextEquality.{eq_iff as str_eq_iff}
use mathlib.Core.Path.{◌≡◌, refl}
use mathlib.Core.Logic.{inl, inr}
use mathlib.Core.Bool.{true, false}
use mathlib.Core.Option.{Option, none, some}
use mathlib.Core.List.{List, [], ◌∷◌}
use inference_engine.Prelude.Tests.{if◌then◌else◌, Bool-cases}

module _ {ℓ} {V : Type ℓ} where
  -- `d.get(key)`
  abbrev pub dict_get : String → List (String × V) → Option V
  dict_get k [] = none
  dict_get k ((x, v) ∷ d) = if str_eq x k then some v else dict_get k d

  -- `d[key] = value`
  abbrev pub dict_put : String → V → List (String × V) → List (String × V)
  dict_put k v [] = (k, v) ∷ []
  dict_put k v ((x, w) ∷ d) = if str_eq x k then (x, v) ∷ d else (x, w) ∷ dict_put k v d

  -- `d.pop(key, None)`: the entries of the key go.
  abbrev pub dict_pop : String → List (String × V) → List (String × V)
  dict_pop k [] = []
  dict_pop k ((x, w) ∷ d) = let rest = dict_pop k d in if str_eq x k then rest else (x, w) ∷ rest

pub str_eq_self : (s : String) → str_eq s s ≡ true
str_eq_self s = (str_eq_iff s s).1 refl

-- Two keys told apart are apart from one key: a key equal to one is not equal to the other.
pub str_eq-apart : (x k j : String) → str_eq k j ≡ false → str_eq x k ≡ true → str_eq x j ≡ false
str_eq-apart x k j h e = rw ((str_eq_iff x k).0 e) h

module _ {ℓ} {V : Type ℓ} where
  pub dict_get-put :
      (k : String) (v : V) (d : List (String × V)) → dict_get k (dict_put k v d) ≡ some v
  dict_get-put k v [] = rw (str_eq_self k) refl
  dict_get-put k v ((x, w) ∷ d) = elim (Bool-cases (str_eq x k)) [
    | inl e ↦ rw (e, e) refl
    | inr e ↦ rw (e, e) (dict_get-put k v d)
  ]

  pub dict_get-put_other :
      (k j : String) (v : V) (d : List (String × V))
      → str_eq k j ≡ false
      → dict_get j (dict_put k v d) ≡ dict_get j d
  dict_get-put_other k j v [] h = rw h refl
  dict_get-put_other k j v ((x, w) ∷ d) h = elim (Bool-cases (str_eq x k)) [
    | inl e ↦ rw (e, str_eq-apart x k j h e) refl
    | inr e ↦ elim (Bool-cases (str_eq x j)) [
      | inl i ↦ rw (e, i) refl
      | inr i ↦ rw (e, i) (dict_get-put_other k j v d h)
    ]
  ]

  pub dict_get-pop : (k : String) (d : List (String × V)) → dict_get k (dict_pop k d) ≡ none
  dict_get-pop k [] = refl
  dict_get-pop k ((x, w) ∷ d) = elim (Bool-cases (str_eq x k)) [
    | inl e ↦ rw e (dict_get-pop k d)
    | inr e ↦ rw (e, e) (dict_get-pop k d)
  ]

  pub dict_get-pop_other :
      (k j : String) (d : List (String × V))
      → str_eq k j ≡ false
      → dict_get j (dict_pop k d) ≡ dict_get j d
  dict_get-pop_other k j [] h = refl
  dict_get-pop_other k j ((x, w) ∷ d) h = elim (Bool-cases (str_eq x k)) [
    | inl e ↦ rw (e, str_eq-apart x k j h e) (dict_get-pop_other k j d h)
    | inr e ↦ elim (Bool-cases (str_eq x j)) [
      | inl i ↦ rw (e, i) refl
      | inr i ↦ rw (e, i) (dict_get-pop_other k j d h)
    ]
  ]
