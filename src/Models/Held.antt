-- ===== src/Models/Held.antt =====
-- The row of an owned download under the statements of engine/models/registry.py and under the imports'
-- reservations.
use mathlib.Core.Option
use inference_engine.Prelude.{
  ℕ, ◌≡◌, ◌≢◌, refl, sym, ap, ◌∙◌, Bool, false, not, none, some, List, [], ◌∷◌, ◌++◌, String,
  str_eq, str_eq_iff, Text, text_eq, any, find, In, filter-In, append-In, set_if, find-map, map,
  Bool-cases, inl, inr, arith, delete_where,
}
use inference_engine.Models.Registry.{ModelRecord, NewModel, row_of, create, has_id, get, delete}
use inference_engine.Models.Owned.{Holds}

find-append-some :
    (p : ModelRecord → Bool) (xs ys : List ModelRecord) (a : ModelRecord)
    → find p xs ≡ some a
    → find p (xs ++ ys) ≡ some a
find-append-some p [] ys a h = absurd cc
find-append-some p (x ∷ xs) ys a h = ground (arith, h, find-append-some p xs ys a)

pub find-append-none :
    (p : ModelRecord → Bool) (xs ys : List ModelRecord)
    → find p xs ≡ none
    → find p (xs ++ ys) ≡ find p ys
find-append-none p [] ys h = refl
find-append-none p (x ∷ xs) ys h = ground (arith, h, find-append-none p xs ys)

-- An update of the rows that keeps their ids and paths
abbrev pub Keeps : (ModelRecord → ModelRecord) → Type 0
Keeps g = (r : ModelRecord) → ((g r).id ≡ r.id) × ((g r).path ≡ r.path)

pub set_if-Keeps :
    (p : ModelRecord → Bool) (g : ModelRecord → ModelRecord) → Keeps g → Keeps (set_if p g)
set_if-Keeps p g k r = elim (Bool-cases (p r)) [ inl e ↦ rw e (k r) | inr e ↦ rw e (refl, refl) ]

map-In :
    (g : ModelRecord → ModelRecord) (q : ModelRecord) (rows : List ModelRecord)
    → In q (map g rows)
    → (r : ModelRecord) × In r rows × (q ≡ g r)
map-In g q [] m = elim m [ ]
map-In g q (r ∷ rows) (inl e) = (r, inl refl, e)
map-In g q (r ∷ rows) (inr m) = let h = map-In g q rows m in (h.0, inr h.1, h.2)

pub find-delete_other :
    (i j : String) (rows : List ModelRecord)
    → str_eq i j ≡ false
    → get j (delete_where (has_id i) rows) ≡ get j rows
find-delete_other i j [] h = refl
find-delete_other i j (r ∷ rows) h = elim (Bool-cases (str_eq r.id i)) [
  | inl e ↦
      let other : str_eq r.id j ≡ false = rw ((str_eq_iff r.id i).0 e) h in
      rw (e, other) (find-delete_other i j rows h)
  | inr e ↦ rw e (elim (Bool-cases (str_eq r.id j)) [
    | inl k ↦ rw k refl
    | inr k ↦ rw k (find-delete_other i j rows h)
  ])
]

module _ (path_key : Text → Text) (rows : List ModelRecord) (imports : List Text) (i : String)
    (key : Text) (h : Holds path_key rows imports i key) where
  pub Holds-map :
      (g : ModelRecord → ModelRecord) → Keeps g → Holds path_key (map g rows) imports i key
  Holds-map g k = record {
    row = g h.row;
    found =
        find-map (has_id i) g rows (λ r. ap (λ j. str_eq j i) (k r).0) ∙ ap (Option.map g) h.found;
    keyed = h.keyed ∙ ap path_key (sym (k h.row).1);
    alone = λ q m e.
        let b = map-In g q rows m in
        ap (λ r. r.id) b.2
        ∙ (k b.0).0
        ∙ h.alone b.0 b.1 (sym (k b.0).1 ∙ sym (ap (λ r. r.path) b.2) ∙ e ∙ (k h.row).1);
    unreserved = h.unreserved;
  }

  pub Holds-create :
      (j : String) (now : ℕ) (m : NewModel)
      → m.path ≢ h.row.path
      → Holds path_key (create j now m rows) imports i key
  Holds-create j now m apart = record {
    row = h.row;
    found = find-append-some (has_id i) rows (row_of j now m ∷ []) h.row h.found;
    keyed = h.keyed;
    alone = λ q n e. elim (append-In q rows (row_of j now m ∷ []) n) [
      | inl old ↦ h.alone q old e
      | inr (inl new) ↦ absurd (apart (ap (λ r. r.path) (sym new) ∙ e))
      | inr (inr none_left) ↦ absurd none_left
    ];
    unreserved = h.unreserved;
  }

  pub Holds-delete :
      (j : String) → str_eq j i ≡ false → Holds path_key (delete j rows).0 imports i key
  Holds-delete j other = record {
    row = h.row;
    found = find-delete_other j i rows other ∙ h.found;
    keyed = h.keyed;
    alone = λ q n e. h.alone q (filter-In (λ r. not (has_id j r)) q rows n).0 e;
    unreserved = h.unreserved;
  }

  pub Holds-imports :
      (imports' : List Text)
      → any (text_eq key) imports' ≡ false
      → Holds path_key rows imports' i key
  Holds-imports imports' e = record {
    row = h.row;
    found = h.found;
    keyed = h.keyed;
    alone = h.alone;
    unreserved = e;
  }
