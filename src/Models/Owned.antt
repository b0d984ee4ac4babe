-- ===== src/Models/Owned.antt =====
-- What the service owns (engine/models/service.py): each id is in all three dictionaries or in none,
-- and an owned download has its row, whose file nothing else has.
use inference_engine.Prelude.{
  ◌≡◌, refl, sym, Bool, true, false, Option, none, some, List, [], ◌∷◌, String, Text, text_eq, any,
  find, In, dict_get, Bool-cases, inl, inr, some_inj,
}
use inference_engine.Models.Download.{CancelEvent, request}
use inference_engine.Models.Registry.{ModelRecord, get}
use inference_engine.Models.Tasks.{Task, unstarted, fetching, finalizing, dropped, Service}

-- The flag of a task: it is committed exactly from the promotion on, and then it is not set.
abbrev pub Agrees : CancelEvent → Task → Type 0
Agrees c unstarted = c.committed ≡ false
Agrees c (fetching seen) = c.committed ≡ false
Agrees c (finalizing digest) = (c.committed ≡ true) × (c.is_set ≡ false)
Agrees c dropped = c.committed ≡ false

-- The row of a download with this destination key: no other row has its path, and no import its key.
pub record Holds (path_key : Text → Text) (rows : List ModelRecord) (imports : List Text)
    (i : String) (key : Text) : Type 0 where
  pub row : ModelRecord
  pub found : get i rows ≡ some row
  pub keyed : key ≡ path_key row.path
  pub alone : (q : ModelRecord) → In q rows → q.path ≡ row.path → q.id ≡ i
  pub unreserved : any (text_eq key) imports ≡ false

-- What the three dictionaries have at an id
abbrev pub Slot :
    (Text → Text)
    → List ModelRecord
    → List Text
    → String
    → Option CancelEvent
    → Option Task
    → Option Text
    → Type 0
Slot path_key rows imports i none none none = Unit
Slot path_key rows imports i (some c) (some t) (some key) =
    Agrees c t × Holds path_key rows imports i key
Slot path_key rows imports i none none (some key) = ⊥
Slot path_key rows imports i none (some t) k = ⊥
Slot path_key rows imports i (some c) none k = ⊥
Slot path_key rows imports i (some c) (some t) none = ⊥

pub record IsValid (path_key : Text → Text) (s : Service) : Type 0 where
  pub slot :
      (i : String)
      → Slot path_key s.registry s.import_paths i
          (dict_get i s.cancels)
          (dict_get i s.tasks)
          (dict_get i s.download_paths)

pub find-In :
    (p : ModelRecord → Bool) (xs : List ModelRecord) (a : ModelRecord)
    → find p xs ≡ some a
    → In a xs × (p a ≡ true)
find-In p [] a h = absurd cc
find-In p (x ∷ xs) a h = elim (Bool-cases (p x)) [
  | inl k ↦ let e : x ≡ a = some_inj x a (rw k at h) in (inl (sym e), rw (← e) k)
  | inr k ↦ let rest = find-In p xs a (rw k at h) in (inr rest.0, rest.1)
]

pub find-apart :
    (p : ModelRecord → Bool) (xs : List ModelRecord) (a : ModelRecord)
    → find p xs ≡ none
    → In a xs
    → p a ≡ false
find-apart p [] a h m = elim m [ ]
find-apart p (x ∷ xs) a h m = elim (Bool-cases (p x)) [
  | inl k ↦ let g : some x ≡ none = rw k at h in absurd cc
  | inr k ↦ elim m [ inl e ↦ rw e k | inr r ↦ find-apart p xs a (rw k at h) r ]
]

module _ (path_key : Text → Text) (rows rows' : List ModelRecord) (imports imports' : List Text)
    (i : String) where
  -- Only the row and the reservation matter, and only of an owned id.
  pub Slot-change :
      (c : Option CancelEvent) (t : Option Task) (k : Option Text)
      → ((key : Text)
          → k ≡ some key
          → Holds path_key rows imports i key
          → Holds path_key rows' imports' i key)
      → Slot path_key rows imports i c t k
      → Slot path_key rows' imports' i c t k
  Slot-change none none none f h = h
  Slot-change (some c) (some t) (some key) f h = (h.0, f key refl h.1)
  Slot-change none none (some key) f h = h
  Slot-change none (some t) k f h = h
  Slot-change (some c) none k f h = h
  Slot-change (some c) (some t) none f h = h

  pub Slot-empty :
      (c : Option CancelEvent) (k : Option Text)
      → Slot path_key rows imports i c none k
      → Slot path_key rows' imports' i c none k
  Slot-empty none none h = h
  Slot-empty none (some key) h = h
  Slot-empty (some c) k h = h

module _ (path_key : Text → Text) (rows : List ModelRecord) (imports : List Text) (i : String) where
  pub Slot-retask :
      (c : Option CancelEvent) (t t' : Task) (k : Option Text)
      → ((c : CancelEvent) → Agrees c t → Agrees c t')
      → Slot path_key rows imports i c (some t) k
      → Slot path_key rows imports i c (some t') k
  Slot-retask none t t' k f h = h
  Slot-retask (some c) t t' none f h = h
  Slot-retask (some c) t t' (some key) f h = (f c h.0, h.1)

  pub Slot-reflag :
      (c : CancelEvent) (t : Option Task) (k : Option Text)
      → Slot path_key rows imports i (some c) t k
      → Slot path_key rows imports i (some (request c).0) t k
  unfolding request
  Slot-reflag c none k h = h
  Slot-reflag c (some t) none h = h
  Slot-reflag c (some unstarted) (some key) h = (rw h.0 refl, h.1)
  Slot-reflag c (some (fetching seen)) (some key) h = (rw h.0 refl, h.1)
  Slot-reflag c (some dropped) (some key) h = (rw h.0 refl, h.1)
  Slot-reflag c (some (finalizing digest)) (some key) h = (rw h.0.0 (refl, h.0.1), h.1)

  pub Slot-promote :
      (c c' : CancelEvent) (t t' : Task) (k : Option Text)
      → Agrees c' t'
      → Slot path_key rows imports i (some c) (some t) k
      → Slot path_key rows imports i (some c') (some t') k
  Slot-promote c c' t t' none a h = h
  Slot-promote c c' t t' (some key) a h = (a, h.1)

  -- An id with a task has a flag, a destination and a row.
  pub Slot-Holds :
      (c : Option CancelEvent) (t : Task) (k : Option Text)
      → Slot path_key rows imports i c (some t) k
      → (key : Text) × (k ≡ some key) × Holds path_key rows imports i key
  Slot-Holds none t k h = absurd h
  Slot-Holds (some c) t none h = absurd h
  Slot-Holds (some c) t (some key) h = (key, refl, h.1)
