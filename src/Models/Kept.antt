-- ===== src/Models/Kept.antt =====
-- What each change of the service's state (engine/models/service.py) keeps of its ownership.
use inference_engine.Prelude.{
  ℕ, ◌≡◌, ◌≢◌, refl, subst, true, false, none, some, List, String, str_eq, str_eq_iff, Text,
  text_eq, any, map, dict_get, dict_put, dict_get-put, dict_get-put_other, dict_get-pop,
  dict_get-pop_other, Bool-cases, Option-cases, inl, inr,
}
use inference_engine.Models.Download.{CancelEvent, request}
use inference_engine.Models.Registry.{ModelRecord, NewModel, create, get, delete}
use inference_engine.Models.Tasks.{Task, Service, has_task, release}
use inference_engine.Models.Owned.{
  Agrees, Slot, IsValid, Slot-change, Slot-empty, Slot-retask, Slot-reflag, Slot-promote,
}
use inference_engine.Models.Held.{Keeps, Holds-map, Holds-create, Holds-delete, Holds-imports}

module _ (path_key : Text → Text) (s : Service) (v : IsValid path_key s) where
  -- What the service has at an id
  abbrev At : Service → String → Type 0
  At z j =
      Slot path_key z.registry z.import_paths j (dict_get j z.cancels) (dict_get j z.tasks)
        (dict_get j z.download_paths)

  -- Another id: the three look-ups are as before.
  abbrev pub Elsewhere : String → Service → Type 0
  Elsewhere i z =
      (j : String)
      → str_eq i j ≡ false
      → (dict_get j z.cancels ≡ dict_get j s.cancels)
        × (dict_get j z.tasks ≡ dict_get j s.tasks)
        × (dict_get j z.download_paths ≡ dict_get j s.download_paths)

  -- A change at one id
  change_one :
      (i : String) (z : Service)
      → z.registry ≡ s.registry
      → z.import_paths ≡ s.import_paths
      → Elsewhere i z
      → At z i
      → IsValid path_key z
  change_one i z same_rows same_imports e here = record {
    slot = λ j. elim (Bool-cases (str_eq i j)) [
      | inl k ↦ subst (At z) ((str_eq_iff i j).0 k) here
      | inr k ↦ let w = e j k in rw (w.0, w.1, w.2, same_rows, same_imports) (v.slot j)
    ];
  }

  pub release-IsValid : (i : String) → IsValid path_key (release s i)
  release-IsValid i =
      change_one i (release s i) refl refl
        (λ j k. (
          dict_get-pop_other i j s.cancels k,
          dict_get-pop_other i j s.tasks k,
          dict_get-pop_other i j s.download_paths k,
        ))
        (rw (dict_get-pop i s.cancels, dict_get-pop i s.tasks, dict_get-pop i s.download_paths) tt)

  pub retask-IsValid :
      (i : String) (t t' : Task)
      → dict_get i s.tasks ≡ some t
      → ((c : CancelEvent) → Agrees c t → Agrees c t')
      → IsValid path_key (record s { tasks = dict_put i t' s.tasks })
  retask-IsValid i t t' e f =
      change_one i (record s { tasks = dict_put i t' s.tasks }) refl refl
        (λ j k. (refl, dict_get-put_other i j t' s.tasks k, refl))
        (rw (dict_get-put i t' s.tasks) (
          Slot-retask path_key s.registry s.import_paths i (dict_get i s.cancels) t t'
            (dict_get i s.download_paths) f (rw e at (v.slot i))))

  pub reflag-IsValid :
      (i : String) (c : CancelEvent)
      → dict_get i s.cancels ≡ some c
      → IsValid path_key (record s { cancels = dict_put i (request c).0 s.cancels })
  reflag-IsValid i c e =
      change_one i (record s { cancels = dict_put i (request c).0 s.cancels }) refl refl
        (λ j k. (dict_get-put_other i j (request c).0 s.cancels k, refl, refl))
        (rw (dict_get-put i (request c).0 s.cancels) (
          Slot-reflag path_key s.registry s.import_paths i c (dict_get i s.tasks)
            (dict_get i s.download_paths) (rw e at (v.slot i))))

  pub promote-IsValid :
      (i : String) (c c' : CancelEvent) (t t' : Task)
      → dict_get i s.cancels ≡ some c
      → dict_get i s.tasks ≡ some t
      → Agrees c' t'
      → IsValid path_key
          (record s { cancels = dict_put i c' s.cancels; tasks = dict_put i t' s.tasks })
  promote-IsValid i c c' t t' e f a =
      change_one i (record s { cancels = dict_put i c' s.cancels; tasks = dict_put i t' s.tasks })
        refl refl
        (λ j k. (dict_get-put_other i j c' s.cancels k, dict_get-put_other i j t' s.tasks k, refl))
        (rw (dict_get-put i c' s.cancels, dict_get-put i t' s.tasks)
          (Slot-promote path_key s.registry s.import_paths i c c' t t' (dict_get i s.download_paths)
            a (rw (e, f) at (v.slot i))))

  -- Rows that change in neither id nor path
  pub map-IsValid :
      (g : ModelRecord → ModelRecord)
      → Keeps g
      → IsValid path_key (record s { registry = map g s.registry })
  map-IsValid g k = record {
    slot = λ j.
        Slot-change path_key s.registry (map g s.registry) s.import_paths s.import_paths j
          (dict_get j s.cancels) (dict_get j s.tasks) (dict_get j s.download_paths)
          (λ key e h. Holds-map path_key s.registry s.import_paths j key h g k) (v.slot j);
  }

  -- A new row, whose path no owned row has
  pub create-IsValid :
      (i : String) (now : ℕ) (m : NewModel)
      → ((r : ModelRecord) (j : String) (key : Text)
          → get j s.registry ≡ some r
          → key ≡ path_key r.path
          → any (text_eq key) s.import_paths ≡ false
          → m.path ≢ r.path)
      → IsValid path_key (record s { registry = create i now m s.registry })
  create-IsValid i now m apart = record {
    slot = λ j.
        Slot-change path_key s.registry (create i now m s.registry) s.import_paths s.import_paths j
          (dict_get j s.cancels) (dict_get j s.tasks) (dict_get j s.download_paths)
          (λ key e h.
            Holds-create path_key s.registry s.import_paths j key h i now m
              (apart h.row j key h.found h.keyed h.unreserved))
          (v.slot j);
  }

  pub delete-IsValid :
      (i : String)
      → has_task s i ≡ false
      → IsValid path_key (record s { registry = (delete i s.registry).0 })
  delete-IsValid i idle = record {
    slot = λ j. elim (Bool-cases (str_eq i j)) [
      | inl k ↦
          let same : i ≡ j = (str_eq_iff i j).0 k in
          let gone : dict_get j s.tasks ≡ none = elim (Option-cases (dict_get i s.tasks)) [
            | inl e ↦ rw (← same) e
            | inr (t, e) ↦ let b : true ≡ false = rw e at idle in absurd cc
          ] in
          rw gone (
            Slot-empty path_key s.registry (delete i s.registry).0 s.import_paths s.import_paths j
              (dict_get j s.cancels) (dict_get j s.download_paths) (rw gone at (v.slot j)))
      | inr k ↦
          Slot-change path_key s.registry (delete i s.registry).0 s.import_paths s.import_paths j
            (dict_get j s.cancels) (dict_get j s.tasks) (dict_get j s.download_paths)
            (λ key e h. Holds-delete path_key s.registry s.import_paths j key h i k) (v.slot j)
    ];
  }

  -- Reservations that leave every destination free
  pub imports-IsValid :
      (imports' : List Text)
      → ((j : String) (key : Text)
          → dict_get j s.download_paths ≡ some key
          → any (text_eq key) s.import_paths ≡ false
          → any (text_eq key) imports' ≡ false)
      → IsValid path_key (record s { import_paths = imports' })
  imports-IsValid imports' f = record {
    slot = λ j.
        Slot-change path_key s.registry s.registry s.import_paths imports' j (dict_get j s.cancels)
          (dict_get j s.tasks) (dict_get j s.download_paths)
          (λ key e h.
            Holds-imports path_key s.registry s.import_paths j key h imports'
              (f j key e h.unreserved))
          (v.slot j);
  }
