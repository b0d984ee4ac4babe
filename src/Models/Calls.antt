-- ===== src/Models/Calls.antt =====
-- The calls of the service (engine/models/service.py) keep what it owns.
use inference_engine.Prelude.{
  ℕ, ◌≡◌, refl, sym, ap, ◌∙◌, subst, Bool, true, false, ◌&&◌, ◌||◌, not, Option, none, some, List,
  [], ◌∷◌, String, str_eq, Text, text_eq, any, filter, if-rule, set_if, dict_get, Bool-cases, inl,
  inr, arith, is_null,
}
use inference_engine.Models.Registry.{
  ModelRecord, NewModel, error, create, has_id, get, find_by_path, set_active, clear_active,
  is_running, mark_interrupted,
}
use inference_engine.Models.Tasks.{Service, GgufInfo, Reply, interrupted, reconcile_rows}
use inference_engine.Models.Service.{
  Drawn, start_checked, reserve_import, import_model, finish_import,
}
use inference_engine.Models.Owned.{IsValid}
use inference_engine.Models.Held.{set_if-Keeps}
use inference_engine.Models.Kept.{map-IsValid, create-IsValid, imports-IsValid}
use inference_engine.Models.Launched.{path_apart, launch-IsValid}

any-filter :
    (k key : Text) (ks : List Text)
    → any (text_eq key) ks ≡ false
    → any (text_eq key) (filter (λ x. not (text_eq k x)) ks) ≡ false
any-filter k key [] h = refl
any-filter k key (x ∷ ks) h = ground (arith, any-filter k key ks)

any-dict_get :
    (p : Text → Bool) (i : String) (key : Text) (d : List (String × Text))
    → any (λ e. p e.1) d ≡ false
    → dict_get i d ≡ some key
    → p key ≡ false
any-dict_get p i key [] h e = absurd cc
any-dict_get p i key ((x, k) ∷ d) h e = elim (Bool-cases (str_eq x i)) [
  | inl same ↦ let g : some k ≡ some key = rw same at e in ground (arith, h, g)
  | inr other ↦ any-dict_get p i key d (ground (arith, h)) (rw other at e)
]

absent : (o : Option ModelRecord) → is_null o ≡ true → o ≡ none
absent none h = refl
absent (some r) h = absurd cc

module _ (path_key : Text → Text) (s : Service) (v : IsValid path_key s) where
  abbrev Good : Service × Reply → Type 0
  Good p = IsValid path_key p.0

  pub start_checked-IsValid :
      (d : Drawn) (m : NewModel)
      → get d.model_id s.registry ≡ none
      → IsValid path_key (start_checked path_key d m s).0
  start_checked-IsValid d m fresh =
      if-rule Good (any (text_eq (path_key m.path)) s.import_paths) (λ k. v)
        (λ k.
          if-rule Good (d.exists || not (is_null (find_by_path m.path s.registry))) (λ l. v)
            (λ l.
              launch-IsValid path_key s v d.model_id d.now m fresh
                (absent (find_by_path m.path s.registry) (ground (arith, l))) k))

  pub reserve_import-IsValid : (path : Text) → IsValid path_key (reserve_import path_key path s).0
  reserve_import-IsValid path =
      if-rule Good
        (any (text_eq (path_key path)) s.import_paths
          || any (λ e. text_eq e.1 (path_key path)) s.download_paths)
        (λ k. v)
        (λ k. imports-IsValid path_key s v (path_key path ∷ s.import_paths) (λ j key e u.
          let apart =
            any-dict_get (λ x. text_eq x (path_key path)) j key s.download_paths (ground (arith, k))
              e in
          rw apart u))

  -- The row of an import that was reserved
  imported-IsValid :
      (path : Text) (i : String) (now : ℕ) (m : NewModel)
      → m.path ≡ path
      → any (text_eq (path_key path)) s.import_paths ≡ true
      → IsValid path_key (record s { registry = create i now m s.registry })
  imported-IsValid path i now m same reserved =
      create-IsValid path_key s v i now m (λ r j key found keyed free e.
        let g : any (text_eq (path_key path)) s.import_paths ≡ false =
          subst (λ k. any (text_eq k) s.import_paths ≡ false) (keyed ∙ ap path_key (sym e ∙ same))
            free in
        absurd cc)

  pub configured-IsValid :
      (i : String) (now : ℕ) (m : NewModel)
      → find_by_path m.path s.registry ≡ none
      → IsValid path_key (record s { registry = create i now m s.registry })
  configured-IsValid i now m free =
      create-IsValid path_key s v i now m
        (λ r j key found keyed unreserved. path_apart s.registry m.path j r free found)

  free-IsValid :
      (path : Text) (z : Service)
      → IsValid path_key z
      → z.import_paths ≡ s.import_paths
      → IsValid path_key
          (record z { import_paths = filter (λ k. not (text_eq (path_key path) k)) s.import_paths })
  free-IsValid path z u same =
      imports-IsValid path_key z u (filter (λ k. not (text_eq (path_key path) k)) s.import_paths)
        (λ j key e h. any-filter (path_key path) key s.import_paths (rw same at h))

  pub finish_import-IsValid :
      (path : Text) (i : String) (now : ℕ) (name : Option Text)
      (read : Option (GgufInfo × Text × ℕ))
      → Good (finish_import path_key path i now name read s)
  finish_import-IsValid path i now name none =
      if-rule Good (any (text_eq (path_key path)) s.import_paths) (λ k. free-IsValid path s v refl)
        (λ k. v)
  finish_import-IsValid path i now name (some (info, digest, size)) =
      if-rule Good (any (text_eq (path_key path)) s.import_paths)
        (λ k.
          if-rule Good info.valid
            (λ l.
              free-IsValid path _
                (imported-IsValid path i now
                  (import_model path_key path name info (some digest) size) refl k)
                refl)
            (λ l. free-IsValid path s v refl))
        (λ k. v)

  pub set_active-IsValid :
      (i : String) (now : ℕ)
      → IsValid path_key (record s { registry = set_active i now s.registry })
  unfolding set_active
  set_active-IsValid i now =
      let cleared : IsValid path_key (record s { registry = clear_active s.registry }) =
        map-IsValid path_key s v (set_if (λ r. r.active) (λ r. record r { active = false }))
          (set_if-Keeps (λ r. r.active) (λ r. record r { active = false }) (λ r. (refl, refl))) in
      map-IsValid path_key (record s { registry = clear_active s.registry }) cleared
        (set_if (has_id i) (λ r. record r { active = true; updated_at = some now }))
        (set_if-Keeps (has_id i) (λ r. record r { active = true; updated_at = some now })
          (λ r. (refl, refl)))

pub reconcile_rows-IsValid :
    (path_key : Text → Text) (now : ℕ) (owned : String → Bool) (rows table : List ModelRecord)
    (n : ℕ) (s : Service)
    → IsValid path_key (record s { registry = table })
    → IsValid path_key (record s { registry = (reconcile_rows now owned rows table n).0 })
unfolding reconcile_rows
reconcile_rows-IsValid path_key now owned [] table n s v = v
reconcile_rows-IsValid path_key now owned (r ∷ rows) table n s v =
    elim (Bool-cases (not (is_running r.status) || owned r.id)) [
      | inl k ↦ rw (reconcile_rows, k) (reconcile_rows-IsValid path_key now owned rows table n s v)
      | inr k ↦
          rw (reconcile_rows, k)
            (reconcile_rows-IsValid path_key now owned rows
              (mark_interrupted r.id now interrupted table).0 _ s
              (map-IsValid path_key (record s { registry = table }) v
                (set_if (λ q. has_id r.id q && is_running q.status)
                  (λ q. record q {
                    status = error;
                    error = some interrupted;
                    updated_at = some now;
                  }))
                (set_if-Keeps (λ q. has_id r.id q && is_running q.status) _ (λ q. (refl, refl)))))
    ]
