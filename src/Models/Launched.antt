-- ===== src/Models/Launched.antt =====
-- A download that starts, and the changes that go through all the service owns
-- (engine/models/service.py).
use mathlib.Core.Option
use inference_engine.Prelude.{
  ℕ, ◌≡◌, ◌≢◌, refl, sym, ap, ◌∙◌, subst, true, false, Option, none, some, List, [], ◌∷◌, String,
  str_eq, str_eq_iff, str_eq_self, Text, text_eq, text_eq_iff, any, append-In, map, dict_get,
  dict_put, dict_get-put, dict_get-put_other, Bool-cases, inl, inr, arith,
}
use inference_engine.Models.Download.{CancelEvent, new_cancel, request}
use inference_engine.Models.Registry.{
  ModelRecord, NewModel, row_of, create, has_id, has_path, get, find_by_path,
}
use inference_engine.Models.Tasks.{
  Task, unstarted, fetching, finalizing, dropped, Service, release, release_dropped, signal_all,
}
use inference_engine.Models.Service.{launch}
use inference_engine.Models.Owned.{
  Holds, Slot, IsValid, find-In, find-apart, Slot-change, Slot-reflag,
}
use inference_engine.Models.Held.{Holds-create, find-append-none}
use inference_engine.Models.Kept.{release-IsValid}

-- A row that has a path keeps it from being found free.
pub path_apart :
    (rows : List ModelRecord) (path : Text) (i : String) (r : ModelRecord)
    → find_by_path path rows ≡ none
    → get i rows ≡ some r
    → path ≢ r.path
path_apart rows path i r free found e =
    let b = find-apart (has_path path) rows r free (find-In (has_id i) rows r found).0 in
    let same : text_eq r.path path ≡ true = (text_eq_iff r.path path).1 (sym e) in
    absurd (ground (arith, b, same))

module _ (path_key : Text → Text) (s : Service) (v : IsValid path_key s) where
  launched-Holds :
      (i : String) (now : ℕ) (m : NewModel)
      → get i s.registry ≡ none
      → find_by_path m.path s.registry ≡ none
      → any (text_eq (path_key m.path)) s.import_paths ≡ false
      → Holds path_key (create i now m s.registry) s.import_paths i (path_key m.path)
  launched-Holds i now m fresh free unreserved = record {
    row = row_of i now m;
    found =
        find-append-none (has_id i) s.registry (row_of i now m ∷ []) fresh
        ∙ rw (str_eq_self i) refl;
    keyed = refl;
    alone = λ q n e. elim (append-In q s.registry (row_of i now m ∷ []) n) [
      | inl old ↦
          let b = find-apart (has_path m.path) s.registry q free old in
          let same : text_eq q.path m.path ≡ true = (text_eq_iff q.path m.path).1 e in
          absurd (ground (arith, b, same))
      | inr (inl new) ↦ ap (λ r. r.id) new
      | inr (inr none_left) ↦ absurd none_left
    ];
    unreserved = unreserved;
  }

  pub launch-IsValid :
      (i : String) (now : ℕ) (m : NewModel)
      → get i s.registry ≡ none
      → find_by_path m.path s.registry ≡ none
      → any (text_eq (path_key m.path)) s.import_paths ≡ false
      → IsValid path_key (launch path_key i now m s).0
  launch-IsValid i now m fresh free unreserved = record {
    slot = λ j. elim (Bool-cases (str_eq i j)) [
      | inl k ↦
          subst
            (λ j.
              Slot path_key (create i now m s.registry) s.import_paths j
                (dict_get j (dict_put i new_cancel s.cancels))
                (dict_get j (dict_put i unstarted s.tasks))
                (dict_get j (dict_put i (path_key m.path) s.download_paths)))
            ((str_eq_iff i j).0 k)
            (rw
              (
                dict_get-put i new_cancel s.cancels,
                dict_get-put i unstarted s.tasks,
                dict_get-put i (path_key m.path) s.download_paths,
              )
              (refl, launched-Holds i now m fresh free unreserved))
      | inr k ↦
          rw
            (
              dict_get-put_other i j new_cancel s.cancels k,
              dict_get-put_other i j unstarted s.tasks k,
              dict_get-put_other i j (path_key m.path) s.download_paths k,
            )
            (Slot-change path_key s.registry (create i now m s.registry) s.import_paths
              s.import_paths j (dict_get j s.cancels) (dict_get j s.tasks)
              (dict_get j s.download_paths)
              (λ key e h.
                Holds-create path_key s.registry s.import_paths j key h i now m
                  (path_apart s.registry m.path j h.row free h.found))
              (v.slot j))
    ];
  }

pub dict_get-map :
    (f : CancelEvent → CancelEvent) (k : String) (d : List (String × CancelEvent))
    → dict_get k (map (λ e. (e.0, f e.1)) d) ≡ Option.map f (dict_get k d)
dict_get-map f k [] = refl
dict_get-map f k ((x, c) ∷ d) = elim (Bool-cases (str_eq x k)) [
  | inl e ↦ rw e refl
  | inr e ↦ rw e (dict_get-map f k d)
]

Slot-signal :
    (path_key : Text → Text) (rows : List ModelRecord) (imports : List Text) (i : String)
    (c : Option CancelEvent) (t : Option Task) (k : Option Text)
    → Slot path_key rows imports i c t k
    → Slot path_key rows imports i (Option.map (λ c. (request c).0) c) t k
unfolding request
Slot-signal path_key rows imports i none t k h = h
Slot-signal path_key rows imports i (some c) t k h = Slot-reflag path_key rows imports i c t k h

pub signal_all-IsValid :
    (path_key : Text → Text) (s : Service) → IsValid path_key s → IsValid path_key (signal_all s)
signal_all-IsValid path_key s v = record {
  slot = λ i. rw (dict_get-map (λ c. (request c).0) i s.cancels) (
      Slot-signal path_key s.registry s.import_paths i (dict_get i s.cancels) (dict_get i s.tasks)
        (dict_get i s.download_paths) (v.slot i));
}

pub release_dropped-IsValid :
    (path_key : Text → Text) (ts : List (String × Task)) (s : Service)
    → IsValid path_key s
    → IsValid path_key (release_dropped ts s)
release_dropped-IsValid path_key [] s v = v
release_dropped-IsValid path_key ((i, unstarted) ∷ ts) s v = release_dropped-IsValid path_key ts s v
release_dropped-IsValid path_key ((i, fetching seen) ∷ ts) s v =
    release_dropped-IsValid path_key ts s v
release_dropped-IsValid path_key ((i, finalizing digest) ∷ ts) s v =
    release_dropped-IsValid path_key ts s v
release_dropped-IsValid path_key ((i, dropped) ∷ ts) s v =
    release_dropped-IsValid path_key ts (release s i) (release-IsValid path_key s v i)
