-- ===== src/Models/Deleted.antt =====
-- `delete_model` of engine/models/service.py and the downloads that run meanwhile.
use inference_engine.Prelude.{
  In, sym, List, Text, ◌≡◌, ◌≢◌, ◌⊎◌, refl, ◌∙◌, Bool, true, false, ◌&&◌, some, String, str_eq,
  str_eq_iff, if-rule, dict_get, Bool-cases, Option-cases, inl, inr, arith,
}
use inference_engine.Models.Registry.{ModelRecord, has_id, get}
use inference_engine.Models.Tasks.{Service, Reply, busy, has_task}
use inference_engine.Models.Service.{Settings, is_busy, delete_model}
use inference_engine.Models.Events.{deletes, with_row, handle}
use inference_engine.Models.Owned.{Holds, IsValid, find-In, Slot-Holds}
use inference_engine.Models.Held.{find-delete_other}

-- No other row names the file of this row by another path.
abbrev pub HasOneName : (Text → Text) → List ModelRecord → ModelRecord → Type 0
HasOneName path_key rows r =
    (q : ModelRecord) → In q rows → path_key q.path ≡ path_key r.path → q.path ≡ r.path

module _ (settings : Settings) (path_key : Text → Text) (s : Service) (v : IsValid path_key s) where
  owned-Holds :
      (j : String)
      → has_task s j ≡ true
      → (key : Text) × Holds path_key s.registry s.import_paths j key
  owned-Holds j h = elim (Option-cases (dict_get j s.tasks)) [
    | inl e ↦ let g : false ≡ true = rw e at h in absurd cc
    | inr (t, e) ↦
        let k =
          Slot-Holds path_key s.registry s.import_paths j (dict_get j s.cancels) t
            (dict_get j s.download_paths) (rw e at (v.slot j)) in
        (k.0, k.2)
  ]

  idle_apart :
      (r q : ModelRecord) (j : String)
      → has_task s r.id ≡ false
      → has_task s j ≡ true
      → str_eq r.id j ≡ false
  idle_apart r q j idle owned = elim (Bool-cases (str_eq r.id j)) [
    | inl e ↦ let g : has_task s j ≡ false = rw ((str_eq_iff r.id j).0 e) at idle in absurd cc
    | inr e ↦ e
  ]

  -- In a valid state, while the download `j` is owned, where no other row names the file of the row `r`
  -- by another path, and whatever the removal of the files and of the row answers: a delete of `r` is
  -- refused as busy and changes nothing, or the row of `j` is still there and its path, resolved, is
  -- not that of `r`.
  pub delete-has_task :
      (i j : String) (r : ModelRecord) (unlinked stored : Bool)
      → get i s.registry ≡ some r
      → has_task s j ≡ true
      → HasOneName path_key s.registry r
      → let after = handle settings path_key s (deletes i unlinked stored) in
        (after ≡ (s, busy))
        ⊎ ((q : ModelRecord) × (get j after.0.registry ≡ some q)
            × (path_key r.path ≢ path_key q.path))
  unfolding handle
  delete-has_task i j r unlinked stored found owned one_name =
      elim (Bool-cases (is_busy path_key s r)) [
        | inl b ↦ inl (rw (handle, with_row, found, b) refl)
        | inr b ↦
            let idle : has_task s r.id ≡ false = ground (arith, b) in
            let h = (owned-Holds j owned).1 in
            let other = idle_apart r h.row j idle owned in
            let apart : path_key r.path ≢ path_key h.row.path = λ e.
              let one = one_name h.row (find-In (has_id j) s.registry h.row h.found).0 (sym e) in
              let same = h.alone r (find-In (has_id i) s.registry r found).0 (sym one) in
              let g : has_task s j ≡ false = rw same at idle in absurd cc in
            let kept : get j (delete_model path_key unlinked stored r s).0.registry ≡ some h.row =
              if-rule (λ (p : Service × Reply). get j p.0.registry ≡ some h.row)
                (is_busy path_key s r) (λ k. h.found)
                (λ k.
                  if-rule (λ (p : Service × Reply). get j p.0.registry ≡ some h.row)
                    (unlinked && stored) (λ l. find-delete_other r.id j s.registry other ∙ h.found)
                    (λ l. h.found)) in
            inr (h.row, rw (handle, with_row, found) kept, apart)
      ]
