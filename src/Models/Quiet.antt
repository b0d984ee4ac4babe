-- ===== src/Models/Quiet.antt =====
-- The calls of the service do not make a download ready whose cancel was accepted
-- (engine/models/service.py).
use mathlib.Core.Option
use inference_engine.Prelude.{
  ℕ, ◌≡◌, refl, Bool, true, false, ◌&&◌, ◌||◌, not, Option, none, some, List, [], ◌∷◌, ◌++◌, String,
  str_eq, all, map, filter, set_if, Bool-cases, inl, inr, arith,
}
use inference_engine.Models.Download.{CancelEvent, request}
use inference_engine.Models.Registry.{
  error, ModelRecord, NewModel, row_of, create, has_id, set_active, clear_active, is_running,
  mark_interrupted,
}
use inference_engine.Models.Tasks.{
  Task, unstarted, fetching, finalizing, dropped, Service, release, reconcile_rows, interrupted,
  release_dropped,
}
use inference_engine.Models.Stopped.{
  is_quiet, Halted, IsStopped, Tame, map-Tame, set_if-Tame, release-IsStopped, request-Halted,
}

module _ (i : String) where
  pub all-append :
      (p : ModelRecord → Bool) (xs ys : List ModelRecord)
      → all p xs ≡ true
      → all p ys ≡ true
      → all p (xs ++ ys) ≡ true
  all-append p [] ys h k = k
  all-append p (x ∷ xs) ys h k = ground (arith, h, all-append p xs ys)

  pub all-filter :
      (p q : ModelRecord → Bool) (xs : List ModelRecord)
      → all p xs ≡ true
      → all p (filter q xs) ≡ true
  all-filter p q [] h = refl
  all-filter p q (x ∷ xs) h = ground (arith, h, all-filter p q xs)

  pub created :
      (s : Service) (j : String) (now : ℕ) (m : NewModel)
      → IsStopped i s
      → str_eq j i ≡ false
      → IsStopped i (record s { registry = create j now m s.registry })
  created s j now m h other = record {
    quiet = all-append (is_quiet i) s.registry (row_of j now m ∷ []) h.quiet (rw other refl);
    halted = h.halted;
  }

  pub mapped :
      (s : Service) (g : ModelRecord → ModelRecord)
      → IsStopped i s
      → Tame i g
      → IsStopped i (record s { registry = map g s.registry })
  mapped s g h t = record { quiet = map-Tame i g s.registry t h.quiet; halted = h.halted }

  pub activated-IsStopped :
      (s : Service) (j : String) (now : ℕ)
      → IsStopped i s
      → IsStopped i (record s { registry = set_active j now s.registry })
  unfolding set_active clear_active
  activated-IsStopped s j now h =
      mapped (record s { registry = clear_active s.registry })
        (set_if (has_id j) (λ r. record r { active = true; updated_at = some now }))
        (mapped s (set_if (λ r. r.active) (λ r. record r { active = false })) h
          (set_if-Tame i (λ r. r.active) (λ r. record r { active = false }) (λ r k. k)))
        (set_if-Tame i (has_id j) (λ r. record r { active = true; updated_at = some now })
          (λ r k. k))

  pub reconciled :
      (now : ℕ) (owned : String → Bool) (rows table : List ModelRecord) (n : ℕ)
      → all (is_quiet i) table ≡ true
      → all (is_quiet i) (reconcile_rows now owned rows table n).0 ≡ true
  unfolding reconcile_rows
  reconciled now owned [] table n h = h
  reconciled now owned (r ∷ rows) table n h =
      elim (Bool-cases (not (is_running r.status) || owned r.id)) [
        | inl k ↦ rw (reconcile_rows, k) (reconciled now owned rows table n h)
        | inr k ↦
            rw (reconcile_rows, k)
              (reconciled now owned rows (mark_interrupted r.id now interrupted table).0 _ (
                map-Tame i
                  (set_if (λ q. has_id r.id q && is_running q.status)
                    (λ q. record q {
                      status = error;
                      error = some interrupted;
                      updated_at = some now;
                    }))
                  table
                  (set_if-Tame i (λ q. has_id r.id q && is_running q.status) _
                    (λ q l. ground arith))
                  h))
      ]

  pub dropped-IsStopped :
      (ts : List (String × Task)) (s : Service) → IsStopped i s → IsStopped i (release_dropped ts s)
  dropped-IsStopped [] s h = h
  dropped-IsStopped ((j, unstarted) ∷ ts) s h = dropped-IsStopped ts s h
  dropped-IsStopped ((j, fetching seen) ∷ ts) s h = dropped-IsStopped ts s h
  dropped-IsStopped ((j, finalizing d) ∷ ts) s h = dropped-IsStopped ts s h
  dropped-IsStopped ((j, dropped) ∷ ts) s h =
      dropped-IsStopped ts (release s j) (release-IsStopped i j s h)

  pub signal-Halted :
      (s : Service)
      → IsStopped i s
      → (c : Option CancelEvent) (t : Option Task) → Halted c t
      → Halted (Option.map (λ c. (request c).0) c) t
  signal-Halted s h none none k = k
  signal-Halted s h none (some unstarted) k = k
  signal-Halted s h none (some (fetching seen)) k = k
  signal-Halted s h none (some dropped) k = k
  signal-Halted s h none (some (finalizing d)) k = k
  signal-Halted s h (some c) t k = request-Halted i i s h c t k
