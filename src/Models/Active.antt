-- ===== src/Models/Active.antt =====
-- `set_active` of engine/models/registry.py.
use inference_engine.Prelude.{
  ℕ, ◌≡◌, sym, ap, ◌∙◌, true, false, some, List, [], ◌∷◌, String, All, set_if, Bool-cases, inl, inr,
}
use inference_engine.Models.Registry.{ModelRecord, has_id, set_active, clear_active}
use inference_engine.Models.Recovered.{set_if-true, set_if-false}

activated :
    (i : String) (now : ℕ) (z : ModelRecord)
    → z.active ≡ false
    → let y = set_if (has_id i) (λ r. record r { active = true; updated_at = some now }) z in
      y.active ≡ has_id i y
activated i now z h = elim (Bool-cases (has_id i z)) [ inl e ↦ rw e (sym e) | inr e ↦ rw (e, e) h ]

deactivated :
    (r : ModelRecord) → (set_if (λ r. r.active) (λ r. record r { active = false }) r).active ≡ false
deactivated r = elim (Bool-cases r.active) [
  | inl e ↦
      ap (λ (z : ModelRecord). z.active)
        (set_if-true (λ r. r.active) (λ r. record r { active = false }) r e)
  | inr e ↦
      ap (λ (z : ModelRecord). z.active)
        (set_if-false (λ r. r.active) (λ r. record r { active = false }) r e)
      ∙ e
]

-- After `set_active` a row is active exactly if it has this id.
pub set_active-All :
    (i : String) (now : ℕ) (rows : List ModelRecord)
    → All (λ r. r.active ≡ has_id i r) (set_active i now rows)
unfolding set_active clear_active
set_active-All i now [] = tt
set_active-All i now (r ∷ rows) = (activated i now _ (deactivated r), set_active-All i now rows)
