-- ===== src/Scheduler/Hint.antt =====
-- `_retry_after_hint`: a ceiling of the average wait, never below a second.
use native.Mathlib.Nat.{div-add-mod, mod-lt, le_trans, mul-le-mul_right}
use inference_engine.Prelude.{
  ℕ, zero, suc, ◌+◌, ◌*◌, ◌≤◌, ◌<◌, ◌≡◌, arith, max, ltb, if-rule, ltb→lt,
}
use inference_engine.Scheduler.Invariant.{IsValid}
use inference_engine.Scheduler.{Scheduler, retry_after_hint, ceil_div}

ceil_div_bounds : (a b : ℕ) → 0 < b → (a ≤ ceil_div a b * b) × (ceil_div a b * b < a + b)
ceil_div_bounds a b h = grind (arith, div-add-mod, mod-lt)

cancel_factor : (c x y : ℕ) → c * x < c * y + c → x ≤ y
cancel_factor c x y h = grind arith

max_one : (q : ℕ) → max 1 (suc q) ≡ suc q
max_one q = omega arith

max_factor : (q t n : ℕ) → q * t ≤ n → t ≤ n → max 1 q * t ≤ n
max_factor zero t n a b = omega arith
max_factor (suc q) t n a b = rw (max_one q) a

-- With samples: the ceiling covers the total, and stays within a second of the longest wait.
average_bounds :
    (total count longest ticks : ℕ)
    → 0 < count
    → 0 < ticks
    → total ≤ count * longest
    → let q = max 1 (ceil_div total (count * ticks)) in
      (total ≤ q * (count * ticks)) × (q * ticks ≤ longest + ticks)
average_bounds total count longest ticks c t l =
    let q : ℕ = ceil_div total (count * ticks) in
    let b : (total ≤ q * (count * ticks)) × (q * (count * ticks) < total + count * ticks) =
      ceil_div_bounds total (count * ticks) (grind arith) in
    let capped : q * ticks ≤ longest + ticks =
      cancel_factor count (q * ticks) (longest + ticks) (omega (arith, b.1, l)) in
    (
      le_trans b.0 (mul-le-mul_right (count * ticks) (omega arith)),
      max_factor q ticks (longest + ticks) capped (omega arith),
    )

-- In a valid state, with a positive number of ticks in a second: the retry hint, in seconds, is at
-- least one, covers the average of the waits that were recorded, and is never more than a second
-- above the longest of them.
pub retry_after_hint_bounds :
    (ticks : ℕ) (s : Scheduler)
    → IsValid s
    → 0 < ticks
    → (1 ≤ retry_after_hint ticks s)
      × (s.wait_total ≤ retry_after_hint ticks s * (s.wait_count * ticks))
      × (retry_after_hint ticks s * ticks ≤ s.wait_max + ticks)
unfolding retry_after_hint
retry_after_hint_bounds ticks s h t =
    if-rule
      (λ n.
        (1 ≤ n) × (s.wait_total ≤ n * (s.wait_count * ticks)) × (n * ticks ≤ s.wait_max + ticks))
      (ltb 0 s.wait_count)
      (λ some_waits.
        let b =
          average_bounds s.wait_total s.wait_count s.wait_max ticks (ltb→lt _ _ some_waits) t
            h.longest in
        (omega arith, b.0, b.1))
      λ no_waits. (omega arith, grind (arith, h.longest), omega arith)
