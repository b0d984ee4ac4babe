-- ===== src/Gateway/Quota.antt =====
-- The compute units of a request and the windows that they are summed over:
-- engine/quota/compute.py, engine/quota/windows.py and engine/quota/store.py.  Moments are
-- seconds from the epoch, and compute units and their weights are natural numbers.
use inference_engine.Prelude.{
  ℕ, ◌+◌, ◌-◌, ◌*◌, ◌/◌, ◌%◌, max, Bool, false, ◌&&◌, Option, none, some, List, [], ◌∷◌, String,
  str_eq, ltb, leb, ◌==◌, if◌then◌else◌,
}
use inference_engine.Gateway.Types.{UsageRow, WindowUsage, ComputeModel}

-- `ComputeModel.actual` with its multiplier
unfoldable pub actual : ComputeModel → ℕ → ℕ → ℕ → ℕ
actual m prompt_tokens completion_tokens multiplier =
    (prompt_tokens * m.prompt_weight + completion_tokens * m.completion_weight) * multiplier

-- `ComputeModel.estimate`
unfoldable pub estimate : ComputeModel → ℕ → ℕ → ℕ → ℕ
unfolding actual
estimate m prompt_tokens max_tokens multiplier = actual m prompt_tokens max_tokens multiplier

-- `estimate_prompt_tokens`, of the length of the text: `max(1, ceil(len / 4))`
unfoldable pub estimate_prompt_tokens : ℕ → ℕ
estimate_prompt_tokens len = max 1 ((len + 3) / 4)

-- `WindowUsage.remaining`; no number where there is no limit.
unfoldable pub remaining : WindowUsage → Option ℕ
remaining w = if w.limit == 0 then none else some (w.limit - w.used)

-- `WindowUsage.would_exceed`
unfoldable pub would_exceed : WindowUsage → ℕ → Bool
would_exceed w additional = if w.limit == 0 then false else ltb w.limit (w.used + additional)

-- `rolling_5h_start`
unfoldable pub rolling_5h_start : ℕ → ℕ
rolling_5h_start now = now - 18000

-- `week_start`: the days since the epoch, a Thursday, give the weekday, Monday being 0.  Before
-- the first Monday, the fifth of January 1970, the source's result is negative.
abbrev pub weekday : ℕ → ℕ
weekday now = (now / 86400 + 3) % 7

unfoldable pub week_start : ℕ → ℕ
week_start now = (now / 86400 - weekday now) * 86400

-- `week_reset`
unfoldable pub week_reset : ℕ → ℕ
unfolding week_start
week_reset now = week_start now + 604800

-- `_sum_cu`
unfoldable pub sum_cu : String → ℕ → List UsageRow → ℕ
sum_cu key_id since [] = 0
sum_cu key_id since (r ∷ rs) =
    let rest = sum_cu key_id since rs in
    if str_eq r.key_id key_id && leb since r.ts then r.cu + rest else rest

-- `usage_5h`
unfoldable pub usage_5h : String → ℕ → ℕ → List UsageRow → WindowUsage
unfolding sum_cu rolling_5h_start
usage_5h key_id limit now rows = record {
  used = sum_cu key_id (rolling_5h_start now) rows;
  limit = limit;
  reset_at = now + 18000;
}

-- `usage_weekly`
unfoldable pub usage_weekly : String → ℕ → ℕ → List UsageRow → WindowUsage
unfolding sum_cu week_start week_reset
usage_weekly key_id limit now rows = record {
  used = sum_cu key_id (week_start now) rows;
  limit = limit;
  reset_at = week_reset now;
}
