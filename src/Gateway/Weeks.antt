-- ===== src/Gateway/Weeks.antt =====
-- The fixed weekly window of engine/quota/windows.py: from Monday 00:00 UTC to the next.
use inference_engine.Prelude.{ℕ, ◌%◌, ◌≤◌, ◌<◌, ◌≡◌, arith}
use inference_engine.Gateway.Quota.{week_start, week_reset, weekday}

-- From the first Monday on, the fifth of January 1970: the window holds the moment that it is
-- computed for, begins on a Monday at midnight and is a week long.
pub week_holds :
    (now : ℕ)
    → 345600 ≤ now
    → (week_start now ≤ now)
      × (now < week_reset now)
      × (weekday (week_start now) ≡ 0)
      × (week_start now % 86400 ≡ 0)
unfolding week_reset week_start
week_holds now h = (omega arith, omega arith, omega arith, omega arith)

-- The window does not move with the moment: each moment of a week has the same one.
pub week_start_fixed :
    (now later : ℕ)
    → 345600 ≤ now
    → week_start now ≤ later
    → later < week_reset now
    → (week_start later ≡ week_start now) × (week_reset later ≡ week_reset now)
unfolding week_reset week_start
week_start_fixed now later h a b = (omega arith, omega arith)
