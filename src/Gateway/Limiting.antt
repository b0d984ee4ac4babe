-- ===== src/Gateway/Limiting.antt =====
-- `Limiter` of engine/gateway.py: the fixed one-minute rate window and the requests in flight.

use inference_engine.Prelude.{
  ℕ, ◌+◌, ◌-◌, ◌/◌, Bool, true, false, Option, none, some, String, leb, ◌==◌, if◌then◌else◌,
  dict_get, dict_put, dict_pop,
}
use inference_engine.Gateway.Types.{Limiter}

abbrev pub or_default : Option ℕ → ℕ → ℕ
or_default none d = d
or_default (some n) d = n

-- The count of the key in the minute, 0 where its window is of another minute.
abbrev pub current_count : ℕ → Option (ℕ × ℕ) → ℕ
current_count bucket none = 0
current_count bucket (some (b, count)) = if b == bucket then count else 0

-- `check_rate`
unfoldable pub check_rate : String → ℕ → Option ℕ → Limiter → Limiter × Bool
check_rate key_id now rate l =
    let effective : ℕ = or_default rate l.rate in
    let bucket : ℕ = now / 60 in
    let count : ℕ = current_count bucket (dict_get key_id l.windows) in
    if effective == 0
    then (l, true)
    else if leb effective count
    then (record l { windows = dict_put key_id (bucket, count) l.windows }, false)
    else (record l { windows = dict_put key_id (bucket, count + 1) l.windows }, true)

-- `self._inflight.get(key_id, 0)`
abbrev pub inflight_of : String → Limiter → ℕ
inflight_of key_id l = or_default (dict_get key_id l.inflight) 0

-- `Limiter.acquire`
unfoldable pub acquire : String → Limiter → Limiter × Bool
acquire key_id l =
    let current : ℕ = inflight_of key_id l in
    if l.max_concurrent == 0
    then (record l { inflight = dict_put key_id (current + 1) l.inflight }, true)
    else if leb l.max_concurrent current
    then (l, false)
    else (record l { inflight = dict_put key_id (current + 1) l.inflight }, true)

-- `Limiter.release`
unfoldable pub release : String → Limiter → Limiter
release key_id l =
    let current : ℕ = inflight_of key_id l in
    if leb current 1
    then record l { inflight = dict_pop key_id l.inflight }
    else record l { inflight = dict_put key_id (current - 1) l.inflight }
