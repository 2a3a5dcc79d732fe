-- ===== src/Clock.antt =====
-- Python's `datetime` in UTC, as microseconds since the epoch. A call that reads the clock takes
-- the reading as its argument `now`; an optional `at` argument of the source stays optional.
use mandate_gateway.Base.{Option, none, some}
use mandate_gateway.Int.{ℤ, pos, ◌+ℤ◌, ◌*ℤ◌}

abbrev pub Time : Type 0
Time = ℤ

-- `datetime.fromtimestamp(t.timestamp() + seconds, tz=timezone.utc)`
unfoldable pub add_seconds : Time → ℤ → Time
unfolding ◌+ℤ◌ ◌*ℤ◌
add_seconds t seconds = t +ℤ seconds *ℤ pos 1_000_000

-- `at if at is not None else _utc_now()`
abbrev pub time_or_now : Option Time → Time → Time
time_or_now none now = now
time_or_now (some t) now = t
