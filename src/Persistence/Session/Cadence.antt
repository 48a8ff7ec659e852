-- ===== src/Persistence/Session/Cadence.antt =====
-- How old a stored session row gets before internal/persistence/session_snapshot.go rewrites it.
use grex.Base.{ℕ, ◌+◌, ◌*◌, ◌≤◌, ◌≡◌, false, some, arith}
use grex.Fleet.Registry.{older_than}
use grex.Persistence.Session.{SessionWrite, keepalive_interval, is_due}

-- If the tick is no longer than the disconnect threshold, the keepalive and one more tick fit into
-- the threshold, and the keepalive is at most two thirds of it.
pub keepalive_interval_fits :
    (disconnect_after tick : ℕ)
    → tick ≤ disconnect_after
    → (keepalive_interval disconnect_after tick + tick ≤ disconnect_after)
      × (keepalive_interval disconnect_after tick * 3 ≤ disconnect_after * 2)
unfolding keepalive_interval
keepalive_interval_fits disconnect_after tick h = ground arith

-- If the tick is no longer than the disconnect threshold, a row that a pass at `now` leaves alone
-- is at no time up to the next tick older than that threshold.
pub skipped_stays_fresh :
    (disconnect_after tick now later : ℕ) (w : SessionWrite)
    → tick ≤ disconnect_after
    → is_due (keepalive_interval disconnect_after tick) now (some w) ≡ false
    → later ≤ now + tick
    → older_than disconnect_after later w.last_seen ≡ false
skipped_stays_fresh d tick now later w h not_due before =
    ground (arith, keepalive_interval_fits d tick h)
