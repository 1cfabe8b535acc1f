-- ===== src/Trade/Live/Session/Expiry.antt =====
-- When a session expires.
-- A session that begins at a time expires later, within an hour, and 5 minutes past an hour.
use quantoxide.Dates.{floor_hour}
use quantoxide.Prelude.{arith, ◌%◌, ◌*◌, ◌+◌, ◌<◌, ◌≡◌, ◌≤◌}
use quantoxide.Time.{DateTime, hour, minute}
use quantoxide.Trade.Live.Session.{session_expiry}

pub session_expiry-bounds :
    (now : DateTime)
    → (now < session_expiry now)
      × (session_expiry now ≤ now + hour)
      × (session_expiry now % hour ≡ 5 * minute)
unfolding session_expiry floor_hour
session_expiry-bounds now = ground arith
