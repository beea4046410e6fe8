-- ===== src/Stream/Race.antt =====
-- proxy/streaming/progressive.py: a race that is won while the other candidate is pending.
use proxysplit.Base.{nat_eq}
