-- ===== src/Tests/Contract.antt =====
-- A conversation with the session: crates/daemon/src/app.rs.
use whispy.Base.{ok, none, ◌∷◌}
use whispy.Protocol.{Cmd}
use whispy.Session.Captures.{initial}
use whispy.Session.State.{App}
use whispy.Session.{handle}
use whispy.Tests.Session.{setup, answers, fresh_status}

abbrev after : Cmd → App → App
after c a = (handle setup c (ok tt) none answers a).0

abbrev recording_app : App
recording_app = after (Cmd.start none) (initial fresh_status)

abbrev overrun_app : App
overrun_app = record recording_app { auto_stopped = 0 ∷ recording_app.auto_stopped }
