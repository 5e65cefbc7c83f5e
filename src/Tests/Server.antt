-- ===== src/Tests/Server.antt =====
-- The session behind the socket: crates/daemon/src/server.rs with app.rs.
use whispy.Base.{none, true, List, [], ◌∷◌, ◌≡◌, refl, ok, err, list_eq, if◌then◌else◌}
use whispy.Protocol.{Cmd, Resp}
use whispy.Server.Order.{serve-talk, Ends}
use whispy.Server.{
  Wire, Place, Accept, accepted, would_block, accept_fails, line, idles, stale, serve,
}
use whispy.Session.State.{App}
use whispy.Session.{handle}
use whispy.Tests.Session.{setup, answers, idle_app}
use whispy.Text.{Text, codes}

abbrev wire : Wire
wire = record {
  parse_cmd = λ l.
      if list_eq l (codes "start")
      then ok (Cmd.start none)
      else if list_eq l (codes "stop")
      then ok Cmd.stop
      else err (codes "?");
  print_resp = λ r. if r.is_ok then codes "ok" else codes "error";
}

abbrev place : Place
place = record {
  path = codes "/run/whispy.sock";
  dir_made = ok tt;
  removed = ok tt;
  bound = ok tt;
  nonblocking = ok tt;
  closed = true;
}

abbrev accepts : List Accept
accepts =
    would_block
    ∷ accepted (record {
      settings = ok tt;
      arrivals =
          line (codes "start") (ok tt)
          ∷ line (codes " ") (ok tt)
          ∷ line (codes "x") (ok tt)
          ∷ idles
          ∷ [];
    })
    ∷ accept_fails (codes "too many files")
    ∷ accepted (record {
      settings = ok tt;
      arrivals = line (codes "stop") (ok tt) ∷ line (codes "stop") (err (codes "gone")) ∷ [];
    })
    ∷ []

abbrev handle_here : Cmd → App → App × Resp
handle_here c a = handle setup c (ok tt) none answers a

replies_to_two :
    (serve wire handle_here place accepts stale idle_app).replies
    ≡ codes "ok\n" ∷ codes "error\n" ∷ codes "ok\n" ∷ codes "error\n" ∷ []
unfolding serve whispy.Text.is_whitespace handle whispy.Session.State.reclaim
    whispy.Session.State.is_stopped whispy.Session.State.report whispy.Session.State.is_recording
replies_to_two = refl

serve-talk_example :
    Ends wire handle_here place accepts stale idle_app
      (serve wire handle_here place accepts stale idle_app)
serve-talk_example = serve-talk wire handle_here place accepts stale idle_app
