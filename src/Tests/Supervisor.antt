-- ===== src/Tests/Supervisor.antt =====
-- The life of a server, and a wait for its port: crates/daemon/src/stt_server.rs.
use whispy.Base.{ℕ, true, false, none, List, [], ◌∷◌, ◌≡◌, refl, arith, ok}
use whispy.Choice.{ComputeBackend}
use whispy.Engine.{whisper}
use whispy.Supervisor.Children.{supervise-Orderly, Orderly}
use whispy.Supervisor.Delays.{new, delay, fail_times, reset, delay-fail}
use whispy.Supervisor.{
  Server, Launch, Timing, Wait, Look, Nap, Round, daemon_timing, supervise, slept, spawned, killed,
  reaped,
}
use whispy.Text.{codes}

abbrev server : Server
server = record {
  engine = whisper;
  bin = codes "/opt/whisper-server";
  model = codes "base.bin";
  language = codes "en";
  host = codes "127.0.0.1";
  port = 8642;
  backend = ComputeBackend.auto;
  log_path = codes "/tmp/stt.log";
}

abbrev launch : ℕ → Launch
launch pid = record {
  bin_exists = true;
  model_exists = true;
  log = ok tt;
  run = λ bin args. ok pid;
}

abbrev quick : Wait
quick = record {
  resolved = true;
  start = 0;
  looks = record { now = 10; halted = false; exited = false; connected = false ∷ true ∷ [] } ∷ [];
}

abbrev slow : Wait
slow = record {
  resolved = true;
  start = 0;
  looks = record { now = 10; halted = false; exited = true; connected = [] } ∷ [];
}

-- A server that dies, and one that does not come up behind it.
abbrev rounds : List Round
rounds =
    record { running = true; attempt = record { launch = launch 8; wait = quick; halted = false } }
    ∷ record {
      running = false;
      attempt = record { launch = launch 8; wait = slow; halted = false };
    }
    ∷ record {
      running = false;
      attempt = record { launch = launch 9; wait = quick; halted = false };
    }
    ∷ []

three_lives :
    supervise server daemon_timing (ok tt) (launch 7) quick rounds
    ≡ reaped 9
      ∷ killed 9
      ∷ slept 2000000000
      ∷ spawned 9
      ∷ reaped 8
      ∷ slept 2000000000
      ∷ spawned 8
      ∷ reaped 7
      ∷ slept 2000000000
      ∷ slept 2000000000
      ∷ spawned 7
      ∷ []
unfolding supervise new
three_lives = refl

supervise-Orderly_example :
    Orderly (supervise server daemon_timing (ok tt) (launch 7) quick rounds) none
supervise-Orderly_example = supervise-Orderly server daemon_timing (ok tt) (launch 7) quick rounds

delay-fail_example :
    (delay (fail_times 4 (new 2000000000 60000000000)) ≡ 16000000000)
    × (delay (reset (fail_times 4 (new 2000000000 60000000000))) ≡ 2000000000)
delay-fail_example = delay-fail 3 2000000000 60000000000 (omega arith) (omega arith)

abbrev short : Timing
short = record { poll = 10; backoff_cap = 20; ready_timeout = 400; ready_poll = 200 }

abbrev deaf : ℕ → Look
deaf t = record { now = t; halted = false; exited = false; connected = false ∷ [] }

abbrev dozing : ℕ → Nap
dozing t = record { now = t; halted = false }

abbrev deaf_server : Wait
deaf_server = record { resolved = true; start = 0; looks = deaf 0 ∷ deaf 201 ∷ deaf 400 ∷ [] }
