-- ===== src/Tests/Proc.antt =====
-- A tool that hangs: crates/daemon/src/proc.rs.
use whispy.Base.{ℕ, ◌+◌, ◌*◌, ◌≤◌, max, true, some, none, [], ◌∷◌, ◌≡◌, refl, arith, ok, err, all}
use whispy.Deadline.{end, tick}
use whispy.Proc.Bounds.{output_ends, Ended, is_running}
use whispy.Proc.{
  Look, Started, Pipe, Ending, ExitStatus, Output, output, wait_until, kill, wait, timed_out,
  with_stdin, broken_pipe, pipe_grace,
}
use whispy.Text.{codes}

abbrev hung : ℕ → Look
hung t = record { waited = ok none; now = t }

abbrev gone : ℕ → Look
gone t = record { waited = ok (some (some 0)); now = t }

abbrev child : Started
child = record { start = 0; looks = hung 0 ∷ hung 5000000 ∷ hung 10000000 ∷ [] }

abbrev piped : Pipe
piped = record { sent_at = some 1; message = ok (1 ∷ []) }

abbrev held : Pipe
held = record { sent_at = none; message = ok [] }

-- A tool that ignores its input succeeds all the same.
with_stdin_deaf :
    with_stdin 10 (ok (record { start = 0; looks = gone 3 ∷ [] })) true (some (err broken_pipe))
    ≡ some (record { result = ok (some 0); acts = []; at = 3 })
unfolding with_stdin
with_stdin_deaf = refl

-- A process that was left behind holds the pipe open.
pipe_left_open :
    output 10 (ok (record { start = 0; looks = gone 3 ∷ [] })) piped held
    ≡ some (record {
      result = err (timed_out (codes "output pipe still open after exit"));
      acts = [];
      at = 200000010;
    })
unfolding output
pipe_left_open = refl

output_ends_example :
    (e : Ending ExitStatus) × (o : Ending Output) × (wait_until 10000000 child.looks ≡ some e)
    × (output 10000000 (ok child) piped held ≡ some o)
    × Ended 10000000 e
    × (all is_running child.looks ≡ true → e.acts ≡ kill ∷ wait ∷ [])
    × (o.at ≤ max e.at 10000000 + 2 * pipe_grace)
output_ends_example =
    output_ends 10000000 2 child piped held
      (tick (omega arith) (tick (omega arith) (tick (omega arith) end))) (omega arith) (omega arith)
