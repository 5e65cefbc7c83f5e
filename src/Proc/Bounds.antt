-- ===== src/Proc/Bounds.antt =====
-- That `wait_until` and `output` of crates/daemon/src/proc.rs come to an end. `with_stdin`, which joins
-- the writer of the input without a deadline, is not covered.
use whispy.Base.{
  ℕ, ◌+◌, ◌*◌, ◌≤◌, ◌<◌, max, Bool, true, false, Option, none, some, List, [], ◌∷◌, ◌≡◌, refl, sym,
  subst, some_inj, ◌∙◌, arith, length, leb, all, find_map, is_some, Option-cases, Bool-cases, inl,
  inr, Result, ok, err, &&-true,
}
use whispy.Deadline.{Ticks, find_map_ends}
use whispy.Proc.{
  Look, Ending, ExitStatus, IoError, timed_out, kill, wait, look_once, judge_wait, wait_until,
  Started, Pipe, Output, pipe_grace, collect, collect_both, output, poll, map_ending,
}
use whispy.Text.{codes}

-- How a wait for a child can end: it exited, it could not be waited for, or it was killed and reaped
-- once the deadline had passed.
pub data Ended (deadline : ℕ) : Ending ExitStatus → Type 0 where
  exits : (s : ExitStatus) (t : ℕ) → Ended deadline (record { result = ok s; acts = []; at = t })
  breaks : (x : IoError) (t : ℕ) → Ended deadline (record { result = err x; acts = []; at = t })
  is_killed :
      (t : ℕ)
      → deadline ≤ t
      → Ended deadline
          (record { result = err (timed_out (codes "timed out")); acts = kill ∷ wait ∷ []; at = t })

-- Whether a look finds the child running.
abbrev pub runs : Result IoError (Option ExitStatus) → Bool
runs (ok none) = true
runs _ = false

abbrev pub is_running : Look → Bool
is_running l = runs l.waited

look_once_late :
    (deadline : ℕ) (l : Look) → deadline ≤ l.now → is_some (look_once deadline l) ≡ true
unfolding look_once
look_once_late deadline l h = ground arith

judge_wait-Ended :
    (deadline now : ℕ) (r : Result IoError (Option ExitStatus)) (e : Ending ExitStatus)
    → judge_wait deadline now r ≡ some e
    → Ended deadline e
judge_wait-Ended deadline now (err x) e h = subst (Ended deadline) (some_inj h) (breaks x now)
judge_wait-Ended deadline now (ok (some s)) e h = subst (Ended deadline) (some_inj h) (exits s now)
judge_wait-Ended deadline now (ok none) e h = elim (Bool-cases (leb deadline now)) [
  | inl late ↦
      subst (Ended deadline) (some_inj (sym (rw late refl) ∙ h))
        (is_killed now (ground (arith, late)))
  | inr early ↦ cc
]

wait_until-Ended :
    (deadline : ℕ) (looks : List Look) (e : Ending ExitStatus)
    → wait_until deadline looks ≡ some e
    → Ended deadline e
unfolding wait_until look_once
wait_until-Ended deadline [] e h = cc
wait_until-Ended deadline (l ∷ looks) e h =
    elim (Option-cases (judge_wait deadline l.now l.waited)) [
      | inl more ↦ wait_until-Ended deadline looks e (sym (rw (more, find_map) refl) ∙ h)
      | inr (e', done) ↦
          judge_wait-Ended deadline l.now l.waited e (done ∙ sym (rw (done, find_map) refl) ∙ h)
    ]

judge_wait_hung :
    (deadline now : ℕ) (r : Result IoError (Option ExitStatus)) (e : Ending ExitStatus)
    → runs r ≡ true
    → judge_wait deadline now r ≡ some e
    → e.acts ≡ kill ∷ wait ∷ []
judge_wait_hung deadline now (err x) e r h = cc
judge_wait_hung deadline now (ok (some s)) e r h = cc
judge_wait_hung deadline now (ok none) e r h = ground arith

-- A child that never exits.
wait_until_hung :
    (deadline : ℕ) (looks : List Look) (e : Ending ExitStatus)
    → all is_running looks ≡ true
    → wait_until deadline looks ≡ some e
    → e.acts ≡ kill ∷ wait ∷ []
unfolding wait_until look_once
wait_until_hung deadline [] e r h = cc
wait_until_hung deadline (l ∷ looks) e r h =
    let (first, rest) = &&-true (runs l.waited) _ r in
    elim (Option-cases (judge_wait deadline l.now l.waited)) [
      | inl more ↦ wait_until_hung deadline looks e rest (sym (rw (more, find_map) refl) ∙ h)
      | inr (e', done) ↦
          judge_wait_hung deadline l.now l.waited e first
            (done ∙ sym (rw (done, find_map) refl) ∙ h)
    ]

collect_at :
    (p : Pipe) (deadline now : ℕ) → (collect p deadline now).at ≤ max now deadline + pipe_grace
unfolding collect
collect_at p deadline now = ground arith

collect_both_at :
    (out errors : Pipe) (deadline : ℕ) (e : Ending ExitStatus)
    → (collect_both out errors deadline e).at ≤ max e.at deadline + 2 * pipe_grace
unfolding collect_both
collect_both_at out errors deadline e =
    ground (
      arith,
      collect_at out deadline e.at,
      collect_at errors deadline (collect out deadline e.at).at,
    )

-- `output` always returns for a tool that was started, if the clock passes by at least one poll
-- between two looks at the child, n polls make up the timeout, and more than n looks are taken. The
-- wait for the child ends in one of three ways: the child exited, it could not be waited for, or it
-- was killed and reaped behind the deadline; a tool that never exits ends in the last. Once the wait
-- is over, its output is waited for until the deadline at most, and twice the grace, whoever still
-- holds the pipes open.
pub output_ends :
    (timeout n : ℕ) (child : Started) (out errors : Pipe)
    → Ticks (λ (l : Look). l.now) (child.start + timeout) poll child.start child.looks
    → timeout ≤ n * poll
    → n < length child.looks
    → let deadline = child.start + timeout in
      (e : Ending ExitStatus) × (o : Ending Output) × (wait_until deadline child.looks ≡ some e)
      × (output timeout (ok child) out errors ≡ some o)
      × Ended deadline e
      × (all is_running child.looks ≡ true → e.acts ≡ kill ∷ wait ∷ [])
      × (o.at ≤ max e.at deadline + 2 * pipe_grace)
unfolding output wait_until
output_ends timeout n child out errors ticks far room =
    let deadline : ℕ = child.start + timeout in
    elim (Option-cases (wait_until deadline child.looks)) [
      | inl never ↦ absurd (
          cc (
            find_map_ends _ _ poll (look_once deadline) n child.start child.looks
              (look_once_late deadline) ticks (omega arith) room))
      | inr (e, ends) ↦ (
        e,
        collect_both out errors deadline e,
        ends,
        rw (ends, map_ending) refl,
        wait_until-Ended deadline child.looks e ends,
        λ r. wait_until_hung deadline child.looks e r ends,
        collect_both_at out errors deadline e,
      )
    ]
