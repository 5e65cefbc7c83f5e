-- ===== src/Tests/Logs.antt =====
-- The transcript log on concrete records: crates/daemon/src/transcripts.rs and stats.rs.
use whispy.Base.{some, none, Option, [], ◌∷◌, ◌++◌, ◌≡◌, ◌<◌, ◌⊎◌, ◌+◌, refl, length, true}
use whispy.Stats.Counts.{count_all, count_of, how_many_accepted, how_many_dropped, summarize_counts}
use whispy.Stats.{Mean, summarize}
use whispy.Text.{Text, Bytes, codes}
use whispy.Transcripts.Append.{records, read-append}
use whispy.Transcripts.Lines.{Terminated, line, empty}
use whispy.Transcripts.{
  Record, Files, Io, new, append, read, newest, rotate_if_larger, records_of, bytes_or_empty,
  reversed,
}

abbrev heard : Record
heard =
    new 0 (record { text = codes "hi"; avg_logprob = 0; no_speech_prob = 0; language = none }) none

abbrev missed : Record
missed =
    new 0 (record { text = []; avg_logprob = 0; no_speech_prob = 0; language = none })
      (some (codes "empty"))

-- An encoding that knows one record, `h`.
abbrev to_string : Record → Option Bytes
to_string _ = some (codes "h")

abbrev from_slice : Bytes → Option Record
from_slice _ = some heard

abbrev old : Files
old = record { current = some (codes "h\n"); rotated = none }

old-Terminated : Terminated (codes "h\n")
old-Terminated = line (codes "h") [] refl empty

abbrev all_done : Io
all_done = record { renamed = true; opened = true; write_done = true; written = 0 }

read-append_example :
    let kept = rotate_if_larger 1 all_done old in
    let (files1, done) = append to_string 1 all_done heard old in
    (done ≡ true)
    × (read from_slice files1 ≡ some (records to_string from_slice kept ++ (heard ∷ [])))
    × ((records to_string from_slice kept ≡ records to_string from_slice old)
        ⊎ ((records to_string from_slice kept ≡ records_of from_slice old.current)
            × (1 < length (bytes_or_empty old.current))
            × (true ≡ true)))
unfolding whispy.Transcripts.parse
read-append_example =
    read-append to_string from_slice 1 all_done heard (codes "h") old old-Terminated refl refl
      (record { encoded = refl; decoded = refl; single = refl })

abbrev means : Mean
means = record { add = λ a b. a; mean = λ a n. 0 }

summarize_counts_example :
    ((summarize means (heard ∷ missed ∷ [])).total ≡ length (heard ∷ missed ∷ []))
    × ((summarize means (heard ∷ missed ∷ [])).accepted ≡ how_many_accepted (heard ∷ missed ∷ []))
    × ((reason : Text)
        → count_of reason (summarize means (heard ∷ missed ∷ [])).dropped
          ≡ how_many_dropped reason (heard ∷ missed ∷ []))
    × ((summarize means (heard ∷ missed ∷ [])).accepted
          + count_all (summarize means (heard ∷ missed ∷ [])).dropped
        ≡ (summarize means (heard ∷ missed ∷ [])).total)
summarize_counts_example = summarize_counts means (heard ∷ missed ∷ [])

empty_dropped : (summarize means (heard ∷ missed ∷ [])).dropped ≡ (codes "empty", 1) ∷ []
unfolding summarize new
empty_dropped = refl
