-- ===== src/Transcripts.antt =====
-- The transcript log: crates/daemon/src/transcripts.rs, with the rotation of
-- crates/daemon/src/config.rs. `serde_json` is an argument. A file that exists can be opened.
pub mod Lines
pub mod Append
use whispy.Base.{
  ℕ, zero, suc, Bool, true, false, ◌&&◌, ◌||◌, not, Option, none, some, List, [], ◌∷◌, ◌++◌, length,
  take, ltb, ◌==◌, is_some, if◌then◌else◌, Result, ok, err,
}
use whispy.Float.{F32, F64}
use whispy.Stt.{Transcription}
use whispy.Text.{Text, Bytes}

-- `Record`.
pub record Record : Type 0 where
  pub timestamp : F64
  pub text : Text
  pub accepted : Bool
  pub drop_reason : Option Text
  pub avg_logprob : F32
  pub no_speech_prob : F32
  pub language : Option Text

-- `Record::new`.
unfoldable pub new : F64 → Transcription → Option Text → Record
new now t drop_reason = record {
  timestamp = now;
  text = t.text;
  accepted = not (is_some drop_reason);
  drop_reason = drop_reason;
  avg_logprob = t.avg_logprob;
  no_speech_prob = t.no_speech_prob;
  language = t.language;
}

-- The log's file and its rotated generation.
pub record Files : Type 0 where
  pub current : Option Bytes
  pub rotated : Option Bytes

-- How the file system answers one `append`.
pub record Io : Type 0 where
  pub renamed : Bool
  pub opened : Bool
  pub write_done : Bool
  pub written : ℕ

-- `rotate_if_larger`. Its error is logged and otherwise ignored.
unfoldable pub rotate_if_larger : ℕ → Io → Files → Files
rotate_if_larger max_bytes io files = elim files.current [
  | none ↦ files
  | some bytes ↦
      if ltb max_bytes (length bytes) && io.renamed
      then record { current = none; rotated = some bytes }
      else files
]

abbrev pub bytes_or_empty : Option Bytes → Bytes
bytes_or_empty none = []
bytes_or_empty (some bytes) = bytes

-- The rest of `append`, with the record encoded, or `none` if `serde_json` refused it; the flag is
-- whether `Ok(())` came back.
unfoldable pub write_line : Io → Option Bytes → Files → Files × Bool
write_line io none files = (files, false)
write_line io (some line) files =
    let old = bytes_or_empty files.current in
    if not io.opened
    then (files, false)
    else if not io.write_done
    then (record files { current = some (old ++ take io.written (line ++ (10 ∷ []))) }, false)
    else (record files { current = some (old ++ (line ++ (10 ∷ []))) }, true)

-- `BufRead::split(b'\n')`, behind the bytes of an unfinished line.
unfoldable pub lines_from : Bytes → Bytes → List Bytes
lines_from [] [] = []
lines_from (c ∷ cur) [] = (c ∷ cur) ∷ []
lines_from cur (b ∷ bytes) =
    let rest = lines_from (if b == 10 then [] else cur ++ (b ∷ [])) bytes in
    if b == 10 then cur ∷ rest else rest

-- `u8::is_ascii_whitespace` and `<[u8]>::trim_ascii`.
abbrev pub is_ascii_whitespace : ℕ → Bool
is_ascii_whitespace b = b == 32 || b == 9 || b == 10 || b == 12 || b == 13

abbrev pub trim_ascii_start : Bytes → Bytes
trim_ascii_start [] = []
trim_ascii_start (b ∷ bs) = if is_ascii_whitespace b then trim_ascii_start bs else b ∷ bs

abbrev pub push_trimmed : ℕ → Bytes → Bytes
push_trimmed b [] = if is_ascii_whitespace b then [] else b ∷ []
push_trimmed b (c ∷ cs) = b ∷ c ∷ cs

abbrev pub trim_ascii_end : Bytes → Bytes
trim_ascii_end [] = []
trim_ascii_end (b ∷ bs) = push_trimmed b (trim_ascii_end bs)

module _ (to_string : Record → Option Bytes) where
  -- `append`.
  unfoldable pub append : ℕ → Io → Record → Files → Files × Bool
  unfolding rotate_if_larger write_line
  append max_bytes io r files = write_line io (to_string r) (rotate_if_larger max_bytes io files)

module _ (from_slice : Bytes → Option Record) where
  -- `parse`, behind the trimming.
  abbrev pub parse_trimmed : Bytes → Option Record
  parse_trimmed [] = none
  parse_trimmed (b ∷ bs) = from_slice (b ∷ bs)

  -- `parse`.
  unfoldable pub parse : Bytes → Option Record
  parse line = parse_trimmed (trim_ascii_end (trim_ascii_start line))

  abbrev pub cons_some : Option Record → List Record → List Record
  cons_some none rs = rs
  cons_some (some r) rs = r ∷ rs

  unfoldable pub parse_all : List Bytes → List Record
  unfolding parse
  parse_all [] = []
  parse_all (l ∷ ls) = cons_some (parse l) (parse_all ls)

  unfoldable pub records_of : Option Bytes → List Record
  unfolding lines_from parse_all
  records_of none = []
  records_of (some bytes) = parse_all (lines_from [] bytes)

  -- `read`.
  unfoldable pub read : Files → Option (List Record)
  unfolding records_of
  read files =
      if not (is_some files.rotated) && not (is_some files.current)
      then none
      else some (records_of files.rotated ++ records_of files.current)

  abbrev pub or_empty : Option (List Record) → List Record
  or_empty none = []
  or_empty (some rs) = rs

  abbrev pub reversed : List Record → List Record
  reversed [] = []
  reversed (r ∷ rs) = reversed rs ++ (r ∷ [])

  -- `newest`.
  unfoldable pub newest : ℕ → Files → List Record
  unfolding read
  newest n files = take n (reversed (or_empty (read files)))
