-- ===== src/Transcripts/Append.antt =====
-- What a log holds after an append: crates/daemon/src/transcripts.rs.
use whispy.Base.{
  ℕ, ◌<◌, ◌⊎◌, Bool, true, false, Option, none, some, List, [], ◌∷◌, ◌++◌, ◌≡◌, refl, sym, ap, ◌∙◌,
  arith, any, ◌==◌, append-nil, append_assoc, inl, inr, length,
}
use whispy.Text.{Bytes}
use whispy.Transcripts.Lines.{Terminated, lines_from-append, lines_from-one, parse_all-append}
use whispy.Transcripts.{
  Record, Files, Io, rotate_if_larger, bytes_or_empty, write_line, append, lines_from, parse,
  parse_all, records_of, read,
}

module _ (to_string : Record → Option Bytes) (from_slice : Bytes → Option Record) where
  -- The record is written as one line, and read back from it.
  pub record Encoded (r : Record) (text : Bytes) : Type 0 where
    pub encoded : to_string r ≡ some text
    pub decoded : parse from_slice text ≡ some r
    pub single : any (λ b. b == 10) text ≡ false

  records_of-append :
      (old text : Bytes) (r : Record)
      → Terminated old
      → Encoded r text
      → records_of from_slice (some (old ++ (text ++ (10 ∷ []))))
        ≡ records_of from_slice (some old) ++ (r ∷ [])
  unfolding records_of parse_all
  records_of-append old text r t e =
      ap (parse_all from_slice) (lines_from-append (text ++ (10 ∷ [])) t)
      ∙ parse_all-append from_slice (lines_from [] old) (lines_from [] (text ++ (10 ∷ [])))
      ∙ ap (λ ls. parse_all from_slice (lines_from [] old) ++ parse_all from_slice ls)
          (lines_from-one text e.single)
      ∙ rw e.decoded refl

  records_of_empty :
      (o : Option Bytes) → records_of from_slice (some (bytes_or_empty o)) ≡ records_of from_slice o
  unfolding records_of parse_all lines_from
  records_of_empty none = refl
  records_of_empty (some bytes) = refl

  rotate_cases :
      (max_bytes : ℕ) (io : Io) (files : Files)
      → (rotate_if_larger max_bytes io files ≡ files)
        ⊎ ((rotate_if_larger max_bytes io files
              ≡ record { current = none; rotated = files.current })
            × (max_bytes < length (bytes_or_empty files.current))
            × (io.renamed ≡ true))
  unfolding rotate_if_larger
  rotate_cases max_bytes io files = ground arith

  kept_Terminated :
      (max_bytes : ℕ) (io : Io) (files : Files)
      → Terminated (bytes_or_empty files.current)
      → Terminated (bytes_or_empty (rotate_if_larger max_bytes io files).current)
  kept_Terminated max_bytes io files t = elim (rotate_cases max_bytes io files) [
    | inl same ↦ rw same t
    | inr (moved, _, _) ↦ rw moved Terminated.empty
  ]

  append_done :
      (max_bytes : ℕ) (io : Io) (r : Record) (text : Bytes) (files : Files)
      → io.opened ≡ true
      → io.write_done ≡ true
      → to_string r ≡ some text
      → let kept = rotate_if_larger max_bytes io files in
        append to_string max_bytes io r files ≡ (
          record kept { current = some (bytes_or_empty kept.current ++ (text ++ (10 ∷ []))) },
          true,
        )
  unfolding append write_line
  append_done max_bytes io r text files opened done e = rw (e, opened, done) refl

  read_current :
      (rotated : Option Bytes) (bytes : Bytes)
      → read from_slice (record { current = some bytes; rotated = rotated })
        ≡ some (records_of from_slice rotated ++ records_of from_slice (some bytes))
  unfolding read
  read_current none bytes = refl
  read_current (some old) bytes = refl

  -- The records of both generations, in order.
  abbrev pub records : Files → List Record
  records files = records_of from_slice files.rotated ++ records_of from_slice files.current

  -- An append says that it succeeded and adds the record behind all that the log still holds, under
  -- these conditions: the log's file is empty or ends with a line break; it can be opened and is
  -- written whole; the record's JSON is one line, which reads back as the record. What the log still
  -- holds is all it held before, or, where the file had outgrown the cap and could be renamed, what
  -- that file held, the older generation being dropped. A rename that fails loses no record.
  pub read-append :
      (max_bytes : ℕ) (io : Io) (r : Record) (text : Bytes) (files : Files)
      → Terminated (bytes_or_empty files.current)
      → io.opened ≡ true
      → io.write_done ≡ true
      → Encoded r text
      → let kept = rotate_if_larger max_bytes io files in
        let (files1, done) = append to_string max_bytes io r files in
        (done ≡ true)
        × (read from_slice files1 ≡ some (records kept ++ (r ∷ [])))
        × ((records kept ≡ records files)
            ⊎ ((records kept ≡ records_of from_slice files.current)
                × (max_bytes < length (bytes_or_empty files.current))
                × (io.renamed ≡ true)))
  unfolding records_of
  read-append max_bytes io r text files t opened done e =
      let kept = rotate_if_larger max_bytes io files in
      (
        ap (λ (x : Files × Bool). x.1)
            (append_done max_bytes io r text files opened done e.encoded),
        ap (λ (x : Files × Bool). read from_slice x.0)
              (append_done max_bytes io r text files opened done e.encoded)
            ∙ read_current kept.rotated (bytes_or_empty kept.current ++ (text ++ (10 ∷ [])))
            ∙ ap (λ rs. some (records_of from_slice kept.rotated ++ rs))
                (records_of-append (bytes_or_empty kept.current) text r
                    (kept_Terminated max_bytes io files t) e
                  ∙ ap (λ rs. rs ++ (r ∷ [])) (records_of_empty kept.current))
            ∙ ap some (
                sym (
                  append_assoc (records_of from_slice kept.rotated)
                    (records_of from_slice kept.current) (r ∷ []))),
        elim (rotate_cases max_bytes io files) [
          | inl same ↦ inl (rw same refl)
          | inr (moved, larger, renamed) ↦ inr (rw moved (append-nil _), larger, renamed)
        ],
      )
