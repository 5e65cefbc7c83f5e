-- ===== src/Transcripts/Lines.antt =====
-- The lines of a log file: crates/daemon/src/transcripts.rs.
use whispy.Base.{
  false, Option, none, some, List, [], ◌∷◌, ◌++◌, ◌≡◌, refl, sym, ap, ◌∙◌, arith, any, ◌==◌,
  append-nil, append_assoc, Bool-cases, inl, inr,
}
use whispy.Transcripts.{Record, lines_from, parse_all, parse, cons_some}
use whispy.Text.{Bytes}

-- The bytes end with a line break, or there are none.
pub data Terminated : Bytes → Type 0 where
  empty : Terminated []
  line :
      (bytes rest : Bytes)
      → any (λ b. b == 10) bytes ≡ false
      → Terminated rest
      → Terminated (bytes ++ (10 ∷ rest))

lines_from-line :
    (cur bytes rest : Bytes)
    → any (λ b. b == 10) bytes ≡ false
    → lines_from cur (bytes ++ (10 ∷ rest)) ≡ (cur ++ bytes) ∷ lines_from [] rest
unfolding lines_from
lines_from-line cur [] rest h = ap (λ l. l ∷ lines_from [] rest) (sym (append-nil cur))
lines_from-line cur (b ∷ bytes) rest h = elim (Bool-cases (b == 10)) [
  | inl break ↦ absurd (ground arith)
  | inr other ↦ rw other (
      lines_from-line (cur ++ (b ∷ [])) bytes rest (ground arith)
      ∙ ap (λ l. l ∷ lines_from [] rest) (append_assoc cur (b ∷ []) bytes))
]

-- Lines behind a terminated file are lines of their own.
pub lines_from-append :
    {a : Bytes} (b : Bytes)
    → Terminated a
    → lines_from [] (a ++ b) ≡ lines_from [] a ++ lines_from [] b
unfolding lines_from
lines_from-append b empty = refl
lines_from-append b (line bytes rest h t) =
    ap (lines_from []) (append_assoc bytes (10 ∷ rest) b)
    ∙ lines_from-line [] bytes (rest ++ b) h
    ∙ ap (◌∷◌ bytes) (lines_from-append b t)
    ∙ ap (λ ls. ls ++ lines_from [] b) (sym (lines_from-line [] bytes rest h))

pub lines_from-one :
    (bytes : Bytes)
    → any (λ b. b == 10) bytes ≡ false
    → lines_from [] (bytes ++ (10 ∷ [])) ≡ bytes ∷ []
unfolding lines_from
lines_from-one bytes h = lines_from-line [] bytes [] h

module _ (from_slice : Bytes → Option Record) where
  cons_some-append :
      (o : Option Record) (rs ss : List Record)
      → cons_some from_slice o rs ++ ss ≡ cons_some from_slice o (rs ++ ss)
  cons_some-append none rs ss = refl
  cons_some-append (some r) rs ss = refl

  pub parse_all-append :
      (ls ms : List Bytes)
      → parse_all from_slice (ls ++ ms) ≡ parse_all from_slice ls ++ parse_all from_slice ms
  unfolding parse_all
  parse_all-append [] ms = refl
  parse_all-append (l ∷ ls) ms =
      ap (cons_some from_slice (parse from_slice l)) (parse_all-append ls ms)
      ∙ sym (
          cons_some-append (parse from_slice l) (parse_all from_slice ls) (parse_all from_slice ms))
