-- ===== src/Multipart/Fuel.antt =====
-- `parse` of crates/stt/src/multipart.rs ends: each round leaves less than it was given, so the fuel
-- of the model is enough.
use whispy.Base.{
  ℕ, zero, suc, ◌+◌, ◌≤◌, ◌<◌, some, List, [], ◌∷◌, ◌++◌, ◌≡◌, ◌≢◌, refl, arith, length, drop, take,
  ok, err, Result, starts_with, Bool-cases, Option-cases, inl, inr, ok_or, ◌>>=◌,
}
use whispy.Multipart.{
  find, round, Round, parted, closed, Part, parse, parse_rest, Error, message, out_of_fuel,
  named_part, field_name,
}
use whispy.Text.Split.{strip_prefix}
use whispy.Text.Utf8.{from_utf8_lossy}
use whispy.Text.{Bytes, codes}

pub length-drop-le {ℓ} : {A : Type ℓ} (n : ℕ) (xs : List A) → length (drop n xs) ≤ length xs
length-drop-le zero xs = omega arith
length-drop-le (suc n) [] = omega arith
length-drop-le (suc n) (x ∷ xs) = omega (arith, length-drop-le n xs)

-- What a round that gives a part does to the measure, and the errors a round gives.
abbrev Shrinks : Bytes → Result Error Round → Type 0
Shrinks rest (ok closed) = Unit
Shrinks rest (ok (parted p rest')) = length rest' < length rest
Shrinks rest (err (message m)) = Unit
Shrinks rest (err out_of_fuel) = ⊥

-- The rest of the round behind the delimiter line.
behind_line :
    (delim line rest : Bytes)
    → length line < length rest
    → Shrinks rest (do
      header_end ←
          ok_or
            (find line (codes "\r\n\r\n"))
            (message (codes "multipart part without headers end"))
      let headers = from_utf8_lossy (take header_end line)
      let after_headers = drop (header_end + 4) line
      let next_delim = codes "\r\n" ++ delim
      data_end ←
          ok_or (find after_headers next_delim) (message (codes "unterminated multipart part"))
      ok (
          parted
            (named_part (field_name headers) (take data_end after_headers))
            (drop (data_end + length next_delim) after_headers)))
behind_line delim line rest h = elim (Option-cases (find line (codes "\r\n\r\n"))) [
  | inl e ↦ rw e tt
  | inr (i, e) ↦ rw e (elim (Option-cases (find (drop (i + 4) line) (codes "\r\n" ++ delim))) [
    | inl e' ↦ rw e' tt
    | inr (j, e') ↦ rw e' (
        omega (
          arith,
          length-drop-le (i + 4) line,
          length-drop-le (j + length (codes "\r\n" ++ delim)) (drop (i + 4) line),
        ))
  ])
]

length-strip_prefix :
    (p xs l : Bytes) → strip_prefix p xs ≡ some l → length xs ≡ length p + length l
length-strip_prefix [] xs l e = ground arith
length-strip_prefix (c ∷ p) [] l e = cc
length-strip_prefix (c ∷ p) (x ∷ xs) l e = ground (arith, length-strip_prefix p xs l)

round-Shrinks : (delim rest : Bytes) → Shrinks rest (round delim rest)
unfolding round
round-Shrinks delim rest = elim (Bool-cases (starts_with rest (codes "--"))) [
  | inl end ↦ rw end tt
  | inr more ↦ rw more (elim (Option-cases (strip_prefix (codes "\r\n") rest)) [
    | inl e ↦ rw e tt
    | inr (line, e) ↦ rw e (
        behind_line delim line rest (omega (arith, length-strip_prefix (codes "\r\n") rest line e)))
  ])
]

parse_rest_next :
    (fuel : ℕ) (delim rest : Bytes) (parts : List Part) (r : Result Error Round)
    → round delim rest ≡ r
    → Shrinks rest r
    → length rest < suc fuel
    → ((rest' : Bytes) (parts' : List Part)
        → length rest' < fuel
        → parse_rest fuel delim rest' parts' ≢ err out_of_fuel)
    → parse_rest (suc fuel) delim rest parts ≢ err out_of_fuel
unfolding parse_rest
parse_rest_next fuel delim rest parts (err (message m)) e s h ih = rw (e, parse_rest) (λ x. cc)
parse_rest_next fuel delim rest parts (err out_of_fuel) e s h ih = absurd s
parse_rest_next fuel delim rest parts (ok closed) e s h ih = rw (e, parse_rest) (λ x. cc)
parse_rest_next fuel delim rest parts (ok (parted p rest')) e s h ih =
    rw (e, parse_rest) (ih rest' _ (omega arith))

parse_rest_ends :
    (fuel : ℕ) (delim rest : Bytes) (parts : List Part)
    → length rest < fuel
    → parse_rest fuel delim rest parts ≢ err out_of_fuel
parse_rest_ends zero delim rest parts h = elim h [ ]
parse_rest_ends (suc fuel) delim rest parts h =
    parse_rest_next fuel delim rest parts (round delim rest) refl (round-Shrinks delim rest) h
      (λ rest' parts' h'. parse_rest_ends fuel delim rest' parts' h')

-- The loop of `parse` ends on every body and boundary: the answer is the parts or one of the
-- source's errors, never the model's own `out_of_fuel`.
pub parse_ends : (body boundary : Bytes) → parse body boundary ≢ err out_of_fuel
unfolding parse
parse_ends body boundary = elim (Option-cases (find body (codes "--" ++ boundary))) [
  | inl e ↦ rw (e, parse) (λ x. cc)
  | inr (i, e) ↦
      rw (e, parse)
        (parse_rest_ends (suc (length body)) (codes "--" ++ boundary)
          (drop (i + length (codes "--" ++ boundary)) body) []
          (omega (arith, length-drop-le (i + length (codes "--" ++ boundary)) body)))
]
