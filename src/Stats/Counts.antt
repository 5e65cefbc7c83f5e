-- ===== src/Stats/Counts.antt =====
-- What the counts of `summarize` add up to: crates/daemon/src/stats.rs.
use whispy.Base.{
  ℕ, ◌+◌, Bool, true, ◌&&◌, not, List, [], ◌∷◌, ◌≡◌, refl, ap, arith, length, list_eq, list_eq_iff,
  if◌then◌else◌, ltb, Bool-cases, inl, inr,
}
use whispy.Stats.{
  Mean, Summary, default, count_reason, reason_or_unknown, add_record, add_records, summarize,
}
use whispy.Text.{Text}
use whispy.Transcripts.{Record}

-- The sum of all counts, and of those under one reason.
unfoldable pub count_all : List (Text × ℕ) → ℕ
count_all [] = 0
count_all ((key, n) ∷ rest) = n + count_all rest

unfoldable pub count_of : Text → List (Text × ℕ) → ℕ
count_of reason [] = 0
count_of reason ((key, n) ∷ rest) = (if list_eq reason key then n else 0) + count_of reason rest

-- How many records were accepted, and how many were dropped for a reason.
unfoldable pub how_many_accepted : List Record → ℕ
how_many_accepted [] = 0
how_many_accepted (r ∷ rs) = (if r.accepted then 1 else 0) + how_many_accepted rs

abbrev is_dropped : Text → Record → Bool
is_dropped reason r = not r.accepted && list_eq reason (reason_or_unknown r.drop_reason)

unfoldable pub how_many_dropped : Text → List Record → ℕ
how_many_dropped reason [] = 0
how_many_dropped reason (r ∷ rs) =
    (if is_dropped reason r then 1 else 0) + how_many_dropped reason rs

count_all-count_reason :
    (reason : Text) (counts : List (Text × ℕ))
    → count_all (count_reason reason counts) ≡ count_all counts + 1
unfolding count_all count_reason
count_all-count_reason reason [] = omega arith
count_all-count_reason reason ((key, n) ∷ rest) = ground (arith, count_all-count_reason reason rest)

list_eq_refl : (a : Text) → list_eq a a ≡ true
list_eq_refl a = (list_eq_iff a a).1 refl

count_of-count_reason :
    (which reason : Text) (counts : List (Text × ℕ))
    → count_of which (count_reason reason counts)
      ≡ (if list_eq which reason then 1 else 0) + count_of which counts
unfolding count_of count_reason
count_of-count_reason which reason [] = refl
count_of-count_reason which reason ((key, n) ∷ rest) = elim (Bool-cases (list_eq reason key)) [
  | inl same ↦
      let q = ap (list_eq which) ((list_eq_iff reason key).0 same) in ground (arith, q, same)
  | inr other ↦ ground (arith, other, count_of-count_reason which reason rest)
]

module _ (f : Mean) where
  -- The counts so far, with those of the records still to come.
  record Adds (rs : List Record) (s t : Summary) : Type 0 where
    total : t.total ≡ s.total + length rs
    accepted : t.accepted ≡ s.accepted + how_many_accepted rs
    dropped :
        (reason : Text)
        → count_of reason t.dropped ≡ count_of reason s.dropped + how_many_dropped reason rs
    sum : count_all t.dropped + t.accepted + s.total ≡ count_all s.dropped + s.accepted + t.total

  add_record-sum :
      (r : Record) (s : Summary)
      → (count_all (add_record f r s).dropped + (add_record f r s).accepted
          ≡ count_all s.dropped + s.accepted + 1)
        × ((add_record f r s).total ≡ s.total + 1)
        × ((add_record f r s).accepted ≡ s.accepted + (if r.accepted then 1 else 0))
  unfolding add_record
  add_record-sum r s =
      ground (arith, count_all-count_reason (reason_or_unknown r.drop_reason) s.dropped)

  add_record-dropped :
      (r : Record) (s : Summary) (reason : Text)
      → count_of reason (add_record f r s).dropped
        ≡ (if is_dropped reason r then 1 else 0) + count_of reason s.dropped
  unfolding add_record
  add_record-dropped r s reason =
      ground (arith, count_of-count_reason reason (reason_or_unknown r.drop_reason) s.dropped)

  add_records-Adds : (rs : List Record) (s : Summary) → Adds rs s (add_records f rs s)
  unfolding add_records how_many_accepted how_many_dropped
  add_records-Adds [] s = record {
    total = omega arith;
    accepted = omega arith;
    dropped = λ reason. omega arith;
    sum = refl;
  }
  add_records-Adds (r ∷ rs) s =
      let v = add_records-Adds rs (add_record f r s) in
      let (a, b, c) = add_record-sum r s in
      record {
        total = omega (arith, v.total, b);
        accepted = omega (arith, v.accepted, c);
        dropped = λ reason. omega (arith, v.dropped reason, add_record-dropped r s reason);
        sum = omega (arith, v.sum, a, b);
      }

  -- The summary counts every record once: as accepted, or as dropped under its reason (`unknown` if
  -- it has none); the total is the number of records, and the sum of the two.
  pub summarize_counts :
      (records : List Record)
      → let s = summarize f records in
        (s.total ≡ length records)
        × (s.accepted ≡ how_many_accepted records)
        × ((reason : Text) → count_of reason s.dropped ≡ how_many_dropped reason records)
        × (s.accepted + count_all s.dropped ≡ s.total)
  unfolding summarize count_of count_all
  summarize_counts records =
      let v = add_records-Adds records default in
      elim (Bool-cases (ltb 0 (add_records f records default).accepted)) [
        | inl positive ↦ rw positive (
          omega (arith, v.total),
          omega (arith, v.accepted),
          λ reason. omega (arith, v.dropped reason),
          omega (arith, v.sum),
        )
        | inr none_accepted ↦ rw none_accepted (
          omega (arith, v.total),
          omega (arith, v.accepted),
          λ reason. omega (arith, v.dropped reason),
          omega (arith, v.sum),
        )
      ]
