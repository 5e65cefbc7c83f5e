-- ===== src/Deadline.antt =====
-- Loops that look again and again until something has happened or a deadline has passed, as those of
-- crates/daemon/src/stt_server.rs and crates/daemon/src/proc.rs. A loop is `find_map` over what it
-- sees; `none` is the model's own, for a list of looks that is too short.
use native.Mathlib.Nat.{le_trans, suc-mul, zero-mul}
use whispy.Base.{
  ℕ, zero, suc, ◌+◌, ◌*◌, ◌≤◌, ◌<◌, min, true, Option, List, [], ◌∷◌, ◌≡◌, inl, inr, refl, arith,
  length, find_map, is_some, subst, Option-cases,
}

module _ {A : Type 0} (now : A → ℕ) (deadline pause : ℕ) where
  -- The clock behind a look: no earlier than a pause behind the look before, or than the deadline.
  pub data Ticks : ℕ → List A → Type 0 where
    end : {t : ℕ} → Ticks t []
    tick :
        {t : ℕ} {a : A} {rest : List A}
        → t ≤ now a
        → Ticks (min deadline (now a + pause)) rest
        → Ticks t (a ∷ rest)

  next_look :
      (n t now' : ℕ)
      → t ≤ now'
      → deadline ≤ t + suc n * pause
      → deadline ≤ min deadline (now' + pause) + n * pause
  next_look n t now' later far =
      let far' : deadline ≤ t + (n * pause + pause) =
        subst (λ k. deadline ≤ t + k) (suc-mul n pause) far in
      ground (arith, far')

  -- A look behind the deadline is the last.
  pub find_map_ends :
      {B : Type 0} (f : A → Option B) (n t : ℕ) (looks : List A)
      → ((a : A) → deadline ≤ now a → is_some (f a) ≡ true)
      → Ticks t looks
      → deadline ≤ t + n * pause
      → n < length looks
      → is_some (find_map f looks) ≡ true
  find_map_ends f n t [] late ticks far room = absurd (omega arith)
  find_map_ends f zero t (a ∷ looks) late (tick later ticks) far room = elim (Option-cases (f a)) [
    | inl none_yet ↦
        cc (late a (le_trans (subst (λ k. deadline ≤ t + k) (zero-mul pause) far) (omega arith)))
    | inr (b, done) ↦ rw (done, find_map, is_some) refl
  ]
  find_map_ends f (suc n) t (a ∷ looks) late (tick later ticks) far room =
      elim (Option-cases (f a)) [
        | inl none_yet ↦
            rw (none_yet, find_map, is_some)
              (find_map_ends f n _ looks late ticks (next_look n t (now a) later far) (omega arith))
        | inr (b, done) ↦ rw (done, find_map, is_some) refl
      ]
