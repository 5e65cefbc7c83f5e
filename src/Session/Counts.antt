-- ===== src/Session/Counts.antt =====
-- Counting what a session holds of one recording, crates/daemon/src/app.rs.
use whispy.Base.{
  ℕ, ◌+◌, Option, none, some, List, [], ◌∷◌, ◌++◌, ◌≡◌, ap, arith, ◌==◌, if◌then◌else◌,
}
use whispy.Session.State.{
  Event, opened, capture_cancelled, finished, injected, Job, closing, cancelling, processing,
  delivering, injecting, Recording,
}

-- The sum of a weight over a list.
abbrev pub tally {ℓ} : {A : Type ℓ} → (A → ℕ) → List A → ℕ
tally f [] = 0
tally f (x ∷ xs) = f x + tally f xs

pub tally-append {ℓ} :
    {A : Type ℓ} (f : A → ℕ) (xs ys : List A) → tally f (xs ++ ys) ≡ tally f xs + tally f ys
tally-append f [] ys = omega arith
tally-append f (x ∷ xs) ys = omega (arith, tally-append f xs ys)

pub tally-middle {ℓ} :
    {A : Type ℓ} (f : A → ℕ) (xs : List A) (y : A) (zs : List A)
    → tally f (xs ++ (y ∷ zs)) ≡ tally f xs + f y + tally f zs
tally-middle f xs y zs = omega (arith, tally-append f xs (y ∷ zs))

-- A list with one entry replaced by others.
pub tally-replace {ℓ} :
    {A : Type ℓ} (f : A → ℕ) (before after left : List A) (y : A) {xs : List A}
    → xs ≡ before ++ (y ∷ after)
    → tally f (before ++ (left ++ after)) + f y ≡ tally f xs + tally f left
tally-replace f before after left y e = omega (
  arith,
  ap (tally f) e,
  tally-middle f before y after,
  tally-append f before (left ++ after),
  tally-append f left after,
)

abbrev pub same : ℕ → ℕ → ℕ
same n m = if n == m then 1 else 0

-- Captures opened for recording `n`, and captures closed, by a cancel or by a finish.
abbrev pub opening_of : ℕ → Event → ℕ
opening_of n (opened m) = same n m
opening_of n _ = 0

abbrev pub closing_event_of : ℕ → Event → ℕ
closing_event_of n (capture_cancelled m) = same n m
closing_event_of n (finished m) = same n m
closing_event_of n _ = 0

abbrev pub recording_of : ℕ → Option Recording → ℕ
recording_of n none = 0
recording_of n (some r) = same n r.id

-- Jobs that have the capture of recording `n` in hand.
abbrev pub holding_of : ℕ → Job → ℕ
holding_of n (closing r) = same n r.id
holding_of n (cancelling taken) = recording_of n taken
holding_of n _ = 0

-- The clip of recording `n`: finished, on its way to the injection, and injected.
abbrev pub finish_of : ℕ → Event → ℕ
finish_of n (finished m) = same n m
finish_of n _ = 0

abbrev pub injection_of : ℕ → Event → ℕ
injection_of n (injected m _ _) = same n m
injection_of n _ = 0

abbrev pub waiting_of : ℕ → Job → ℕ
waiting_of n (processing clip) = same n clip.id
waiting_of n (delivering clip _) = same n clip.id
waiting_of n _ = 0

abbrev pub injecting_of : ℕ → Job → ℕ
injecting_of n (injecting clip _) = same n clip.id
injecting_of n _ = 0

-- Jobs that hold the injection lock, of any recording.
abbrev pub locking : Job → ℕ
locking (injecting _ _) = 1
locking _ = 0
