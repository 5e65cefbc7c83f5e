-- ===== src/Text/Utf8.antt =====
-- `String::from_utf8_lossy`: every maximal ill-formed piece of the bytes becomes U+FFFD.
use whispy.Base.{
  ℕ, ◌+◌, ◌-◌, ◌*◌, ◌%◌, ◌<◌, List, [], ◌∷◌, ◌++◌, ltb, ◌==◌, if◌then◌else◌, ◌≡◌, refl, arith,
}

abbrev Bytes : Type 0
Bytes = List ℕ

-- The bytes still missing from a sequence, what it has given so far, and the range of the next.
pub record Decoder : Type 0 where
  pub missing : ℕ
  pub point : ℕ
  pub lower : ℕ
  pub upper : ℕ

abbrev pub ground_state : Decoder
ground_state = record { missing = 0; point = 0; lower = 0x80; upper = 0xbf }

abbrev pub replacement : ℕ
replacement = 0xfffd

-- A byte where no sequence is open: what it gives, and the state after it.
abbrev pub open_byte : ℕ → Decoder × List ℕ
open_byte b =
    if ltb b 0x80
    then (ground_state, b ∷ [])
    else if ltb b 0xc2
    then (ground_state, replacement ∷ [])
    else if ltb b 0xe0
    then (record { missing = 1; point = b % 0x20; lower = 0x80; upper = 0xbf }, [])
    else if ltb b 0xf0
    then (
      record {
        missing = 2;
        point = b % 0x10;
        lower = if b == 0xe0 then 0xa0 else 0x80;
        upper = if b == 0xed then 0x9f else 0xbf;
      },
      [],
    )
    else if ltb b 0xf5
    then (
      record {
        missing = 3;
        point = b % 0x08;
        lower = if b == 0xf0 then 0x90 else 0x80;
        upper = if b == 0xf4 then 0x8f else 0xbf;
      },
      [],
    )
    else (ground_state, replacement ∷ [])

-- A byte inside a sequence: it continues it, or ends it as ill-formed and is read anew.
abbrev pub next_byte : Decoder → ℕ → Decoder × List ℕ
next_byte d b =
    if ltb b d.lower
    then ((open_byte b).0, replacement ∷ (open_byte b).1)
    else if ltb d.upper b
    then ((open_byte b).0, replacement ∷ (open_byte b).1)
    else if d.missing == 1
    then (ground_state, (d.point * 64 + b % 64) ∷ [])
    else (
      record { missing = d.missing - 1; point = d.point * 64 + b % 64; lower = 0x80; upper = 0xbf },
      [],
    )

unfoldable pub decode : Decoder → Bytes → List ℕ
decode d [] = if d.missing == 0 then [] else replacement ∷ []
decode d (b ∷ bs) =
    let (d', out) = if d.missing == 0 then open_byte b else next_byte d b in out ++ decode d' bs

unfoldable pub from_utf8_lossy : Bytes → List ℕ
unfolding decode
from_utf8_lossy = decode ground_state

abbrev pub IsAscii : Bytes → Type 0
IsAscii [] = Unit
IsAscii (b ∷ bs) = (b < 0x80) × IsAscii bs

-- ASCII bytes are their own text.
pub from_utf8_lossy_ascii : (bs : Bytes) → IsAscii bs → from_utf8_lossy bs ≡ bs
unfolding from_utf8_lossy
from_utf8_lossy_ascii [] h = refl
from_utf8_lossy_ascii (b ∷ bs) h = ground (arith, from_utf8_lossy_ascii bs h.1)
