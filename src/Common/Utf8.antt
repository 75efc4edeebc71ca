-- ===== src/Common/Utf8.antt =====
-- QString::toStdString and QString(const char *): the UTF-8 of a text, and the text of UTF-8. A text
-- is its QChars, the 16-bit units of UTF-16, and UTF-8 is that of RFC 3629. Of what is not well-formed
-- Qt only says that it is replaced: here a unit of a surrogate pair that stands alone is written as a
-- question mark, and a byte that starts no sequence is read as U+FFFD; what is stated is about
-- well-formed text.
pub mod RoundTrip
use Prim.Native.Nat.{ℕ, zero, suc, ◌+◌, ◌-◌, ◌*◌, ◌/◌, ◌%◌, ◌≤◌, ◌<◌}
use mathlib.Core.Path.{◌≡◌, refl, ap, ◌∙◌}
use mathlib.Core.Bool.{Bool, true, false, not, ◌&&◌}
use mathlib.Core.Option.{Option, none, some}
use mathlib.Core.List.{List, [], ◌∷◌, ◌++◌}
use native.Mathlib.Omega.{arith}
use zpserver.Common.Tests.{ltb, leb, ◌==◌, if◌then◌else◌}
use zpserver.Common.Map.{Text}

abbrev pub is_high : ℕ → Bool
is_high c = leb 0xD800 c && ltb c 0xDC00

abbrev pub is_low : ℕ → Bool
is_low c = leb 0xDC00 c && ltb c 0xE000

-- A unit outside of a surrogate pair
unfoldable pub unit_bytes : ℕ → List ℕ
unit_bytes c =
    if ltb c 0x80
    then c ∷ []
    else if ltb c 0x800
    then (0xC0 + c / 64) ∷ (0x80 + c % 64) ∷ []
    else if is_low c
    then 0x3F ∷ []
    else (0xE0 + c / 4096) ∷ (0x80 + c / 64 % 64) ∷ (0x80 + c % 64) ∷ []

-- A surrogate pair, as the character of 21 bits that it stands for
unfoldable pub pair_bytes : ℕ → ℕ → List ℕ
pair_bytes high low =
    let c = 0x10000 + (high - 0xD800) * 1024 + (low - 0xDC00) in
    (0xF0 + c / 262144) ∷ (0x80 + c / 4096 % 64) ∷ (0x80 + c / 64 % 64) ∷ (0x80 + c % 64) ∷ []

-- After a first unit of a pair, if there is one
unfoldable pub utf8_after : Option ℕ → Text → List ℕ
utf8_after none [] = []
utf8_after (some high) [] = 0x3F ∷ []
utf8_after none (c ∷ s) =
    let paired = utf8_after (some c) s in
    let alone = utf8_after none s in if is_high c then paired else unit_bytes c ++ alone
utf8_after (some high) (c ∷ s) =
    let other = utf8_after (some c) s in
    let rest = utf8_after none s in
    if is_low c
    then pair_bytes high c ++ rest
    else 0x3F ∷ (if is_high c then other else unit_bytes c ++ rest)

unfoldable pub to_utf8 : Text → List ℕ
unfolding utf8_after
to_utf8 s = utf8_after none s

abbrev pub continues : ℕ → Bool
continues b = leb 0x80 b && ltb b 0xC0

abbrev pub replaced : Text × ℕ
replaced = (0xFFFD ∷ [], 0)

-- The sequences of two, three and four bytes, without their first byte: the text, and how many of the
-- bytes belong to it
unfoldable pub two_bytes : ℕ → List ℕ → Text × ℕ
two_bytes b [] = replaced
two_bytes b (b1 ∷ bs) = if continues b1 then (((b - 0xC0) * 64 + (b1 - 0x80)) ∷ [], 1) else replaced

unfoldable pub three_bytes : ℕ → List ℕ → Text × ℕ
three_bytes b [] = replaced
three_bytes b (b1 ∷ []) = replaced
three_bytes b (b1 ∷ b2 ∷ bs) =
    let c = (b - 0xE0) * 4096 + (b1 - 0x80) * 64 + (b2 - 0x80) in
    if continues b1 && continues b2 && leb 0x800 c && not (is_high c) && not (is_low c)
    then (c ∷ [], 2)
    else replaced

unfoldable pub four_bytes : ℕ → List ℕ → Text × ℕ
four_bytes b [] = replaced
four_bytes b (b1 ∷ []) = replaced
four_bytes b (b1 ∷ b2 ∷ []) = replaced
four_bytes b (b1 ∷ b2 ∷ b3 ∷ bs) =
    let c = (b - 0xF0) * 262144 + (b1 - 0x80) * 4096 + (b2 - 0x80) * 64 + (b3 - 0x80) in
    if continues b1 && continues b2 && continues b3 && leb 0x10000 c && ltb c 0x110000
    then ((0xD800 + (c - 0x10000) / 1024) ∷ (0xDC00 + (c - 0x10000) % 1024) ∷ [], 3)
    else replaced

unfoldable pub sequence : ℕ → List ℕ → Text × ℕ
sequence b bs =
    if ltb b 0x80
    then (b ∷ [], 0)
    else if leb 0xC2 b && ltb b 0xE0
    then two_bytes b bs
    else if leb 0xE0 b && ltb b 0xF0
    then three_bytes b bs
    else if leb 0xF0 b && ltb b 0xF5
    then four_bytes b bs
    else replaced

-- `skip` bytes belong to the sequence before.
unfoldable pub utf8_from : ℕ → List ℕ → Text
utf8_from skip [] = []
utf8_from (suc skip) (b ∷ bs) = utf8_from skip bs
utf8_from zero (b ∷ bs) = let (units, skip) = sequence b bs in units ++ utf8_from skip bs

unfoldable pub from_utf8 : List ℕ → Text
unfolding utf8_from
from_utf8 bs = utf8_from 0 bs

-- Characters of 7 bits, none of them zero
abbrev pub IsAscii : Text → Type 0
IsAscii [] = Unit {0}
IsAscii (c ∷ s) = (0 < c) × (c < 128) × IsAscii s

pub to_utf8-IsAscii : (s : Text) → IsAscii s → to_utf8 s ≡ s
unfolding to_utf8 utf8_after unit_bytes
to_utf8-IsAscii [] a = refl
to_utf8-IsAscii (c ∷ s) (pos, small, a) =
    let below : ltb c 0xD800 ≡ true = ground (arith, small) in
    let one : ltb c 0x80 ≡ true = ground (arith, small) in
    let high : is_high c ≡ false = ground (arith, small) in
    rw (high, one) (ap (λ x. c ∷ x) (to_utf8-IsAscii s a))
