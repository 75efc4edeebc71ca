-- ===== src/Common/Bytes.antt =====
-- Little-endian words in byte arrays: what `memcpy` between a packed struct and a `QByteArray`
-- does on the little-endian hosts that the program is built for.
use Prim.Native.Nat.{ℕ, zero, suc, ◌+◌, ◌*◌, ◌/◌, ◌%◌, ◌^◌, ◌≤◌, ◌<◌}
use mathlib.Core.Path.{◌≡◌, refl, ap}
use mathlib.Core.List.{List, [], ◌∷◌, ◌++◌}
use native.Mathlib.Omega.{arith}
use native.Mathlib.Nat.{pow-suc}
use zpserver.Common.Lists.{length}

-- The word in the first `n` bytes; what lies past the end reads as zero.
unfoldable pub word : ℕ → List ℕ → ℕ
word zero bs = 0
word (suc n) [] = 0
word (suc n) (b ∷ bs) = b + 256 * word n bs

-- The `n` bytes of a word.
unfoldable pub bytes : ℕ → ℕ → List ℕ
bytes zero x = []
bytes (suc n) x = x % 256 ∷ bytes n (x / 256)

pub length-bytes : (n x : ℕ) → length (bytes n x) ≡ n
unfolding bytes
length-bytes zero x = refl
length-bytes (suc n) x = ap suc (length-bytes n (x / 256))

-- Reading back the bytes of a word that fits gives the word, whatever follows.
pub word-bytes : (n x : ℕ) (rest : List ℕ) → x < 256 ^ n → word n (bytes n x ++ rest) ≡ x
unfolding word bytes
word-bytes zero x rest h = omega arith
word-bytes (suc n) x rest h =
    omega (arith, word-bytes n (x / 256) rest (omega (arith, pow-suc 256 n)))

-- A word in the bytes that are there does not see what follows.
pub word-append : (n : ℕ) (xs ys : List ℕ) → n ≤ length xs → word n (xs ++ ys) ≡ word n xs
unfolding word
word-append zero xs ys h = refl
word-append (suc n) [] ys h = absurd (omega arith)
word-append (suc n) (x ∷ xs) ys h = rw (word-append n xs ys (omega arith))
