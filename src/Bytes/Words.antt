-- ===== src/Bytes/Words.antt =====
-- 32-bit integers in memory, lowest byte first, as `memcpy` of a struct copies them.
use kw_home_work.Common.{ℕ, ◌+◌, ◌*◌, ◌/◌, ◌%◌, ◌^◌, ◌<◌, ◌≡◌, refl, List, [], ◌∷◌, arith, length}

-- The bytes of an `int`, given as its bit pattern.
unfoldable pub int_bytes : ℕ → List ℕ → List ℕ
int_bytes w rest = w % 256 ∷ w / 256 % 256 ∷ w / 65536 % 256 ∷ w / 16777216 % 256 ∷ rest

unfoldable pub ints_bytes : List ℕ → List ℕ
unfolding int_bytes
ints_bytes [] = []
ints_bytes (w ∷ ws) = int_bytes w (ints_bytes ws)

-- The integers that the first bytes hold.
unfoldable pub ints_of : List ℕ → List ℕ
ints_of (a ∷ b ∷ c ∷ d ∷ rest) = (a + 256 * b + 65536 * c + 16777216 * d) ∷ ints_of rest
ints_of _ = []

abbrev pub AreInts : List ℕ → Type 0
AreInts [] = Unit {0}
AreInts (w ∷ ws) = (w < 2 ^ 32) × AreInts ws

pub ints_of-ints_bytes : (ws : List ℕ) → AreInts ws → ints_of (ints_bytes ws) ≡ ws
unfolding ints_of ints_bytes
ints_of-ints_bytes [] h = refl
ints_of-ints_bytes (w ∷ ws) (h, hs) =
    let e : w % 256
          + 256 * (w / 256 % 256)
          + 65536 * (w / 65536 % 256)
          + 16777216 * (w / 16777216 % 256)
        ≡ w =
      omega arith in
    rw (e, ints_of-ints_bytes ws hs)

pub length-ints_bytes : (ws : List ℕ) → length (ints_bytes ws) ≡ 4 * length ws
unfolding ints_bytes
length-ints_bytes [] = refl
length-ints_bytes (w ∷ ws) = omega (arith, length-ints_bytes ws)
