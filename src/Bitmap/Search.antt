-- ===== src/Bitmap/Search.antt =====
-- The searches `GetFreeInodeNum` and `GetFreeBlockNum` of OS/hw3/fs_internal.c, and the changes of
-- a bitmap, as statements about the numbers that are free.
use kw_home_work.Common.{
  ℕ, zero, suc, ◌+◌, ◌-◌, ◌*◌, ◌/◌, ◌%◌, ◌≤◌, ◌<◌, ◌≡◌, refl, ap, Bool, true, false, not, ◌&&◌,
  ◌||◌, Option, none, some, arith, inl, inr, ◌==◌, get_or, set, length, get_or-set_self,
  get_or-set_ne, length-set, Bool-cases, Option-cases, [], ◌∷◌,
}
use native.Mathlib.Decide.{ℕ_discrete, dec_lt}
use kw_home_work.Disk.{Block}
use kw_home_work.Bitmap.{set_bit, reset_bit, is_bit_clear, mark, unmark, free_bit, free_number}
use kw_home_work.Bitmap.Bits.{
  set_bit-lt, reset_bit-lt, is_bit_clear-set_bit, is_bit_clear-reset_bit,
}

abbrev pub is_free : ℕ → Block → Bool
is_free n bitmap = is_bit_clear (get_or bitmap (n / 8) 0) (7 - n % 8)

-- The cells of a `char` array.
abbrev pub IsBytes : Block → Type 0
IsBytes bitmap = (i : ℕ) → get_or bitmap i 0 < 256

-- A mark takes one number, and frees or takes no other.
pub is_free-mark :
    (n j : ℕ) (bitmap : Block)
    → IsBytes bitmap
    → n / 8 < length bitmap
    → is_free j (mark n bitmap) ≡ (not (n == j) && is_free j bitmap)
unfolding mark
is_free-mark n j bitmap bytes h = elim (ℕ_discrete (n / 8) (j / 8)) [
  | yes same ↦
      let b = get_or bitmap (n / 8) 0 in
      ground (
        arith,
        get_or-set_self bitmap (n / 8) (set_bit b (7 - n % 8)) 0 h,
        is_bit_clear-set_bit b (7 - n % 8) (7 - j % 8) (bytes (n / 8)) (omega arith) (omega arith),
      )
  | no other ↦
      let b = get_or bitmap (n / 8) 0 in
      ground (arith, get_or-set_ne bitmap (n / 8) (j / 8) (set_bit b (7 - n % 8)) 0 other)
]

pub is_free-unmark :
    (n j : ℕ) (bitmap : Block)
    → IsBytes bitmap
    → n / 8 < length bitmap
    → is_free j (unmark n bitmap) ≡ ((n == j) || is_free j bitmap)
unfolding unmark
is_free-unmark n j bitmap bytes h = elim (ℕ_discrete (n / 8) (j / 8)) [
  | yes same ↦
      let b = get_or bitmap (n / 8) 0 in
      ground (
        arith,
        get_or-set_self bitmap (n / 8) (reset_bit b (7 - n % 8)) 0 h,
        is_bit_clear-reset_bit b (7 - n % 8) (7 - j % 8) (bytes (n / 8)) (omega arith)
            (omega arith),
      )
  | no other ↦
      let b = get_or bitmap (n / 8) 0 in
      ground (arith, get_or-set_ne bitmap (n / 8) (j / 8) (reset_bit b (7 - n % 8)) 0 other)
]

-- The inner loop stops at the first clear bit,
free_bit-some :
    (n b byte k : ℕ)
    → free_bit n b byte ≡ some k
    → (b ≤ k)
      × (k < b + n)
      × (is_bit_clear byte (7 - k) ≡ true)
      × ((j : ℕ) → b ≤ j → j < k → is_bit_clear byte (7 - j) ≡ false)
unfolding free_bit
free_bit-some zero b byte k h = absurd (ground arith)
free_bit-some (suc n) b byte k h = elim (Bool-cases (is_bit_clear byte (7 - b))) [
  | inl clear ↦ (ground arith, ground arith, ground arith, λ j. ground arith)
  | inr taken ↦
      let (lo, hi, at, before) = free_bit-some n (b + 1) byte k (ground arith) in
      (
        omega arith,
        omega arith,
        at,
        λ j p q. elim (ℕ_discrete b j) [ yes e ↦ ground arith | no e ↦ before j (omega arith) q ],
      )
]

-- and finds none only if all are set.
free_bit-none :
    (n b byte j : ℕ)
    → free_bit n b byte ≡ none
    → b ≤ j
    → j < b + n
    → is_bit_clear byte (7 - j) ≡ false
unfolding free_bit
free_bit-none zero b byte j h p q = absurd (omega arith)
free_bit-none (suc n) b byte j h p q = elim (ℕ_discrete b j) [
  | yes e ↦ ground arith
  | no e ↦ free_bit-none n (b + 1) byte j (ground arith) (omega arith) (omega arith)
]

-- A number `j` of the byte `i`.
byte_of : (i j : ℕ) → i * 8 ≤ j → j < i * 8 + 8 → (j / 8 ≡ i) × (j ≡ i * 8 + j % 8)
byte_of i j p q = omega arith

module _ (bitmap : Block) where
  taken_byte :
      (i j : ℕ)
      → free_bit 8 0 (get_or bitmap i 0) ≡ none
      → i * 8 ≤ j
      → j < i * 8 + 8
      → is_free j bitmap ≡ false
  taken_byte i j h p q =
      rw (byte_of i j p q).0
        (free_bit-none 8 0 (get_or bitmap i 0) (j % 8) h (omega arith) (omega arith))

  -- The search returns the lowest free number of the bytes that it goes through,
  free_number_lowest :
      (n i m : ℕ)
      → free_number n i bitmap ≡ some m
      → (i * 8 ≤ m)
        × (m < (i + n) * 8)
        × (is_free m bitmap ≡ true)
        × ((j : ℕ) → i * 8 ≤ j → j < m → is_free j bitmap ≡ false)
  unfolding free_number
  free_number_lowest zero i m h = absurd (ground arith)
  free_number_lowest (suc n) i m h = elim (Option-cases (free_bit 8 0 (get_or bitmap i 0))) [
    | inr (k, e) ↦
        let (lo, hi, at, before) = free_bit-some 8 0 (get_or bitmap i 0) k e in
        let here : m ≡ i * 8 + k = ground arith in
        let parts = byte_of i m (omega arith) (omega arith) in
        (
          omega arith,
          omega arith,
          (let same : m % 8 ≡ k = omega arith in rw (parts.0, same) at),
          λ j p q. rw (byte_of i j p (omega arith)).0 (before (j % 8) (omega arith) (omega arith)),
        )
    | inl e ↦
        let (lo, hi, at, before) = free_number_lowest n (i + 1) m (ground arith) in
        (
          omega arith,
          omega arith,
          at,
          λ j p q. elim (dec_lt j (i * 8 + 8)) [
            | yes in_byte ↦ taken_byte i j e p in_byte
            | no above ↦ before j (omega arith) q
          ],
        )
  ]

  free_number_full :
      (n i j : ℕ)
      → free_number n i bitmap ≡ none
      → i * 8 ≤ j
      → j < (i + n) * 8
      → is_free j bitmap ≡ false
  unfolding free_number
  free_number_full zero i j h p q = absurd (omega arith)
  free_number_full (suc n) i j h p q = elim (Option-cases (free_bit 8 0 (get_or bitmap i 0))) [
    | inr (k, e) ↦ absurd (ground arith)
    | inl e ↦ elim (dec_lt j (i * 8 + 8)) [
      | yes in_byte ↦ taken_byte i j e p in_byte
      | no above ↦ free_number_full n (i + 1) j (ground arith) (omega arith) (omega arith)
    ]
  ]

-- What a search over `n` bytes promises: the lowest free number, or none only if all are taken.
abbrev pub Lowest : ℕ → Block → Option ℕ → Type 0
Lowest n bitmap none = (j : ℕ) → j < n * 8 → is_free j bitmap ≡ false
Lowest n bitmap (some m) =
    (m < n * 8) × (is_free m bitmap ≡ true) × ((j : ℕ) → j < m → is_free j bitmap ≡ false)

Lowest-of : (n : ℕ) (bitmap : Block) (r : Option ℕ) → free_number n 0 bitmap ≡ r → Lowest n bitmap r
Lowest-of n bitmap none h = λ j p. free_number_full bitmap n 0 j h (omega arith) (omega arith)
Lowest-of n bitmap (some m) h =
    let (lo, hi, at, before) = free_number_lowest bitmap n 0 m h in
    (omega arith, at, λ j q. before j (omega arith) q)

pub free_number-Lowest : (n : ℕ) (bitmap : Block) → Lowest n bitmap (free_number n 0 bitmap)
free_number-Lowest n bitmap = Lowest-of n bitmap (free_number n 0 bitmap) refl

pub length-mark : (n : ℕ) (bitmap : Block) → length (mark n bitmap) ≡ length bitmap
unfolding mark
length-mark n bitmap = length-set bitmap (n / 8) _

pub length-unmark : (n : ℕ) (bitmap : Block) → length (unmark n bitmap) ≡ length bitmap
unfolding unmark
length-unmark n bitmap = length-set bitmap (n / 8) _

set-IsBytes : (bitmap : Block) (k v : ℕ) → v < 256 → IsBytes bitmap → IsBytes (set bitmap k v)
set-IsBytes [] k v h bytes i = bytes i
set-IsBytes (x ∷ xs) zero v h bytes zero = h
set-IsBytes (x ∷ xs) zero v h bytes (suc i) = bytes (suc i)
set-IsBytes (x ∷ xs) (suc k) v h bytes zero = bytes 0
set-IsBytes (x ∷ xs) (suc k) v h bytes (suc i) = set-IsBytes xs k v h (λ j. bytes (suc j)) i

pub mark-IsBytes : (n : ℕ) (bitmap : Block) → IsBytes bitmap → IsBytes (mark n bitmap)
unfolding mark
mark-IsBytes n bitmap bytes =
    set-IsBytes bitmap (n / 8) _
      (set_bit-lt (get_or bitmap (n / 8) 0) (7 - n % 8) 0 (bytes (n / 8)) (omega arith)
        (omega arith))
      bytes

pub unmark-IsBytes : (n : ℕ) (bitmap : Block) → IsBytes bitmap → IsBytes (unmark n bitmap)
unfolding unmark
unmark-IsBytes n bitmap bytes =
    set-IsBytes bitmap (n / 8) _
      (reset_bit-lt (get_or bitmap (n / 8) 0) (7 - n % 8) 0 (bytes (n / 8)) (omega arith)
        (omega arith))
      bytes

-- A search has one lowest number.
pub Lowest-unique :
    (k : ℕ) (bitmap : Block) (n : ℕ) (o : Option ℕ)
    → Lowest k bitmap o
    → Lowest k bitmap (some n)
    → o ≡ some n
Lowest-unique k bitmap n none all (lt, is_f, first) = absurd (ground (arith, all n lt, is_f))
Lowest-unique k bitmap n (some m) (lt', is_f', first') (lt, is_f, first) =
    ap some (elim (dec_lt m n) [
      | yes below ↦ absurd (ground (arith, first m below, is_f'))
      | no not_below ↦ elim (dec_lt n m) [
        | yes above ↦ absurd (ground (arith, first' n above, is_f))
        | no not_above ↦ omega arith
      ]
    ])
