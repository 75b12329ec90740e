-- ===== src/Contracts/Sha256/Padding.antt =====
-- packages/contracts/src/hash.ts: the padded message of sha256Hex.
use mathlib.Core.Path.{sym, ◌∙◌}
use mathlib.Core.List.{append_assoc}
use amca_core.Common.{
  ℕ, zero, suc, ◌+◌, ◌-◌, ◌*◌, ◌/◌, ◌%◌, ◌^◌, ◌≤◌, ◌<◌, ◌≡◌, refl, ap, List, [], ◌∷◌, ◌++◌, length,
  length-append, arith,
}

unfoldable pub padded_sha256_length : ℕ → ℕ
padded_sha256_length byte_length =
    let length_with_one_bit = byte_length + 1 in
    let padding_length = (64 - ((length_with_one_bit + 8) % 64)) % 64 in
    length_with_one_bit + padding_length + 8

abbrev replicate : ℕ → ℕ → List ℕ
replicate zero x = []
replicate (suc n) x = x ∷ replicate n x

-- The eight bytes that `writeUint64BigEndian` stores.
unfoldable pub uint64_big_endian : ℕ → List ℕ
uint64_big_endian value =
    let high = value / 0x100000000 in
    let low = value % 0x100000000 in
    (high / 2 ^ 24 % 256)
    ∷ (high / 2 ^ 16 % 256)
    ∷ (high / 2 ^ 8 % 256)
    ∷ (high % 256)
    ∷ (low / 2 ^ 24 % 256)
    ∷ (low / 2 ^ 16 % 256)
    ∷ (low / 2 ^ 8 % 256)
    ∷ (low % 256)
    ∷ []

-- `data[index] = x`, which is ignored out of range.
abbrev set : List ℕ → ℕ → ℕ → List ℕ
set [] i x = []
set (_ ∷ array) zero x = x ∷ array
set (y ∷ array) (suc i) x = y ∷ set array i x

-- `data.set(bytes)`. It is called with an array that has room for the bytes.
abbrev set_all : List ℕ → List ℕ → List ℕ
set_all array [] = array
set_all [] bytes = []
set_all (_ ∷ array) (b ∷ bytes) = b ∷ set_all array bytes

-- Single writes at an offset and behind it, in order.
abbrev write_bytes : List ℕ → ℕ → List ℕ → List ℕ
write_bytes array offset [] = array
write_bytes array offset (b ∷ bytes) = write_bytes (set array offset b) (offset + 1) bytes

abbrev write_uint64_big_endian : List ℕ → ℕ → ℕ → List ℕ
write_uint64_big_endian array offset value = write_bytes array offset (uint64_big_endian value)

-- The array `data` that the loop over blocks reads.
unfoldable pub pad : List ℕ → List ℕ
unfolding padded_sha256_length uint64_big_endian
pad bytes =
    let bit_length = length bytes * 8 in
    let total_length = padded_sha256_length (length bytes) in
    let array = set (set_all (replicate total_length 0) bytes) (length bytes) 0x80 in
    write_uint64_big_endian array (total_length - 8) bit_length

length-replicate : (n x : ℕ) → length (replicate n x) ≡ n
length-replicate zero x = refl
length-replicate (suc n) x = ap suc (length-replicate n x)

replicate_split : (m n k x : ℕ) → k ≡ m + n → replicate k x ≡ replicate m x ++ replicate n x
replicate_split zero n k x h = ap (λ i. replicate i x) (omega (arith, h))
replicate_split (suc m) n zero x h = absurd (omega (arith, h))
replicate_split (suc m) n (suc k) x h =
    ap (λ xs. x ∷ xs) (replicate_split m n k x (omega (arith, h)))

-- A write behind a front changes the entry there.
set_middle :
    (front back : List ℕ) (i old x : ℕ)
    → i ≡ length front
    → set (front ++ old ∷ back) i x ≡ front ++ x ∷ back
set_middle [] back zero old x h = refl
set_middle [] back (suc i) old x h = absurd (omega (arith, h))
set_middle (y ∷ front) back zero old x h = absurd (omega (arith, h))
set_middle (y ∷ front) back (suc i) old x h =
    ap (λ xs. y ∷ xs) (set_middle front back i old x (omega (arith, h)))

set_all-append :
    (n : ℕ) (bytes back : List ℕ)
    → n ≡ length bytes
    → set_all (replicate n 0 ++ back) bytes ≡ bytes ++ back
set_all-append zero [] back h = refl
set_all-append zero (b ∷ bytes) back h = absurd (omega (arith, h))
set_all-append (suc n) [] back h = absurd (omega (arith, h))
set_all-append (suc n) (b ∷ bytes) back h =
    ap (λ xs. b ∷ xs) (set_all-append n bytes back (omega (arith, h)))

write_bytes-append :
    (front : List ℕ) (i n : ℕ) (bytes : List ℕ)
    → i ≡ length front
    → n ≡ length bytes
    → write_bytes (front ++ replicate n 0) i bytes ≡ front ++ bytes
write_bytes-append front i zero [] hi hn = refl
write_bytes-append front i zero (b ∷ bytes) hi hn = absurd (omega (arith, hn))
write_bytes-append front i (suc n) [] hi hn = absurd (omega (arith, hn))
write_bytes-append front i (suc n) (b ∷ bytes) hi hn =
    let ih =
      write_bytes-append (front ++ b ∷ []) (i + 1) n bytes
        (omega (arith, hi, length-append front (b ∷ []))) (omega (arith, hn)) in
    rw (set_middle front (replicate n 0) i 0 b hi)
      (rw (append_assoc front (b ∷ []) (replicate n 0), append_assoc front (b ∷ []) bytes) at ih)

-- The padded length of a message of n bytes is a multiple of 64, at least n + 9, and below n + 73.
pub padded_sha256_length_lem :
    (n : ℕ)
    → (padded_sha256_length n % 64 ≡ 0)
      × (n + 9 ≤ padded_sha256_length n)
      × (padded_sha256_length n < n + 9 + 64)
unfolding padded_sha256_length
padded_sha256_length_lem n = (omega arith, omega arith, omega arith)

-- The zeros between 0x80 and the length of a message of n bytes.
abbrev pub zero_bytes : ℕ → List ℕ
zero_bytes n = replicate (padded_sha256_length n - 8 - (n + 1)) 0

-- The zeroed array, cut where the writes go.
zeroed :
    (n : ℕ)
    → replicate (padded_sha256_length n) 0 ≡ replicate n 0 ++ 0 ∷ (zero_bytes n ++ replicate 8 0)
zeroed n =
    let m = padded_sha256_length n - 8 - (n + 1) in
    let size : padded_sha256_length n ≡ n + suc (m + 8) =
      omega (arith, (padded_sha256_length_lem n).1) in
    rw
      (
        replicate_split n (suc (m + 8)) (padded_sha256_length n) 0 size,
        replicate_split m 8 (m + 8) 0 refl,
      )
      refl

front_length :
    (bytes : List ℕ)
    → padded_sha256_length (length bytes) - 8 ≡ length (bytes ++ 0x80 ∷ zero_bytes (length bytes))
front_length bytes =
    let n = length bytes in
    rw (length-append, length-replicate) (omega (arith, (padded_sha256_length_lem n).1))

length-uint64 : (value : ℕ) → 8 ≡ length (uint64_big_endian value)
unfolding uint64_big_endian
length-uint64 value = refl

-- The padded message is the message, the byte 0x80, as many zeros as the padded length leaves, and
-- the length of the message in bits as eight bytes, the highest first.
pub pad_layout :
    (bytes : List ℕ)
    → pad bytes
      ≡ bytes ++ 0x80 ∷ (zero_bytes (length bytes) ++ uint64_big_endian (length bytes * 8))
unfolding pad
pad_layout bytes =
    let n = length bytes in
    let end = padded_sha256_length n - 8 in
    let bits = uint64_big_endian (n * 8) in
    let front = bytes ++ 0x80 ∷ zero_bytes n in
    let size : end ≡ length front = front_length bytes in
    let array : set (set_all (replicate (padded_sha256_length n) 0) bytes) n 0x80
        ≡ front ++ replicate 8 0 =
      rw
        (
          zeroed n,
          set_all-append n bytes (0 ∷ (zero_bytes n ++ replicate 8 0)) refl,
          set_middle bytes (zero_bytes n ++ replicate 8 0) n 0 0x80 refl,
        )
        (sym (append_assoc bytes (0x80 ∷ zero_bytes n) (replicate 8 0))) in
    ap (λ xs. write_bytes xs end bits) array
    ∙ write_bytes-append front end 8 bits size (length-uint64 (n * 8))
    ∙ append_assoc bytes (0x80 ∷ zero_bytes n) bits

-- The number whose digits to the base 256 these bytes are, the highest first.
abbrev pub big_endian_value : ℕ → List ℕ → ℕ
big_endian_value acc [] = acc
big_endian_value acc (b ∷ bs) = big_endian_value (acc * 256 + b) bs

-- The eight bytes stored for a number below 2 ^ 64, read with the highest first, are that number.
pub uint64_round_trip :
    (value : ℕ) → value < 2 ^ 64 → big_endian_value 0 (uint64_big_endian value) ≡ value
unfolding uint64_big_endian
uint64_round_trip value h = omega arith
