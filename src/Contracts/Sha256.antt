-- ===== src/Contracts/Sha256.antt =====
-- packages/contracts/src/hash.ts: sha256Hex over bytes. A word of 32 bits is a number below 2 ^ 32;
-- where the source lets a bitwise result be negative, the number is its unsigned reading, and every
-- sum is cut to 32 bits as `>>> 0` does.
pub mod Padding
use Prim.Native.Nat.{bit_and, bit_or, bit_xor}
use Prim.Native.String
use amca_core.Common.{
  ℕ, zero, suc, ◌+◌, ◌-◌, ◌*◌, ◌%◌, ◌/◌, ◌^◌, String, ◌≡◌, List, [], ◌∷◌, ◌++◌, length,
}
use amca_core.Contracts.Utf8.{shr, utf8_bytes}
use Padding.{pad}

abbrev word_mod : ℕ
word_mod = 0x100000000

abbrev initial_hash : List ℕ
initial_hash =
    0x6a09e667 ∷ 0xbb67ae85 ∷ 0x3c6ef372 ∷ 0xa54ff53a ∷ 0x510e527f ∷ 0x9b05688c ∷ 0x1f83d9ab
    ∷ 0x5be0cd19 ∷ []

abbrev round_constants : List ℕ
round_constants =
    0x428a2f98 ∷ 0x71374491 ∷ 0xb5c0fbcf ∷ 0xe9b5dba5 ∷ 0x3956c25b ∷ 0x59f111f1 ∷ 0x923f82a4
    ∷ 0xab1c5ed5 ∷ 0xd807aa98 ∷ 0x12835b01 ∷ 0x243185be ∷ 0x550c7dc3 ∷ 0x72be5d74 ∷ 0x80deb1fe
    ∷ 0x9bdc06a7 ∷ 0xc19bf174 ∷ 0xe49b69c1 ∷ 0xefbe4786 ∷ 0x0fc19dc6 ∷ 0x240ca1cc ∷ 0x2de92c6f
    ∷ 0x4a7484aa ∷ 0x5cb0a9dc ∷ 0x76f988da ∷ 0x983e5152 ∷ 0xa831c66d ∷ 0xb00327c8 ∷ 0xbf597fc7
    ∷ 0xc6e00bf3 ∷ 0xd5a79147 ∷ 0x06ca6351 ∷ 0x14292967 ∷ 0x27b70a85 ∷ 0x2e1b2138 ∷ 0x4d2c6dfc
    ∷ 0x53380d13 ∷ 0x650a7354 ∷ 0x766a0abb ∷ 0x81c2c92e ∷ 0x92722c85 ∷ 0xa2bfe8a1 ∷ 0xa81a664b
    ∷ 0xc24b8b70 ∷ 0xc76c51a3 ∷ 0xd192e819 ∷ 0xd6990624 ∷ 0xf40e3585 ∷ 0x106aa070 ∷ 0x19a4c116
    ∷ 0x1e376c08 ∷ 0x2748774c ∷ 0x34b0bcb5 ∷ 0x391c0cb3 ∷ 0x4ed8aa4a ∷ 0x5b9cca4f ∷ 0x682e6ff3
    ∷ 0x748f82ee ∷ 0x78a5636f ∷ 0x84c87814 ∷ 0x8cc70208 ∷ 0x90befffa ∷ 0xa4506ceb ∷ 0xbef9a3f7
    ∷ 0xc67178f2 ∷ []

-- `data[index] ?? 0`
word_at : List ℕ → ℕ → ℕ
word_at [] i = 0
word_at (x ∷ xs) zero = x
word_at (x ∷ xs) (suc i) = word_at xs i

unfoldable pub rotate_right : ℕ → ℕ → ℕ
rotate_right x k = bit_or (shr x k) (x * 2 ^ (32 - k) % word_mod)

invert : ℕ → ℕ
invert x = word_mod - 1 - x

-- The sixteen words of a block, big endian, from the bytes at its offset.
block_words : ℕ → List ℕ → List ℕ
block_words zero bytes = []
block_words (suc n) (a ∷ b ∷ c ∷ d ∷ rest) =
    (a * 2 ^ 24 + b * 2 ^ 16 + c * 2 ^ 8 + d) ∷ block_words n rest
block_words (suc n) bytes = []

-- The words 16 to 63, each from the words before it; `index` is the length of `words`.
schedule : ℕ → ℕ → List ℕ → List ℕ
schedule zero index words = words
schedule (suc n) index words =
    let w15 = word_at words (index - 15) in
    let w2 = word_at words (index - 2) in
    let s0 = bit_xor (bit_xor (rotate_right w15 7) (rotate_right w15 18)) (shr w15 3) in
    let s1 = bit_xor (bit_xor (rotate_right w2 17) (rotate_right w2 19)) (shr w2 10) in
    let next = (word_at words (index - 16) + s0 + word_at words (index - 7) + s1) % word_mod in
    schedule n (index + 1) (words ++ next ∷ [])

pub record Registers : Type 0 where
  pub a : ℕ
  pub b : ℕ
  pub c : ℕ
  pub d : ℕ
  pub e : ℕ
  pub f : ℕ
  pub g : ℕ
  pub h : ℕ

round : Registers → ℕ → ℕ → Registers
round r k w =
    let sum1 = bit_xor (bit_xor (rotate_right r.e 6) (rotate_right r.e 11)) (rotate_right r.e 25) in
    let choice = bit_xor (bit_and r.e r.f) (bit_and (invert r.e) r.g) in
    let temp1 = (r.h + sum1 + choice + k + w) % word_mod in
    let sum0 = bit_xor (bit_xor (rotate_right r.a 2) (rotate_right r.a 13)) (rotate_right r.a 22) in
    let majority = bit_xor (bit_xor (bit_and r.a r.b) (bit_and r.a r.c)) (bit_and r.b r.c) in
    let temp2 = (sum0 + majority) % word_mod in
    record {
      a = (temp1 + temp2) % word_mod;
      b = r.a;
      c = r.b;
      d = r.c;
      e = (r.d + temp1) % word_mod;
      f = r.e;
      g = r.f;
      h = r.g;
    }

rounds : Registers → List ℕ → List ℕ → Registers
rounds r (k ∷ ks) (w ∷ ws) = rounds (round r k w) ks ws
rounds r _ _ = r

-- The body of the loop over blocks.
compress : List ℕ → List ℕ → List ℕ
compress state block =
    let words = schedule 48 16 (block_words 16 block) in
    let start : Registers = record {
      a = word_at state 0;
      b = word_at state 1;
      c = word_at state 2;
      d = word_at state 3;
      e = word_at state 4;
      f = word_at state 5;
      g = word_at state 6;
      h = word_at state 7;
    } in
    let r = rounds start round_constants words in
    ((start.a + r.a) % word_mod)
    ∷ ((start.b + r.b) % word_mod)
    ∷ ((start.c + r.c) % word_mod)
    ∷ ((start.d + r.d) % word_mod)
    ∷ ((start.e + r.e) % word_mod)
    ∷ ((start.f + r.f) % word_mod)
    ∷ ((start.g + r.g) % word_mod)
    ∷ ((start.h + r.h) % word_mod)
    ∷ []

drop : ℕ → List ℕ → List ℕ
drop zero xs = xs
drop (suc n) [] = []
drop (suc n) (x ∷ xs) = drop n xs

-- `blocks` rounds of the loop over the padded data.
digest_blocks : ℕ → List ℕ → List ℕ → List ℕ
digest_blocks zero state bytes = state
digest_blocks (suc blocks) state bytes = digest_blocks blocks (compress state bytes) (drop 64 bytes)

hex_digit_from : List String → ℕ → String
hex_digit_from [] n = ""
hex_digit_from (x ∷ xs) zero = x
hex_digit_from (x ∷ xs) (suc n) = hex_digit_from xs n

hex_digit : ℕ → String
unfolding hex_digit_from
hex_digit = hex_digit_from (
    "0" ∷ "1" ∷ "2" ∷ "3" ∷ "4" ∷ "5" ∷ "6" ∷ "7" ∷ "8" ∷ "9" ∷ "a" ∷ "b" ∷ "c" ∷ "d" ∷ "e" ∷ "f"
    ∷ [])

-- `word.toString(16).padStart(8, "0")`: eight hexadecimal digits.
hex_word : ℕ → ℕ → String
hex_word zero w = ""
hex_word (suc digits) w = String.◌++◌ (hex_word digits (w / 16)) (hex_digit (w % 16))

hex_words : List ℕ → String
hex_words [] = ""
hex_words (w ∷ ws) = String.◌++◌ (hex_word 8 w) (hex_words ws)

unfoldable pub sha256_hex : String → String
unfolding pad hex_words hex_word hex_digit digest_blocks drop compress rounds round schedule
    block_words word_at rotate_right invert utf8_bytes
sha256_hex input =
    let data_bytes = pad (utf8_bytes input) in
    hex_words (digest_blocks (length data_bytes / 64) initial_hash data_bytes)
