-- ===== src/Contracts/Utf8.antt =====
-- packages/contracts/src/hash.ts: utf8Bytes and appendUtf8CodePoint. A text is a sequence of code
-- points, so the loop by `codePointAt` visits each once; lone surrogates are left out.
use Prim.Native.Nat.{bit_and, bit_or}
use amca_core.Common.{ℕ, ◌/◌, ◌^◌, String, List, [], ◌∷◌, ◌++◌, leb, if◌then◌else◌, codes}

-- x >>> k
abbrev pub shr : ℕ → ℕ → ℕ
shr x k = x / 2 ^ k

append_utf8_code_point : ℕ → List ℕ
append_utf8_code_point c =
    if leb c 0x7f
    then c ∷ []
    else if leb c 0x7ff
    then bit_or 0xc0 (shr c 6) ∷ bit_or 0x80 (bit_and c 0x3f) ∷ []
    else if leb c 0xffff
    then bit_or 0xe0 (shr c 12)
      ∷ bit_or 0x80 (bit_and (shr c 6) 0x3f)
      ∷ bit_or 0x80 (bit_and c 0x3f)
      ∷ []
    else bit_or 0xf0 (shr c 18)
      ∷ bit_or 0x80 (bit_and (shr c 12) 0x3f)
      ∷ bit_or 0x80 (bit_and (shr c 6) 0x3f)
      ∷ bit_or 0x80 (bit_and c 0x3f)
      ∷ []

utf8_from : List ℕ → List ℕ
utf8_from [] = []
utf8_from (c ∷ cs) = append_utf8_code_point c ++ utf8_from cs

unfoldable pub utf8_bytes : String → List ℕ
unfolding utf8_from append_utf8_code_point
utf8_bytes input = utf8_from (codes input)
