-- ===== src/Protocol/Samples.antt =====
-- An engine and texts for the tests of the other modules.
use Prim.Native.Char.{code}
use amca_core.Common.{
  ◌||◌, ℕ, String, true, false, none, some, ◌≡◌, leb, if◌then◌else◌, ◌+s◌, decimal, arith,
}
use amca_core.Common.Equality.{◌==◌, string_has_eq}
use amca_core.Protocol.Json.{Number, int, frac}
use amca_core.Protocol.Host.{Host}

abbrev pub number_text : Number → String
number_text (int false n) = decimal n
number_text (int true n) = "-" +s decimal n
number_text (frac s n k) = "0.5"
number_text _ = "null"

abbrev pub first_code : String → ℕ
first_code String.[] = 0
first_code (String.◌∷◌ c s) = code c

pub first_code-total :
    (s t : String)
    → leb (first_code s) (first_code t) ≡ false
    → leb (first_code t) (first_code s) ≡ true
first_code-total s t h = ground arith

abbrev pub engine : Host
engine = record {
  number_to_json = number_text;
  string_to_json = λ s. "\"" +s s +s "\"";
  locale_le = λ s t. leb (first_code s) (first_code t);
  locale_total = first_code-total;
  date_parse = λ s.
      if s == "2026-01-01T00:00:00.000Z"
      then some 1000
      else if s == "2026-01-01T00:00:01.000Z"
      then some 2000
      else none;
  to_upper_case = λ s. if s == "p" then "P" else if s == "t" then "T" else s;
  is_iso_datetime = λ s. s == "2026-01-01T00:00:00.000Z" || s == "2026-01-01T00:00:01.000Z";
}
