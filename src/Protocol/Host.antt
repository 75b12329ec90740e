-- ===== src/Protocol/Host.antt =====
-- What the source takes from the JavaScript engine and from zod, and that has no definition here.
use amca_core.Common.{ℕ, String, Bool, true, false, Option, ◌≡◌}
use amca_core.Protocol.Json.{Number}

pub record Host : Type 0 where
  -- JSON.stringify of a finite number, which `String` gives too, and of a string
  pub number_to_json : Number → String
  pub string_to_json : String → String
  -- whether `left.localeCompare(right)` is at most 0, which holds of two texts in one of their orders
  pub locale_le : String → String → Bool
  pub locale_total : (s t : String) → locale_le s t ≡ false → locale_le t s ≡ true
  -- Date.parse, `none` for NaN; the milliseconds are counted from the earliest time of a Date, so
  -- that none is negative
  pub date_parse : String → Option ℕ
  -- String.prototype.toUpperCase
  pub to_upper_case : String → String
  -- z.iso.datetime({ offset: true }) of zod
  pub is_iso_datetime : String → Bool
