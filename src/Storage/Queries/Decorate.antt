-- ===== src/Storage/Queries/Decorate.antt =====
-- `_decorate` and `_local_midnight_utc_iso` of queries.py, and `urllib.parse.quote_plus`.
use ha_skywatch.Prelude.{
  ℕ, ◌+◌, ◌-◌, ◌*◌, ◌/◌, ◌%◌, Bool, ◌&&◌, ◌||◌, Option, none, some, List, [], ◌∷◌, ◌++◌, map, Text,
  codes, ltb, leb, ◌==◌, if◌then◌else◌,
}
use ha_skywatch.Prelude.Int.{ℤ, pos, sub_ℕ}
use ha_skywatch.Time.{Instant, second, day, utc_text}
use ha_skywatch.Time.Calendar.{civil}
use ha_skywatch.Time.Render.{pad2, pad4}
use ha_skywatch.Python.{Platform, Zone, or_none, or_else}
use ha_skywatch.Normalizers.{parse_iso}
use ha_skywatch.Storage.Schema.{SightingRow}

abbrev pub wiki_search : Text
wiki_search = codes "https://en.wikipedia.org/wiki/Special:Search?search="

-- The bytes of a code point in UTF-8.
unfoldable pub utf8 : ℕ → List ℕ
utf8 c =
    if ltb c 128
    then c ∷ []
    else if ltb c 2048
    then (192 + c / 64) ∷ (128 + c % 64) ∷ []
    else if ltb c 65536
    then (224 + c / 4096) ∷ (128 + c / 64 % 64) ∷ (128 + c % 64) ∷ []
    else (240 + c / 262144) ∷ (128 + c / 4096 % 64) ∷ (128 + c / 64 % 64) ∷ (128 + c % 64) ∷ []

abbrev hex_digit : ℕ → ℕ
hex_digit n = if ltb n 10 then 48 + n else 55 + n

abbrev pub is_unreserved : ℕ → Bool
is_unreserved c =
    (leb b'a' c && leb c b'z')
    || ((leb b'A' c && leb c b'Z')
        || ((leb b'0' c && leb c b'9')
            || ((c == b'_') || ((c == b'.') || ((c == b'-') || (c == b'~'))))))

unfoldable pub quote_byte : ℕ → Text
quote_byte c =
    if is_unreserved c
    then c ∷ []
    else if c == b' '
    then b'+' ∷ []
    else b'%' ∷ hex_digit (c / 16) ∷ hex_digit (c % 16) ∷ []

unfoldable pub quote_bytes : List ℕ → Text
quote_bytes [] = []
quote_bytes (c ∷ bytes) = quote_byte c ++ quote_bytes bytes

-- `urllib.parse.quote_plus`
unfoldable pub quote_plus : Text → Text
unfolding utf8 quote_byte quote_bytes
quote_plus [] = []
quote_plus (c ∷ s) = quote_bytes (utf8 c) ++ quote_plus s

-- A row with the fields that `_decorate` adds.
pub record Decorated : Type 0 where
  pub row : SightingRow
  pub open row use *
  pub exit_time_local : Option Text
  pub dwell_seconds : Option ℤ
  pub aircraft_info_url : Option Text

-- `strftime("%Y-%m-%d %H:%M")` of the wall clock
unfoldable pub local_text : ℕ → Text
unfolding pad2 pad4 civil
local_text wall =
    let c = civil (wall / second) in
    pad4 c.year
    ++ (b'-'
        ∷ (pad2 c.month
            ++ (b'-' ∷ (pad2 c.day ++ (b' ' ∷ (pad2 c.hours ++ (b':' ∷ pad2 c.minutes)))))))

-- `int((a - b).total_seconds())`, which cuts towards zero
unfoldable pub seconds_between : Instant → Instant → ℤ
seconds_between a b = if leb b a then pos ((a - b) / second) else sub_ℕ 0 ((b - a) / second)

unfoldable pub dwell : Option Instant → Option Instant → Option ℤ
dwell (some exit_dt) (some entry_dt) = some (seconds_between exit_dt entry_dt)
dwell _ _ = none

unfoldable pub info_url : Option Text → Option Text → Option Text
unfolding or_none or_else quote_plus
info_url model code = elim (or_none (or_else model code)) [
  | none ↦ none
  | some search_text ↦ some (wiki_search ++ quote_plus search_text)
]

module _ (p : Platform) (tz : Zone) where
  unfoldable pub decorate_row : SightingRow → Decorated
  unfolding local_text dwell info_url
  decorate_row row =
      let exit_dt = parse_iso p (some row.exit_time) in
      record {
        row = row;
        exit_time_local = elim exit_dt [ none ↦ none | some t ↦ some (local_text (tz.to_wall t)) ];
        dwell_seconds = dwell exit_dt (parse_iso p row.entry_time);
        aircraft_info_url = info_url row.aircraft_model row.aircraft_code;
      }

  unfoldable pub decorate : List SightingRow → List Decorated
  unfolding decorate_row
  decorate = map decorate_row

module _ (tz : Zone) where
  -- The instant of the last local midnight, as stored text.
  unfoldable pub local_midnight : Instant → Instant
  local_midnight now = tz.from_wall (tz.to_wall now / day * day)

  unfoldable pub local_midnight_utc_iso : Instant → Text
  unfolding local_midnight
  local_midnight_utc_iso now = utc_text (local_midnight now)
