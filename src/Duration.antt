-- ===== src/Duration.antt =====
-- apps/api/src/duration.ts: durations as text and as minutes. The two regular expressions are an
-- automaton for the whole text and a scan for the chunks. Minutes are integers without a bound.
pub mod Format
pub mod RoundTrip
pub mod Tests
use forge_hub.Base.{
  Bool, List, Option, Text, [], codes, false, filter, if◌then◌else◌, is_digit, is_empty, is_space,
  join_with, lower_unit, ltb, map, negsuc, none, not, pos, show, some, sub_ℕ, suc, trim, trim_start,
  true, value, zero, ℕ, ℤ, ◌&&◌, ◌*◌, ◌++◌, ◌+◌, ◌-◌, ◌/◌, ◌==◌, ◌||◌, ◌∷◌, text-Eq,
}

-- UNIT_MINUTES, and 0 for what is no unit.
unfoldable pub unit_minutes : ℕ → ℕ
unit_minutes c =
    if c == b'm'
    then 1
    else if c == b'h'
    then 60
    else if c == b'd'
    then 8 * 60
    else if c == b'w'
    then 5 * 8 * 60
    else 0

abbrev pub is_unit : ℕ → Bool
is_unit c = c == b'w' || c == b'd' || c == b'h' || c == b'm'

-- Where WHOLE_RE stands: before the digits of a chunk (the first, or a later one, where the text may
-- end), or among them.
pub data Place : Type 0 where
  at_start after_unit in_digits : Place

unfoldable pub whole_from : Place → Text → Bool
whole_from at_start [] = false
whole_from after_unit [] = true
whole_from in_digits [] = false
whole_from at_start (c ∷ s) = is_digit c && whole_from in_digits s
whole_from after_unit (c ∷ s) = is_digit c && whole_from in_digits s
whole_from in_digits (c ∷ s) =
    (is_digit c && whole_from in_digits s) || (is_unit c && whole_from after_unit s)

-- The loop over `matchAll(CHUNK_RE)`: `digits` is the run of digits before the text that is left.
unfoldable pub sum_chunks : Text → ℕ → Text → ℕ
sum_chunks digits total [] = total
sum_chunks digits total (c ∷ s) =
    let more = sum_chunks (digits ++ c ∷ []) total s in
    let ends = sum_chunks [] (total + value digits * unit_minutes c) s in
    let none_here = sum_chunks [] total s in
    if is_digit c then more else if is_unit c && not (is_empty digits) then ends else none_here

-- `s.replace(/\s+/g, "")`
abbrev pub strip_spaces : Text → Text
strip_spaces s = filter (λ c. not (is_space c)) s

abbrev pub signed : Bool → ℕ → ℤ
signed negative total = if negative then sub_ℕ 0 total else pos total

-- From the sign on: `compact`, the test and the sum.
unfoldable pub parse_unsigned : Bool → Text → Option ℤ
unfolding whole_from sum_chunks
parse_unsigned negative s =
    let compact = strip_spaces s in
    if is_empty compact || not (whole_from at_start compact)
    then none
    else some (signed negative (sum_chunks [] 0 compact))

abbrev pub parse_signed : Text → Option ℤ
parse_signed [] = none
parse_signed (c ∷ s) =
    if c == b'-'
    then parse_unsigned true (trim_start s)
    else if c == b'+'
    then parse_unsigned false (trim_start s)
    else parse_unsigned false (c ∷ s)

unfoldable pub parse_duration : Option Text → Option ℤ
unfolding parse_unsigned trim trim_start
parse_duration none = none
parse_duration (some input) = parse_signed (map lower_unit (trim input))

abbrev pub units : List ℕ
units = b'w' ∷ b'd' ∷ b'h' ∷ b'm' ∷ []

-- The loop of `formatDuration`: the parts for the units that are left.
unfoldable pub parts_from : ℕ → List ℕ → List Text
parts_from rem [] = []
parts_from rem (unit ∷ rest) =
    let size = unit_minutes unit in
    let n = rem / size in
    let fewer = parts_from (rem - n * size) rest in
    let same = parts_from rem rest in if ltb 0 n then (show n ++ unit ∷ []) ∷ fewer else same

-- The minutes are whole, so `Math.round` leaves them.
unfoldable pub format_duration : ℤ → Text
unfolding parts_from unit_minutes
format_duration (negsuc n) = codes "0m"
format_duration (pos zero) = codes "0m"
format_duration (pos (suc n)) = join_with 32 (parts_from (suc n) units)
