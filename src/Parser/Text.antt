-- ===== src/Parser/Text.antt =====
-- The pure functions of rust/src/parser.rs: escapes, versions, import paths, UTF-8, and the number
-- parsing of the standard library that it uses.
use skg.Base.{
  ℕ, zero, suc, ◌+◌, ◌-◌, ◌*◌, ◌/◌, ◌%◌, ◌^◌, Bool, true, false, not, ◌&&◌, ◌||◌, Option, none,
  some, [], ◌∷◌, Bytes, codes, ltb, leb, within, ◌==◌, nat_eq, bytes_eq, bytes_beq, option_beq,
  if◌then◌else◌, length, any, get_elem?, drop, take, slice,
}
use mathlib.Core.Option
use skg.Error.{Position}
use skg.Model.{ℤ, pos, negsuc}
use skg.Lexer.Scan.{is_digit}

abbrev pub max_nesting_depth : ℕ
max_nesting_depth = 128

abbrev pub max_file_size : ℕ
max_file_size = 10 * 1024 * 1024

unfoldable pub is_directive : Bytes → Bool
unfolding bytes_beq
is_directive name =
    name == codes "skg_version" || name == codes "schema_version" || name == codes "import"

-- `u8::is_ascii_alphabetic`
abbrev is_alphabetic : ℕ → Bool
is_alphabetic c = within b'a' b'z' c || within b'A' b'Z' c

unfoldable pub is_absolute_import_path : Bytes → Bool
is_absolute_import_path [] = false
is_absolute_import_path (c ∷ cs) =
    if c == b'/' || c == b'\\'
    then true
    else option_beq (get_elem? cs 0) (some b':') && is_alphabetic c

-- The value of a list of decimal digits read after `value`; `none` at any other byte.
unfoldable pub digits_value : ℕ → Bytes → Option ℕ
unfolding is_digit
digits_value value [] = some value
digits_value value (c ∷ cs) =
    let more = digits_value (value * 10 + (c - b'0')) cs in if is_digit c then more else none

-- The digits of `str::parse` on integers: at least one, and a value of at most `limit`.
unfoldable pub parse_digits : ℕ → Bytes → Option ℕ
unfolding digits_value
parse_digits limit [] = none
parse_digits limit (c ∷ cs) =
    Option.bind (digits_value 0 (c ∷ cs)) λ value. if leb value limit then some value else none

-- `str::parse::<u64>`, which takes a plus sign.
unfoldable pub parse_u64 : Bytes → Option ℕ
unfolding parse_digits
parse_u64 [] = none
parse_u64 (c ∷ cs) = parse_digits (2 ^ 64 - 1) (if c == b'+' then cs else c ∷ cs)

-- -n
abbrev pub negated : ℕ → ℤ
negated zero = pos 0
negated (suc n) = negsuc n

-- `str::parse::<i64>`
unfoldable pub parse_i64 : Bytes → Option ℤ
unfolding parse_digits
parse_i64 [] = none
parse_i64 (c ∷ cs) =
    if c == b'-'
    then Option.map negated (parse_digits (2 ^ 63) cs)
    else Option.map pos (parse_digits (2 ^ 63 - 1) (if c == b'+' then cs else c ∷ cs))

-- `f64::is_finite`, on the bit pattern: 64 bits, whose exponent is not all ones. A number that is no
-- pattern is no float, so it is not finite.
unfoldable pub is_finite : ℕ → Bool
is_finite bits = ltb bits (2 ^ 64) && not (bits / 2 ^ 52 % 2 ^ 11 == 2 ^ 11 - 1)

pub data VersionCheck : Type 0 where
  supported malformed unsupported : VersionCheck

-- `split_once('.')`
unfoldable pub split_once : ℕ → Bytes → Option (Bytes × Bytes)
split_once c [] = none
split_once c (x ∷ xs) =
    if x == c then some ([], xs) else Option.map (λ (a, b). (x ∷ a, b)) (split_once c xs)

unfoldable pub check_components : Option ℕ → Option ℕ → VersionCheck
check_components (some major) (some minor) =
    if not (major == 1) || ltb 0 minor then unsupported else supported
check_components _ _ = malformed

unfoldable pub check_version : Bytes → VersionCheck
unfolding split_once check_components parse_u64
check_version version = elim (split_once b'.' version) [
  | none ↦ malformed
  | some (major, minor) ↦ check_components (parse_u64 major) (parse_u64 minor)
]

unfoldable pub escaped_byte : ℕ → Option ℕ
escaped_byte e =
    if e == b'"'
    then some b'"'
    else if e == b'\\'
    then some b'\\'
    else if e == b'n'
    then some b'\n'
    else if e == b't'
    then some b'\t'
    else none

-- The loop of `unescape_string`. A byte that is part of a longer character is never a backslash, so
-- the loop over characters is one over bytes.
unfoldable pub unescape : Bytes → Option Bytes
unfolding escaped_byte
unescape [] = some []
unescape (c ∷ []) = if c == b'\\' then none else some (c ∷ [])
unescape (c ∷ e ∷ cs) =
    let escaped = Option.bind (escaped_byte e) λ b. Option.map (◌∷◌ b) (unescape cs) in
    let plain = Option.map (◌∷◌ c) (unescape (e ∷ cs)) in if c == b'\\' then escaped else plain

abbrev quote_at : Bytes → ℕ → Bool
quote_at raw i = option_beq (get_elem? raw i) (some b'"')

unfoldable pub unescape_inner : Bytes → Option Bytes
unfolding unescape
unescape_inner inner = if not (any (λ c. c == b'\\') inner) then some inner else unescape inner

unfoldable pub unescape_string : Bytes → Option Bytes
unfolding unescape_inner
unescape_string raw =
    let n = length raw in
    if ltb n 2 || not (quote_at raw 0) || not (quote_at raw (n - 1))
    then some raw
    else if leb 6 n
        && quote_at raw 1
        && quote_at raw 2
        && quote_at raw (n - 2)
        && quote_at raw (n - 3)
    then some (slice raw 3 (n - 3))
    else unescape_inner (slice raw 1 (n - 1))

abbrev is_continuation : ℕ → Bool
is_continuation = within 0x80 0xBF

-- The width that a first byte announces.
unfoldable pub utf8_width : ℕ → Option ℕ
utf8_width c =
    if within 0x00 0x7F c
    then some 1
    else if within 0xC2 0xDF c
    then some 2
    else if within 0xE0 0xEF c
    then some 3
    else if within 0xF0 0xF4 c
    then some 4
    else none

-- `std::str::from_utf8` on as many bytes as the first of them announces.
unfoldable pub is_utf8_char : Bytes → Bool
is_utf8_char (a ∷ []) = leb a 0x7F
is_utf8_char (a ∷ b ∷ []) = within 0xC2 0xDF a && is_continuation b
is_utf8_char (a ∷ b ∷ c ∷ []) =
    within 0xE0 0xEF a
    && within (if a == 0xE0 then 0xA0 else 0x80) (if a == 0xED then 0x9F else 0xBF) b
    && is_continuation c
is_utf8_char (a ∷ b ∷ c ∷ d ∷ []) =
    within 0xF0 0xF4 a
    && within (if a == 0xF0 then 0x90 else 0x80) (if a == 0xF4 then 0x8F else 0xBF) b
    && is_continuation c
    && is_continuation d
is_utf8_char _ = false

-- The loop of `first_invalid_utf8`; a round passes a byte at least, so the source's length is fuel
-- enough.
unfoldable pub scan_utf8 : ℕ → Bytes → ℕ → ℕ → Option Position
unfolding utf8_width is_utf8_char
scan_utf8 zero src line col = none
scan_utf8 (suc f) [] line col = none
scan_utf8 (suc f) (c ∷ cs) line col = elim (utf8_width c) [
  | none ↦ some (record { line = line; col = col })
  | some width ↦
      let rest = drop width (c ∷ cs) in
      let next =
        scan_utf8 f rest (if c == b'\n' then line + 1 else line)
          (if c == b'\n' then 1 else col + width) in
      if ltb (length (c ∷ cs)) width
      then some (record { line = line; col = col })
      else if not (is_utf8_char (take width (c ∷ cs)))
      then some (record { line = line; col = col })
      else next
]

unfoldable pub first_invalid_utf8 : Bytes → Option Position
unfolding scan_utf8
first_invalid_utf8 src = scan_utf8 (length src) src 1 1
