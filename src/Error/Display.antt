-- ===== src/Error/Display.antt =====
-- rust/src/error.rs: what the `Display` of a diagnostic and of the errors writes. A message is not part
-- of the model of an error, so it is an argument here.
use skg.Base.{
  ℕ, suc, true, not, Option, none, some, [], ◌∷◌, ◌++◌, Bytes, codes, ◌==◌, nat_eq, if◌then◌else◌,
  ◌≡◌, refl, all, arith, Bool-cases, inl, inr,
}
use mathlib.Core.Option
use skg.Error.{Position, Diagnostic, ResolveError, parse, diagnostic_of}
use skg.Error.Codes.{ErrorCode, as_str}
use skg.Error.Native.{NativeCode, native_name, no_location, DecodeError}
use skg.Encode.{EncodeError, invalid_value, unsupported}
use skg.Lexer.Scan.{is_digit}
use skg.Parser.Text.{split_once, digits_value}
use skg.Emit.{digits}
use skg.Emit.Decimal.{digits_value-digits}
use skg.RoundTrip.Texts.{digits-all}

-- `Diagnostic::position`
abbrev pub position : Diagnostic → Position
position d = record { line = d.line; col = d.col }

-- The `Display` of a `u32`.
unfoldable pub show_number : ℕ → Bytes
unfolding digits
show_number n = digits (suc n) n

-- `write!(f, "{}:{}:{}: {}", ..)`
unfoldable pub display_diagnostic : Diagnostic → Bytes → Bytes
unfolding show_number
display_diagnostic d message =
    d.path ++ (b':' ∷ show_number d.line ++ (b':' ∷ show_number d.col ++ (codes ": " ++ message)))

-- The `Display` of ErrorCode and of NativeCode.
unfoldable pub display_code : ErrorCode → Bytes
unfolding as_str
display_code = as_str

unfoldable pub display_native : NativeCode → Bytes
unfolding native_name
display_native = native_name

pub record ParseError : Type 0 where
  pub diagnostic : Diagnostic

-- `From<Diagnostic>` and `Display` of ParseError.
abbrev pub parse_error_of : Diagnostic → ParseError
parse_error_of d = record { diagnostic = d }

unfoldable pub display_parse_error : ParseError → Bytes → Bytes
unfolding display_diagnostic
display_parse_error e message = display_diagnostic e.diagnostic message

-- `From<ParseError>` and `Display` of ResolveError.
abbrev pub resolve_error_of : ParseError → ResolveError
resolve_error_of e = parse e.diagnostic

unfoldable pub display_resolve_error : ResolveError → Bytes → Bytes
unfolding display_diagnostic
display_resolve_error e message = display_diagnostic (diagnostic_of e) message

-- `DecodeError::new`
abbrev pub decode_error : NativeCode → DecodeError
decode_error code = record { code = code; field_path = []; source = no_location }

abbrev or_root : Bytes → Bytes
or_root [] = codes "<root>"
or_root (c ∷ cs) = c ∷ cs

unfoldable pub display_decode_error : DecodeError → Bytes → Bytes
display_decode_error e message = codes "field " ++ (or_root e.field_path ++ (codes ": " ++ message))

unfoldable pub display_encode_error : EncodeError → Bytes → Bytes
display_encode_error invalid_value message = codes "invalid value: " ++ message
display_encode_error unsupported message = codes "unsupported: " ++ message

-- `ser::Error::custom`
abbrev pub custom : EncodeError
custom = invalid_value

-- A reader of what is displayed: the path up to the first colon, the line, the column, and the message
-- behind a space.
pub record Displayed : Type 0 where
  pub path : Bytes
  pub line : ℕ
  pub col : ℕ
  pub message : Bytes

abbrev read_message : Bytes → ℕ → ℕ → Bytes → Option Displayed
read_message path line col (c ∷ message) =
    if c == b' '
    then some (record { path = path; line = line; col = col; message = message })
    else none
read_message path line col [] = none

unfoldable pub read_displayed : Bytes → Option Displayed
unfolding split_once digits_value
read_displayed text = Option.bind (split_once b':' text) λ (path, located).
    Option.bind (split_once b':' located) λ (line, placed).
      Option.bind (split_once b':' placed) λ (col, said).
        Option.bind (digits_value 0 line)
          λ l. Option.bind (digits_value 0 col) λ c. read_message path l c said

split_once-append :
    (c : ℕ) (xs rest : Bytes)
    → all (λ x. not (x == c)) xs ≡ true
    → split_once c (xs ++ c ∷ rest) ≡ some (xs, rest)
unfolding split_once
split_once-append c [] rest h = ground arith
split_once-append c (x ∷ xs) rest h = elim (Bool-cases (x == c)) [
  | inl same ↦ absurd (ground (arith, same, h))
  | inr other ↦ rw (other, split_once-append c xs rest (rw other at h)) refl
]

digits_no_colon : (xs : Bytes) → all is_digit xs ≡ true → all (λ x. not (x == b':')) xs ≡ true
unfolding is_digit
digits_no_colon [] h = refl
digits_no_colon (x ∷ xs) h = ground (arith, h, digits_no_colon xs)

split_once-show_number :
    (n : ℕ) (rest : Bytes)
    → split_once b':' (show_number n ++ b':' ∷ rest) ≡ some (show_number n, rest)
unfolding show_number
split_once-show_number n rest =
    split_once-append b':' (digits (suc n) n) rest
      (digits_no_colon (digits (suc n) n) (digits-all (suc n) n))

digits_value-show_number : (n : ℕ) → digits_value 0 (show_number n) ≡ some n
unfolding show_number
digits_value-show_number n = digits_value-digits (suc n) n (omega arith)

-- What is displayed of a diagnostic, whose path has no colon, reads back as its path, line and column and
-- the message.
pub read_displayed-display_diagnostic :
    (d : Diagnostic) (message : Bytes)
    → all (λ x. not (x == b':')) d.path ≡ true
    → read_displayed (display_diagnostic d message)
      ≡ some (record { path = d.path; line = d.line; col = d.col; message = message })
unfolding read_displayed display_diagnostic Option.bind
read_displayed-display_diagnostic d message h =
    rw
      (
        split_once-append b':' d.path _ h,
        split_once-show_number d.line _,
        split_once-show_number d.col (b' ' ∷ message),
        digits_value-show_number d.line,
        digits_value-show_number d.col,
      )
      refl
