-- ===== src/Parser/Arrays.antt =====
-- rust/src/parser.rs: `parse_array`, on its state.
use skg.Base.{
  Bool, true, false, not, ◌&&◌, Option, none, some, ◌==◌, nat_eq, bytes_eq, if◌then◌else◌,
}
use skg.Error.{Position}
use skg.Error.Codes.{
  ErrorCode, expected_comma, expected_value, unterminated_block_array, unterminated_array,
  mixed_array_types,
}
use skg.Model.{ValueType, type_eq, Value, Values, array, no_items, value_type, push_value}
use skg.Lexer.Scan.{Tag, Token, tag_eq}
use skg.Parser.State.{Parse, pure, ◌>>=◌, ◌>>◌, fail, place_of, consume, drain_comments}

-- The variables of the loop of `parse_array`.
pub record ArrayState : Type 0 where
  pub items : Values
  pub element_type : Option ValueType
  pub need_value : Bool
  pub first_missing_separator : Option Position

abbrev pub new_array : ArrayState
new_array = record {
  items = no_items;
  element_type = none;
  need_value = true;
  first_missing_separator = none;
}

-- What a round of the loop does with the token ahead.
pub data ArrayMove : Type 0 where
  close skip_comma read : ArrayMove
  refuse : ErrorCode → ArrayMove

-- `element_type.is_some_and(|t| t != Null && t != Object)`
abbrev is_scalar_typed : Option ValueType → Bool
is_scalar_typed none = false
is_scalar_typed (some ValueType.null) = false
is_scalar_typed (some ValueType.object) = false
is_scalar_typed (some _) = true

-- `element_type.map_or(true, |t| t == Object)`
abbrev none_or_object : Option ValueType → Bool
none_or_object none = true
none_or_object (some t) = t == ValueType.object

unfoldable pub array_move : Bool → ArrayState → Tag → ArrayMove
array_move colonless s tag =
    if tag == Tag.r_bracket
    then close
    else if not s.need_value && tag == Tag.comma
    then skip_comma
    else if tag == Tag.eof
    then refuse (
        if colonless && none_or_object s.element_type
        then unterminated_block_array
        else unterminated_array)
    else if s.need_value && tag == Tag.comma
    then refuse expected_value
    else if not s.need_value && is_scalar_typed s.element_type
    then refuse expected_comma
    else read

-- `if first_missing_separator.is_none() { first_missing_separator = Some(position); }`
abbrev first_of : Option Position → Position → Option Position
first_of none place = some place
first_of (some first) place = some first

unfoldable pub note_missing : Position → ArrayState → ArrayState
note_missing place s =
    let noted = first_of s.first_missing_separator place in
    record s {
      first_missing_separator = (if s.need_value then s.first_missing_separator else noted);
    }

-- The element type behind a value of type `t`; `none` for `MixedArrayTypes`.
unfoldable pub join_type : Option ValueType → ValueType → Option ValueType
join_type none t = some t
join_type (some ValueType.null) t = some t
join_type (some et) t = if not (t == ValueType.null) && not (et == t) then none else some et

-- The last `match` of a round, on the new element type.
unfoldable pub settle : ValueType → Option Position → Parse (Option Position)
settle ValueType.object missing = pure none
settle ValueType.null missing = pure missing
settle et none = pure none
settle et (some missing) = fail missing expected_comma

-- The end of a round, on the new element type.
unfoldable pub push_typed : Option ValueType → Position → Value → ArrayState → Parse ArrayState
unfolding settle
push_typed none place value s = fail place mixed_array_types
push_typed (some et) place value s = do
  missing ← settle et s.first_missing_separator
  pure (record {
    items = push_value s.items value;
    element_type = some et;
    need_value = false;
    first_missing_separator = missing;
  })

unfoldable pub push_item : Position → Value → ArrayState → Parse ArrayState
unfolding join_type push_typed
push_item place value s = push_typed (join_type s.element_type (value_type value)) place value s

abbrev pub type_or_string : Option ValueType → ValueType
type_or_string none = ValueType.string
type_or_string (some t) = t

-- Behind the loop of `parse_array`, on the separator that was missing.
unfoldable pub close_at : Option Position → ArrayState → Parse Value
close_at (some missing) s = fail missing expected_comma
close_at none s = do
  trailing ← drain_comments
  consume
  pure (array (type_or_string s.element_type) s.items trailing)

unfoldable pub close_array : ArrayState → Parse Value
unfolding close_at
close_array s = close_at s.first_missing_separator s

-- A round of the loop of `parse_array`; `next_value` and `loop` are its calls of `parse_value` and of
-- the next round.
unfoldable pub array_step :
    Parse Value → (ArrayState → Parse Value) → ArrayState → Token → ArrayMove → Parse Value
unfolding note_missing push_item close_array
array_step next_value loop s t close = close_array s
array_step next_value loop s t skip_comma = do consume; loop (record s { need_value = true })
array_step next_value loop s t (refuse code) = fail (place_of t) code
array_step next_value loop s t read = do
  value ← next_value
  pushed ← push_item (place_of t) value (note_missing (place_of t) s)
  loop pushed
