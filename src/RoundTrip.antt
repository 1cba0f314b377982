-- ===== src/RoundTrip.antt =====
-- rust/src/emit.rs and rust/src/parser.rs: what the emitter writes is read back by the parser. Here:
-- the nodes and values that have a text, and what of a node its text does not hold.
pub mod Same
pub mod Texts
mod Stream
mod Scalars
mod Layout
mod Keys
mod Steps
mod Heads
mod Bodies
mod Rounds
pub mod Whole
mod Typed
pub mod Encoded
pub mod Formatted
mod Tests
mod Descent
use skg.Base.{ℕ, Bool, true, false, Option, none, some, List, [], ◌∷◌, ◌++◌, Bytes, codes, all, ◌≡◌}
use skg.Model.{
  Comment, Head, ValueType, Value, Values, Node, Nodes, int, float, bool, string, null, array,
  object, delete, field, block, block_array, empty, nil, cons, no_items, item, value_type,
}
use skg.Lexer.{is_empty}
use skg.Lexer.Scan.{is_digit}
use skg.Lexer.Spell.Numbers.{IsWhole, sign_of}
use skg.Parser.Text.{is_finite}
use skg.Parser.Arrays.{join_type, type_or_string}
use skg.Emit.Decimal.{InRange}

-- A head without the file and the position.
abbrev pub plain_head : Head → Head
plain_head h = record {
  path = [];
  key = h.key;
  line = 0;
  col = 0;
  leading_comments = h.leading_comments;
}

-- Nodes without the files and the positions of their heads, at any depth.
unfoldable mutual
  pub plain_nodes : Nodes → Nodes
  plain_nodes nil = nil
  plain_nodes (cons n ns) = cons (plain_node n) (plain_nodes ns)

  pub plain_node : Node → Node
  plain_node (delete h t) = delete (plain_head h) t
  plain_node (field h v t) = field (plain_head h) (plain_value v) t
  plain_node (block h r cs t) = block (plain_head h) r (plain_nodes cs) t
  plain_node (block_array h xs t) = block_array (plain_head h) (plain_items xs) t
  plain_node empty = empty

  pub plain_value : Value → Value
  plain_value (int n) = int n
  plain_value (float f) = float f
  plain_value (bool b) = bool b
  plain_value (string s) = string s
  plain_value null = null
  plain_value (array element xs t) = array element (plain_items xs) t
  plain_value (object cs t) = object (plain_nodes cs) t

  pub plain_items : Values → Values
  plain_items no_items = no_items
  plain_items (item v vs) = item (plain_value v) (plain_items vs)

-- Items that come after items of element type `o` give the element type `final`.
abbrev pub Joins : Option ValueType → Values → Option ValueType → Type 0
Joins o no_items final = o ≡ final
Joins o (item v vs) final =
    (t : ValueType) × (join_type o (value_type v) ≡ some t) × Joins (some t) vs final

-- The element type of an array is the one that its items give.
abbrev pub HasType : ValueType → Values → Type 0
HasType element xs =
    (final : Option ValueType) × Joins none xs final × (type_or_string final ≡ element)

-- A value that is a field's: a node of an object or of an array of objects is a block.
abbrev pub IsFieldType : ValueType → Type 0
IsFieldType ValueType.object = ⊥
IsFieldType _ = Unit {0}

abbrev pub IsFieldValue : Value → Type 0
IsFieldValue (object cs t) = ⊥
IsFieldValue (array element xs t) = IsFieldType element
IsFieldValue _ = Unit {0}

-- The element type of a block array after an item of a type: objects, and nulls between them.
unfoldable pub row_type : Option ValueType → ValueType → Option ValueType
row_type o ValueType.object = some ValueType.object
row_type none ValueType.null = some ValueType.null
row_type (some t) ValueType.null = some t
row_type o _ = none

-- A block array holds objects, if it holds anything.
abbrev pub IsBlockType : Option ValueType → Type 0
IsBlockType none = Unit {0}
IsBlockType (some ValueType.object) = Unit {0}
IsBlockType (some _) = ⊥

-- Rows of a block array that come after rows of element type `o`, and the type that they end with.
abbrev pub RowsFrom : Option ValueType → Values → Option ValueType → Type 0
RowsFrom o no_items final = (o ≡ final) × IsBlockType o
RowsFrom o (item v vs) final =
    (t : ValueType) × (row_type o (value_type v) ≡ some t) × RowsFrom (some t) vs final

abbrev pub AreRows : Values → Type 0
AreRows xs = (final : Option ValueType) × RowsFrom none xs final

-- What a text without comments can say: integers of the machine, finite floats, arrays of their items'
-- type, blocks for objects, and block arrays of objects and nulls.
abbrev mutual
  pub AreWritable : Nodes → Type 0
  AreWritable nil = Unit {0}
  AreWritable (cons n ns) = IsWritableNode n × AreWritable ns

  pub IsWritableNode : Node → Type 0
  IsWritableNode (delete h none) = h.leading_comments ≡ []
  IsWritableNode (field h v none) = (h.leading_comments ≡ []) × IsFieldValue v × IsWritable v
  IsWritableNode (block h r cs []) = (h.leading_comments ≡ []) × AreWritable cs
  IsWritableNode (block_array h xs []) =
      (h.leading_comments ≡ []) × AreRows xs × AreWritableItems xs
  IsWritableNode _ = ⊥

  pub IsWritable : Value → Type 0
  IsWritable (int n) = InRange n
  IsWritable (float f) = is_finite f ≡ true
  IsWritable (array element xs []) = HasType element xs × AreWritableItems xs
  IsWritable (object cs []) = AreWritable cs
  IsWritable (array element xs (c ∷ t)) = ⊥
  IsWritable (object cs (c ∷ t)) = ⊥
  IsWritable _ = Unit {0}

  pub AreWritableItems : Values → Type 0
  AreWritableItems no_items = Unit {0}
  AreWritableItems (item v vs) = IsWritable v × AreWritableItems vs

-- What `Display` and `FromStr` of `f64` do with a finite pattern of 64 bits: it is shown without an exponent, as
-- an integer or with a point, and the text with the point is parsed back.
pub data ShowsPoint (shown sign whole fraction : Bytes) : Type 0 where
  as_integer : shown ≡ sign ++ whole → fraction ≡ codes "0" → ShowsPoint shown sign whole fraction
  as_decimal : shown ≡ sign ++ whole ++ b'.' ∷ fraction → ShowsPoint shown sign whole fraction

pub record ShowsFloat (show_f64 : ℕ → Bytes) (parse_f64 : Bytes → Option ℕ) (f : ℕ) : Type 0 where
  pub minus : Bool
  pub whole : Bytes
  pub fraction : Bytes
  pub is_whole : IsWhole whole
  pub some_digit : is_empty fraction ≡ false
  pub all_digits : all is_digit fraction ≡ true
  pub shown : ShowsPoint (show_f64 f) (sign_of minus) whole fraction
  pub parsed : parse_f64 (sign_of minus ++ whole ++ b'.' ∷ fraction) ≡ some f

abbrev pub ShowsFloats : (ℕ → Bytes) → (Bytes → Option ℕ) → Type 0
ShowsFloats show_f64 parse_f64 = (f : ℕ) → is_finite f ≡ true → ShowsFloat show_f64 parse_f64 f
