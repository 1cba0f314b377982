-- ===== src/Model.antt =====
-- rust/src/model.rs: the document model. A node holds a list of nodes and a value a list of values,
-- so the four types are one block; `Head` is the group of fields that the four node structs share.
use skg.Base.{
  false, codes, ℕ, zero, suc, ◌≡◌, Bool, true, ◌&&◌, Option, none, some, List, [], Bytes,
  if◌then◌else◌, arith, Eq, ◌==◌, nat_eq, bytes_eq, ◌↔◌, bytes_beq_iff, ==_iff, ap,
}
use skg.Error.{Position}

pub data ValueType : Type 0 where
  string int float bool null array object : ValueType

abbrev type_index : ValueType → ℕ
type_index string = 0
type_index int = 1
type_index float = 2
type_index bool = 3
type_index null = 4
type_index array = 5
type_index object = 6

type_beq_eq : (t u : ValueType) → (type_index t == type_index u) ≡ true → t ≡ u
type_beq_eq string u h = ground arith
type_beq_eq _ u h = ground arith

-- The derived equality of `ValueType`.
abbrev pub type_beq : ValueType → ValueType → Bool
type_beq t u = type_index t == type_index u

pub type_beq_iff : (t u : ValueType) → (type_beq t u ≡ true) ↔ (t ≡ u)
type_beq_iff t u =
    (type_beq_eq t u, λ e. (==_iff (type_index t) (type_index u)).1 (ap type_index e))

instance abbrev pub type_eq : Eq ValueType
type_eq = record { same = type_beq; same_iff = type_beq_iff }

-- The source of a comment: the labeled path and the file's bytes.
pub record SourceIdentity : Type 0 where
  pub path : Bytes
  pub bytes : Bytes

pub record CommentOrigin : Type 0 where
  pub source : SourceIdentity
  pub sequence : ℕ

pub record Comment : Type 0 where
  pub text : Bytes
  pub origin : Option CommentOrigin

-- `SourceIdentity::eq`
abbrev pub identity_beq : SourceIdentity → SourceIdentity → Bool
identity_beq a b = a.path == b.path && a.bytes == b.bytes

-- The derived equality of `CommentOrigin`.
abbrev pub origin_beq : CommentOrigin → CommentOrigin → Bool
origin_beq a b = identity_beq a.source b.source && a.sequence == b.sequence

pub origin_beq_iff : (a b : CommentOrigin) → (origin_beq a b ≡ true) ↔ (a ≡ b)
origin_beq_iff a b =
    ground (
      arith,
      bytes_beq_iff a.source.path b.source.path,
      bytes_beq_iff a.source.bytes b.source.bytes,
    )

instance abbrev pub origin_eq : Eq CommentOrigin
origin_eq = record { same = origin_beq; same_iff = origin_beq_iff }

-- Provenance, key or name, position and leading comments of a node.
pub record Head : Type 0 where
  pub path : Bytes
  pub key : Bytes
  pub line : ℕ
  pub col : ℕ
  pub leading_comments : List Comment

-- An `i64`: `negsuc n` is -(n + 1). The range is the invariant of what is parsed.
pub data ℤ : Type 0 where
  pos : ℕ → ℤ
  negsuc : ℕ → ℤ

mutual
  -- An `f64` is its bit pattern.
  pub data Value : Type 0 where
    int : ℤ → Value
    float : ℕ → Value
    bool : Bool → Value
    string : Bytes → Value
    null : Value
    array : ValueType → Values → List Comment → Value
    object : Nodes → List Comment → Value

  pub data Values : Type 0 where
    no_items : Values
    item : Value → Values → Values

  -- `empty` is `Node::None`.
  pub data Node : Type 0 where
    delete : Head → Option Comment → Node
    field : Head → Value → Option Comment → Node
    block : Head → Bool → Nodes → List Comment → Node
    block_array : Head → Values → List Comment → Node
    empty : Node

  pub data Nodes : Type 0 where
    nil : Nodes
    cons : Node → Nodes → Nodes

-- `Value::value_type`
unfoldable pub value_type : Value → ValueType
value_type (int n) = ValueType.int
value_type (float f) = ValueType.float
value_type (bool b) = ValueType.bool
value_type (string s) = ValueType.string
value_type null = ValueType.null
value_type (array t xs c) = ValueType.array
value_type (object ns c) = ValueType.object

-- `Node::key`
unfoldable pub node_key : Node → Option Bytes
node_key (delete h t) = some h.key
node_key (field h v t) = some h.key
node_key (block h r ns t) = some h.key
node_key (block_array h xs t) = some h.key
node_key empty = none

abbrev at_head : Head → Option Position
at_head h = if h.line == 0 && h.col == 0 then none else some (record { line = h.line; col = h.col })

-- `Node::position`: a node at 0:0 has none.
unfoldable pub node_position : Node → Option Position
node_position empty = none
node_position (delete h t) = at_head h
node_position (field h v t) = at_head h
node_position (block h r ns t) = at_head h
node_position (block_array h xs t) = at_head h

-- `Node::path`
unfoldable pub node_path : Node → Bytes
node_path (delete h t) = h.path
node_path (field h v t) = h.path
node_path (block h r ns t) = h.path
node_path (block_array h xs t) = h.path
node_path empty = []

-- `Node::value`
unfoldable pub node_value : Node → Option Value
node_value (field h v t) = some v
node_value (block h r ns t) = some (object ns t)
node_value (block_array h xs t) = some (array ValueType.object xs t)
node_value (delete h t) = none
node_value empty = none

abbrev pub length_nodes : Nodes → ℕ
length_nodes nil = 0
length_nodes (cons n ns) = suc (length_nodes ns)

-- `push`
abbrev pub push_node : Nodes → Node → Nodes
push_node nil n = cons n nil
push_node (cons m ns) n = cons m (push_node ns n)

-- `result[i]`; out of range, where the source would panic, it is the empty node.
abbrev pub get_node : Nodes → ℕ → Node
get_node nil i = empty
get_node (cons n ns) zero = n
get_node (cons n ns) (suc i) = get_node ns i

-- `result[i] = n`
abbrev pub set_node : Nodes → ℕ → Node → Nodes
set_node nil i n = nil
set_node (cons m ns) zero n = cons n ns
set_node (cons m ns) (suc i) n = cons m (set_node ns i n)

abbrev pub push_value : Values → Value → Values
push_value no_items v = item v no_items
push_value (item w vs) v = item w (push_value vs v)

pub record Document : Type 0 where
  pub path : Bytes
  pub skg_version : Option Bytes
  pub schema_version : Option Bytes
  pub import_paths : List Bytes
  pub import_positions : List Position
  pub children : Nodes
  pub imports_resolved : Bool
  pub leading_comments : List Comment
  pub trailing_comments : List Comment

-- `Document::new`
abbrev pub new_document : Bytes → Document
new_document path = record {
  path = path;
  skg_version = none;
  schema_version = none;
  import_paths = [];
  import_positions = [];
  children = nil;
  imports_resolved = false;
  leading_comments = [];
  trailing_comments = [];
}

-- `Comment::new`
abbrev pub new_comment : Bytes → Comment
new_comment text = record { text = text; origin = none }

-- `ValueType::as_str`
unfoldable pub type_name : ValueType → Bytes
type_name string = codes "string"
type_name int = codes "int"
type_name float = codes "float"
type_name bool = codes "bool"
type_name null = codes "null"
type_name array = codes "array"
type_name object = codes "object"
