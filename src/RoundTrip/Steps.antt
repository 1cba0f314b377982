-- ===== src/RoundTrip/Steps.antt =====
-- rust/src/parser.rs: the steps of the descent on a text that was written.
use skg.Base.{
  ℕ, ◌+◌, ◌≤◌, Bool, true, false, Option, none, some, [], ◌∷◌, Bytes, ◌≡◌, refl, ap, ◌==◌, nat_eq,
  ltb, arith,
}
use skg.Error.{Position}
use skg.Model.{
  Head, ValueType, type_eq, Value, Values, Node, Nodes, int, float, bool, string, null, array,
  object, delete, field, block, block_array, empty, value_type, push_value,
}
use skg.Merge.Keyed.{IsKeyed}
use skg.Merge.Compose.{merge_nodes-IsKeyed_self}
use skg.Result.{ok, Yields, yields, Yields-bind}
use skg.Lexer.Scan.{Tag, tag_eq, is_space}
use skg.Lexer.Spell.{Lexes, Lexes-punctuation}
use skg.Lexer.{punctuation}
use skg.Parser.Text.{max_nesting_depth}
use skg.Parser.State.{Parser, enter, leave}
use skg.Parser.Arrays.{
  ArrayState, read, array_move, note_missing, push_item, push_typed, join_type, settle, close_array,
  close_at, type_or_string,
}
use skg.Parser.Keys.{set_path, node_of, field_of}
use skg.Parser.Grammar.{close_object, delete_of}
use skg.RoundTrip.{
  plain_nodes, plain_node, plain_value, plain_items, plain_head, IsFieldValue, IsBlockType,
  row_type,
}
use skg.RoundTrip.Stream.{
  Stream, Goes, consume-Taken, drain_comments-Stream, try_trailing_comment-Stream,
}
use skg.RoundTrip.Scalars.{StartsValue}

-- A byte of punctuation ahead.
pub mark :
    (c : ℕ) (tag : Tag) (rest : Bytes)
    → is_space c ≡ false
    → (c == b'@') ≡ false
    → punctuation c ≡ some tag
    → Lexes (c ∷ rest) tag (c ∷ []) rest
mark c tag rest space at h = Lexes-punctuation c tag rest space at h

pub enter-Stream :
    {p : Parser} {src : Bytes} {depth : ℕ} (place : Position)
    → depth + 1 ≤ max_nesting_depth
    → Stream p src depth
    → Yields (λ (u, q). Stream q src (depth + 1)) (enter place p)
unfolding enter
enter-Stream {p} {src} {depth} place room s =
    let fits : ltb max_nesting_depth (p.depth + 1) ≡ false = ground (arith, s.depth_is) in
    rw fits (
      yields (record {
        ahead = s.ahead;
        no_comments = s.no_comments;
        depth_is = ap (λ d. d + 1) s.depth_is;
      }))

pub leave-Stream :
    {p : Parser} {src : Bytes} {depth : ℕ}
    → Stream p src (depth + 1)
    → Yields (λ (u, q). Stream q src depth) (leave p)
unfolding leave
leave-Stream s =
    yields (record {
      ahead = s.ahead;
      no_comments = s.no_comments;
      depth_is = omega (arith, s.depth_is);
    })

-- The state of an array where no separator is missing.
abbrev pub opened : Values → Option ValueType → Bool → ArrayState
opened items o need = record {
  items = items;
  element_type = o;
  need_value = need;
  first_missing_separator = none;
}

pub array_move-read :
    (colonless : Bool) (items : Values) (o : Option ValueType) (tag : Tag)
    → StartsValue tag
    → array_move colonless (opened items o true) tag ≡ read
unfolding array_move
array_move-read colonless items o tag (bracket, comma, eof, comment) = rw (bracket, comma, eof) refl

settle-none : (t : ValueType) (p : Parser) → settle t none p ≡ ok (none, p)
unfolding settle
settle-none ValueType.object p = refl
settle-none ValueType.null p = refl
settle-none _ p = refl

-- An item that a separator precedes is pushed.
pub push_item-opened :
    (place : Position) (w : Value) (items : Values) (o : Option ValueType) (t : ValueType)
    (p : Parser)
    → join_type o (value_type w) ≡ some t
    → push_item place w (note_missing place (opened items o true)) p
      ≡ ok (opened (push_value items w) (some t) false, p)
unfolding push_item push_typed note_missing
push_item-opened place w items o t p h = rw (h, settle-none t p) refl

-- The state of a block array; a separator that is missing is let pass where the items so far are null.
abbrev pub rowed : Values → Option ValueType → Bool → Option Position → ArrayState
rowed items o need missing = record {
  items = items;
  element_type = o;
  need_value = need;
  first_missing_separator = missing;
}

abbrev pub RowState : Option ValueType → Option Position → Type 0
RowState none none = Unit {0}
RowState (some ValueType.null) missing = Unit {0}
RowState (some ValueType.object) none = Unit {0}
RowState o missing = ⊥

pub RowState-block :
    (o : Option ValueType) (missing : Option Position)
    → IsBlockType o
    → RowState o missing
    → missing ≡ none
RowState-block none none b h = refl
RowState-block none (some place) b h = absurd h
RowState-block (some ValueType.object) none b h = refl
RowState-block (some ValueType.object) (some place) b h = absurd h
RowState-block (some ValueType.null) missing b h = absurd b
RowState-block (some _) missing b h = absurd b

pub array_move-row :
    (items : Values) (o : Option ValueType) (need : Bool) (missing : Option Position) (tag : Tag)
    → StartsValue tag
    → RowState o missing
    → array_move true (rowed items o need missing) tag ≡ read
unfolding array_move
array_move-row items none true none tag (bracket, comma, eof, comment) h =
    rw (bracket, comma, eof) refl
array_move-row items none false none tag (bracket, comma, eof, comment) h =
    rw (bracket, comma, eof) refl
array_move-row items (some ValueType.null) true m tag (bracket, comma, eof, comment) h =
    rw (bracket, comma, eof) refl
array_move-row items (some ValueType.null) false m tag (bracket, comma, eof, comment) h =
    rw (bracket, comma, eof) refl
array_move-row items (some ValueType.object) true none tag (bracket, comma, eof, comment) h =
    rw (bracket, comma, eof) refl
array_move-row items (some ValueType.object) false none tag (bracket, comma, eof, comment) h =
    rw (bracket, comma, eof) refl
array_move-row items none need (some place) tag s h = absurd h
array_move-row items (some ValueType.object) need (some place) tag s h = absurd h
array_move-row items (some _) need none tag s h = absurd h
array_move-row items (some _) need (some place) tag s h = absurd h

-- A row is pushed, and the state is that of a block array again.
abbrev pub Pushed :
    Position
    → Value
    → Values
    → Option ValueType
    → Bool
    → Option Position
    → Parser
    → ValueType
    → Type 0
Pushed place w items o need missing p t =
    (m : Option Position) × (push_item place w (note_missing place (rowed items o need missing)) p
      ≡ ok (rowed (push_value items w) (some t) false m, p))
    × RowState (some t) m

object_pushed :
    (place : Position) (w : Value) (items : Values) (o : Option ValueType) (need : Bool)
    (missing : Option Position) (p : Parser)
    → RowState o missing
    → value_type w ≡ ValueType.object
    → Pushed place w items o need missing p ValueType.object
unfolding push_item push_typed note_missing settle join_type
object_pushed place w items none need missing p h e = (none, rw e refl, tt)
object_pushed place w items (some ValueType.null) need missing p h e = (none, rw e refl, tt)
object_pushed place w items (some ValueType.object) need missing p h e = (none, rw e refl, tt)
object_pushed place w items (some _) need none p h e = absurd h
object_pushed place w items (some _) need (some m) p h e = absurd h

null_pushed :
    (place : Position) (w : Value) (items : Values) (o : Option ValueType) (need : Bool)
    (missing : Option Position) (p : Parser) (t : ValueType)
    → RowState o missing
    → value_type w ≡ ValueType.null
    → row_type o ValueType.null ≡ some t
    → Pushed place w items o need missing p t
unfolding push_item push_typed note_missing settle join_type row_type
null_pushed place w items none need missing p t h e r =
    let same : ValueType.null ≡ t = cc r in
    let noted = note_missing place (rowed items none need missing) in
    rw (← same) (noted.first_missing_separator, rw e refl, tt)
null_pushed place w items (some ValueType.null) need missing p t h e r =
    let same : ValueType.null ≡ t = cc r in
    let noted = note_missing place (rowed items (some ValueType.null) need missing) in
    rw (← same) (noted.first_missing_separator, rw e refl, tt)
null_pushed place w items (some ValueType.object) need missing p t h e r =
    let same : ValueType.object ≡ t = cc r in rw (← same) (none, rw e refl, tt)
null_pushed place w items (some _) need none p t h e r = absurd h
null_pushed place w items (some _) need (some m) p t h e r = absurd h

pub push_item-row :
    (place : Position) (w : Value) (items : Values) (o : Option ValueType) (ty t : ValueType)
    (need : Bool) (missing : Option Position) (p : Parser)
    → RowState o missing
    → value_type w ≡ ty
    → row_type o ty ≡ some t
    → Pushed place w items o need missing p t
unfolding row_type
push_item-row place w items o ValueType.object t need missing p h e r =
    let same : ValueType.object ≡ t = cc r in
    rw (← same) (object_pushed place w items o need missing p h e)
push_item-row place w items o ValueType.null t need missing p h e r =
    null_pushed place w items o need missing p t h e r
push_item-row place w items none _ t need missing p h e r = cc
push_item-row place w items (some u) _ t need missing p h e r = cc

-- An array with items that read like `acc`.
abbrev pub ArrayRead : Option ValueType → Values → Bytes → ℕ → Value × Parser → Type 0
ArrayRead final acc rest depth (w, q) =
    (ys : Values) × (w ≡ array (type_or_string final) ys [])
    × (plain_items ys ≡ acc)
    × Stream q rest depth

pub close_array-Read :
    {p : Parser} {src text more : Bytes} {tag : Tag} {depth : ℕ} (items : Values)
    (o : Option ValueType) (need : Bool)
    → Stream p src depth
    → Lexes src tag text more
    → Yields (ArrayRead o (plain_items items) more depth) (close_array (opened items o need) p)
unfolding close_array close_at
close_array-Read items o need s k = Yields-bind (drain_comments-Stream s) λ (cs, q) (none_left, s').
    Yields-bind (consume-Taken s' k) λ (t, r) (tag_is, text_is, s'').
      yields (items, ap (array (type_or_string o) items) none_left, refl, s'')

-- An object with children that read like those of `ns`.
abbrev pub ObjectRead : Nodes → Bytes → ℕ → Value × Parser → Type 0
ObjectRead ns rest depth (w, q) =
    (cs : Nodes) × (w ≡ object cs []) × (plain_nodes cs ≡ plain_nodes ns) × Stream q rest depth

pub close_object-Read :
    {p : Parser} {src text more : Bytes} {tag : Tag} {depth : ℕ} (ms ns : Nodes)
    → plain_nodes ms ≡ plain_nodes ns
    → IsKeyed ms
    → Stream p src (depth + 1)
    → Lexes src tag text more
    → Yields (ObjectRead ns more depth) (close_object ms p)
unfolding close_object
close_object-Read ms ns e keyed s k =
    Yields-bind (drain_comments-Stream s) λ (cs, q) (none_left, s').
      Yields-bind (consume-Taken s' k) λ (t, r) (tag_is, text_is, s'').
        Yields-bind (leave-Stream s'') λ (u, x) left.
          yields (ms, rw (none_left, merge_nodes-IsKeyed_self ms keyed) refl, e, left)

pub plain_node-set_path : (path : Bytes) (n : Node) → plain_node (set_path path n) ≡ plain_node n
unfolding set_path plain_node
plain_node-set_path path (delete h t) = refl
plain_node-set_path path (field h v t) = refl
plain_node-set_path path (block h r cs t) = refl
plain_node-set_path path (block_array h xs t) = refl
plain_node-set_path path empty = refl

-- A node that reads like `n`.
abbrev pub NodeRead : Node → Bytes → ℕ → Node × Parser → Type 0
NodeRead n rest depth (m, q) = (plain_node m ≡ plain_node n) × Stream q rest depth

IsFieldValue-plain : (v : Value) → IsFieldValue v → IsFieldValue (plain_value v)
unfolding plain_value
IsFieldValue-plain (int n) h = tt
IsFieldValue-plain (float n) h = tt
IsFieldValue-plain (bool n) h = tt
IsFieldValue-plain (string n) h = tt
IsFieldValue-plain null h = tt
IsFieldValue-plain (array t xs c) h = h
IsFieldValue-plain (object ns c) h = h

plain-IsFieldValue : (v : Value) → IsFieldValue (plain_value v) → IsFieldValue v
unfolding plain_value
plain-IsFieldValue (int n) h = tt
plain-IsFieldValue (float n) h = tt
plain-IsFieldValue (bool n) h = tt
plain-IsFieldValue (string n) h = tt
plain-IsFieldValue null h = tt
plain-IsFieldValue (array t xs c) h = h
plain-IsFieldValue (object ns c) h = h

node_of-field_of :
    (h : Head) (w : Value) (p : Parser) → IsFieldValue w → node_of h false w p ≡ field_of h w p
unfolding node_of
node_of-field_of h (object cs t) p k = absurd k
node_of-field_of h (array ValueType.object xs t) p k = absurd k
node_of-field_of h (array _ xs t) p k = refl
node_of-field_of h _ p k = refl

-- A field's value makes a field, behind which the text goes on.
pub node_of-Read :
    {p : Parser} {rest : Bytes} {depth : ℕ} (h g : Head) (v w : Value)
    → plain_head g ≡ plain_head h
    → plain_value w ≡ plain_value v
    → IsFieldValue v
    → Stream p rest depth
    → Goes rest
    → Yields (NodeRead (field h v none) rest depth) (node_of g false w p)
unfolding field_of plain_node
node_of-Read {p} h g v w eh ev fv s go =
    let fw = plain-IsFieldValue w (rw ev (IsFieldValue-plain v fv)) in
    rw (node_of-field_of g w p fw) (
      Yields-bind (try_trailing_comment-Stream p.lex.line s go)
        λ (t, q) (none_there, s'). yields (rw (none_there, eh, ev) refl, s'))

pub delete_of-Read :
    {p : Parser} {rest : Bytes} {depth : ℕ} (h g : Head)
    → plain_head g ≡ plain_head h
    → Stream p rest depth
    → Goes rest
    → Yields (NodeRead (delete h none) rest depth) (delete_of g p)
unfolding delete_of plain_node
delete_of-Read {p} h g eh s go =
    Yields-bind (try_trailing_comment-Stream p.lex.line s go)
      λ (t, q) (none_there, s'). yields (rw (none_there, eh) refl, s')
