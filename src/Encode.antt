-- ===== src/Encode.antt =====
-- rust/src/ser.rs: native values, encoded by serde's Serialize as a document and its text. What an
-- error says is left out.
pub mod Methods
pub mod Client
pub mod Whole
pub mod RoundTrip
pub mod Steps
pub mod Balance
mod Tests
use skg.Base.{
  ℕ, zero, suc, ◌+◌, ◌-◌, ◌^◌, Bool, true, false, not, Option, none, some, List, [], ◌∷◌, ◌++◌,
  Bytes, ltb, ◌==◌, nat_eq, if◌then◌else◌, length,
}
use skg.Model.{
  new_document, ℤ, pos, ValueType, type_beq, Head, Value, Values, Node, Nodes, int, float, bool,
  string, null, array, object, no_items, item, field, block, block_array, nil, cons, push_value,
  value_type, Document,
}
use skg.Parser.Text.{is_finite, max_file_size}
use skg.Result.{Outcome, ok, err, out_of_fuel, bind}
use skg.Emit.{emit}

pub data EncodeError : Type 0 where
  invalid_value unsupported : EncodeError

abbrev pub Encoded {ℓ} : Type ℓ → Type ℓ
Encoded A = Outcome EncodeError A

abbrev pub max_depth : ℕ
max_depth = 128

pub data Frame : Type 0 where
  array_frame : Values → Frame
  map_frame : List (Bytes × Value) → Option Bytes → Bool → Frame

-- The last frame of the stack and the last variant stand first.
pub record Serializer : Type 0 where
  pub stack : List Frame
  pub root : Option Value
  pub depth : ℕ
  pub key_slot : Bool
  pub pending_variants : List Bytes

-- `Serializer::default`
abbrev pub new_serializer : Serializer
new_serializer = record {
  stack = [];
  root = none;
  depth = 0;
  key_slot = false;
  pending_variants = [];
}

-- The outcome of a call. One that fails leaves the serializer as it was by then, and a caller that
-- passes over the error goes on with it.
abbrev pub Called {ℓ} : Type ℓ → Type ℓ
Called A = Outcome (EncodeError × Serializer) A

-- What a native value does to the serializer.
abbrev pub Serialize : Type 0
Serialize = Serializer → Called Serializer

abbrev pub with_serializer {ℓ} : {A : Type ℓ} → Serializer → Encoded A → Called (A × Serializer)
with_serializer s (ok a) = ok (a, s)
with_serializer s (err e) = err (e, s)
with_serializer s out_of_fuel = out_of_fuel

-- The outcome without the serializer of a failure.
abbrev without_serializer {ℓ} : {A : Type ℓ} → Called A → Encoded A
without_serializer (ok a) = ok a
without_serializer (err (e, s)) = err e
without_serializer out_of_fuel = out_of_fuel

-- What else a failure does to the serializer.
abbrev pub on_failure {ℓ} : {A : Type ℓ} → (Serializer → Serializer) → Called A → Called A
on_failure f (ok a) = ok a
on_failure f (err (e, s)) = err (e, f s)
on_failure f out_of_fuel = out_of_fuel

-- A key for the map on top of the stack.
unfoldable pub set_key : List Frame → Bytes → Serialize
set_key (map_frame entries pending sort ∷ frames) k s =
    ok (record s { stack = map_frame entries (some k) sort ∷ frames })
set_key _ k s = err (invalid_value, s)

unfoldable pub attach_key : Value → Serialize
unfolding set_key
attach_key (string k) s = set_key s.stack k s
attach_key _ s = err (unsupported, s)

unfoldable pub attach_root : Option Value → Value → Serialize
attach_root none value s = ok (record s { root = some value })
attach_root (some first) value s = err (invalid_value, s)

unfoldable pub attach_value : List Frame → Value → Serialize
unfolding attach_root
attach_value (array_frame items ∷ frames) value s =
    ok (record s { stack = array_frame (push_value items value) ∷ frames })
attach_value (map_frame entries (some k) sort ∷ frames) value s =
    ok (record s { stack = map_frame (entries ++ (k, value) ∷ []) none sort ∷ frames })
attach_value (map_frame entries none sort ∷ frames) value s = err (invalid_value, s)
attach_value [] value s = attach_root s.root value s

unfoldable pub attach : Value → Serialize
unfolding attach_key attach_value
attach value s =
    if s.key_slot
    then attach_key value (record s { key_slot = false })
    else attach_value s.stack value s

unfoldable pub enter : Frame → Serialize
enter frame s =
    let deeper : Serializer = record s { depth = s.depth + 1 } in
    if ltb max_depth deeper.depth
    then err (unsupported, deeper)
    else ok (record deeper { stack = frame ∷ s.stack })

-- `check_homogeneous`, from an item on, with the type that is expected by then.
unfoldable pub homogeneous_from : Option ValueType → Values → Bool
unfolding value_type
homogeneous_from expected no_items = true
homogeneous_from none (item v vs) =
    let others = homogeneous_from none vs in
    let same = homogeneous_from (some (value_type v)) vs in
    if type_beq (value_type v) ValueType.null then others else same
homogeneous_from (some t) (item v vs) =
    let rest = homogeneous_from (some t) vs in
    if type_beq (value_type v) ValueType.null
    then rest
    else if type_beq t (value_type v)
    then rest
    else false

unfoldable pub check_homogeneous : Values → Encoded (Unit {0})
unfolding homogeneous_from
check_homogeneous items = if homogeneous_from none items then ok tt else err invalid_value

-- The type of the first item that is not null.
unfoldable pub first_type : Values → Option ValueType
unfolding value_type
first_type no_items = none
first_type (item v vs) =
    let rest = first_type vs in
    if type_beq (value_type v) ValueType.null then rest else some (value_type v)

abbrev pub type_or_null : Option ValueType → ValueType
type_or_null none = ValueType.null
type_or_null (some t) = t

unfoldable pub array_element_type : Values → ValueType
unfolding first_type
array_element_type no_items = ValueType.string
array_element_type (item v vs) = type_or_null (first_type (item v vs))

abbrev pub encoded_head : Bytes → Head
encoded_head name = record { path = []; key = name; line = 0; col = 0; leading_comments = [] }

unfoldable pub named_node : Bytes → Value → Node
named_node name (object children t) = block (encoded_head name) false children []
named_node name (array ValueType.object items t) = block_array (encoded_head name) items []
named_node name value = field (encoded_head name) value none

unfoldable pub object_from : List (Bytes × Value) → Nodes
unfolding named_node
object_from [] = nil
object_from ((k, v) ∷ entries) = cons (named_node k v) (object_from entries)

-- The order of strings, by their bytes.
unfoldable pub text_ltb : Bytes → Bytes → Bool
text_ltb [] [] = false
text_ltb [] (d ∷ ds) = true
text_ltb (c ∷ cs) [] = false
text_ltb (c ∷ cs) (d ∷ ds) = if ltb c d then true else if c == d then text_ltb cs ds else false

-- A stable sort by key.
unfoldable pub place_entry : Bytes × Value → List (Bytes × Value) → List (Bytes × Value)
unfolding text_ltb
place_entry e [] = e ∷ []
place_entry e (f ∷ entries) =
    let rest = place_entry e entries in if text_ltb f.0 e.0 then f ∷ rest else e ∷ f ∷ entries

unfoldable pub sort_entries : List (Bytes × Value) → List (Bytes × Value)
unfolding place_entry
sort_entries [] = []
sort_entries (e ∷ entries) = place_entry e (sort_entries entries)

-- The value of a finished frame. A pending key is dropped, as in a release build; in a debug build the
-- source would stop there.
unfoldable pub frame_value : Frame → Encoded Value
unfolding check_homogeneous array_element_type object_from sort_entries
frame_value (array_frame items) =
    bind (check_homogeneous items) λ u. ok (array (array_element_type items) items [])
frame_value (map_frame entries pending true) = ok (object (object_from (sort_entries entries)) [])
frame_value (map_frame entries pending false) = ok (object (object_from entries) [])

-- `leave` from the popping of the frame on.
unfoldable pub leave_at : List Frame → Serializer → Called (Value × Serializer)
unfolding frame_value
leave_at [] s = err (invalid_value, s)
leave_at (frame ∷ frames) s = with_serializer (record s { stack = frames }) (frame_value frame)

-- At depth 0, where the source's counter would overflow, it has no result.
unfoldable pub leave : Serializer → Called (Value × Serializer)
unfolding leave_at
leave s = if s.depth == 0 then out_of_fuel else leave_at s.stack (record s { depth = s.depth - 1 })

-- The serializer's `end` of a sequence, a map and a struct.
unfoldable pub end_frame : Serialize
unfolding leave attach
end_frame s = bind (leave s) λ (value, s'). attach value s'

abbrev pub single_entry : Bytes → Value → Value
unfolding named_node
single_entry variant value = object (cons (named_node variant value) nil) []

unfoldable pub close_variant : List Bytes → Value → Serialize
unfolding attach single_entry
close_variant [] value s = err (invalid_value, s)
close_variant (variant ∷ variants) value s =
    attach (single_entry variant value) (record s { pending_variants = variants })

unfoldable pub finish_variant : Serialize
unfolding leave close_variant
finish_variant s = bind (leave s) λ (value, s'). close_variant s'.pending_variants value s'

unfoldable pub finish_at : List Frame → Option Value → Encoded Document
finish_at (frame ∷ frames) root = err invalid_value
finish_at [] (some (object children t)) = ok (record (new_document []) { children = children })
finish_at [] (some _) = err unsupported
finish_at [] none = err invalid_value

unfoldable pub finish : Serializer → Encoded Document
unfolding finish_at
finish s = finish_at s.stack s.root

unfoldable pub to_document : Serialize → Encoded Document
unfolding finish
to_document value = bind (without_serializer (value new_serializer)) finish

unfoldable pub to_string : (show_f64 : ℕ → Bytes) → Serialize → Encoded Bytes
unfolding to_document emit
to_string show_f64 value = bind (to_document value) λ document.
    let text = emit show_f64 document in
    if ltb max_file_size (length text) then err invalid_value else ok text
