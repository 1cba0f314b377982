-- ===== src/Encode/Whole.antt =====
-- rust/src/ser.rs: encoding of the self-describing type, and decoding of what it gives.
use skg.Base.{
  ◌+◌, ◌-◌, ◌<◌, ◌≤◌, false, none, some, List, [], ◌∷◌, ◌++◌, append-nil, append_assoc, Bytes, ltb,
  ◌==◌, nat_eq, ◌≡◌, refl, sym, ap, ◌∙◌, arith,
}
use skg.Model.{Value, Values, no_items, item, cons, push_value}
use skg.Result.{ok}
use skg.Decode.Collect.{
  Data, Datas, Table, nothing, truth, whole, real, text, list, table, no_data, datum, no_entry,
  entry,
}
use skg.Encode.{
  Frame, array_frame, map_frame, Serializer, attach, attach_value, enter, leave, leave_at,
  end_frame, frame_value, check_homogeneous, object_from, named_node, set_key,
}
use skg.Encode.Methods.{
  serialize_unit, serialize_bool, serialize_signed, serialize_f64, serialize_str, serialize_seq,
  serialize_struct, serialize_element, serialize_field,
}
use skg.Encode.Client.{
  encode_data, encode_items, encode_fields, value_of_data, values_of, nodes_of, IsEncodable,
  AreEncodable, IsEncodableTable, levels, levels_of, levels_in,
}

-- A serializer with one more frame.
abbrev on : Frame → Serializer → Serializer
on frame s = record s { depth = s.depth + 1; stack = frame ∷ s.stack }

entered : (frame : Frame) (s : Serializer) → s.depth < 128 → enter frame s ≡ ok (on frame s)
unfolding enter
entered frame s h = let room : ltb 128 (s.depth + 1) ≡ false = ground arith in rw room refl

left :
    (frame : Frame) (s : Serializer) (v : Value)
    → frame_value frame ≡ ok v
    → leave (on frame s) ≡ ok (v, s)
unfolding leave leave_at
left frame s v h =
    let deep : (s.depth + 1 == 0) ≡ false = ground arith in
    let back : s.depth + 1 - 1 ≡ s.depth = omega arith in rw (deep, h, back) refl

ended :
    (frame : Frame) (s : Serializer) (v : Value)
    → frame_value frame ≡ ok v
    → end_frame (on frame s) ≡ attach v s
unfolding end_frame
ended frame s v h = rw (left frame s v h) refl

attached : (v : Value) (s : Serializer) → s.key_slot ≡ false → attach v s ≡ attach_value s.stack v s
unfolding attach
attached v s h = rw h refl

abbrev pub append_values : Values → Values → Values
append_values no_items ws = ws
append_values (item v vs) ws = item v (append_values vs ws)

pub append_values-nil : (vs : Values) → append_values vs no_items ≡ vs
append_values-nil no_items = refl
append_values-nil (item v vs) = ap (item v) (append_values-nil vs)

pub append_values-push :
    (vs : Values) (v : Value) (ws : Values)
    → append_values (push_value vs v) ws ≡ append_values vs (item v ws)
append_values-push no_items v ws = refl
append_values-push (item w vs) v ws = ap (item w) (append_values-push vs v ws)

entries_of : Table → List (Bytes × Value)
entries_of no_entry = []
entries_of (entry k x t) = (k, value_of_data x) ∷ entries_of t

object_from-entries_of : (t : Table) → object_from (entries_of t) ≡ nodes_of t
unfolding object_from entries_of nodes_of
object_from-entries_of no_entry = refl
object_from-entries_of (entry k x t) =
    ap (cons (named_node k (value_of_data x))) (object_from-entries_of t)

mutual
  unfolding encode_data value_of_data serialize_unit serialize_bool serialize_signed serialize_f64
      serialize_str serialize_seq serialize_struct serialize_element serialize_field set_key
      attach_value frame_value check_homogeneous entries_of

  pub data_encoded :
      (d : Data) (s : Serializer)
      → s.key_slot ≡ false
      → IsEncodable d
      → s.depth + levels d ≤ 128
      → encode_data d s ≡ attach (value_of_data d) s
  data_encoded nothing s off h hd = refl
  data_encoded (truth b) s off h hd = refl
  data_encoded (whole n) s off h hd = refl
  data_encoded (real f) s off h hd = rw h refl
  data_encoded (text t) s off h hd = refl
  data_encoded (list xs) s off (same, h) hd =
      rw
        (
          entered (array_frame no_items) s (omega (arith, hd)),
          items_encoded xs no_items s off h (omega (arith, hd)),
        )
        (ended (array_frame (values_of xs)) s (value_of_data (list xs)) (rw same refl))
  data_encoded (table t) s off h hd =
      rw
        (
          entered (map_frame [] none false) s (omega (arith, hd)),
          fields_encoded t [] s off h (omega (arith, hd)),
        )
        (ended (map_frame (entries_of t) none false) s (value_of_data (table t))
          (rw (object_from-entries_of t) refl))

  items_encoded :
      (xs : Datas) (items : Values) (s : Serializer)
      → s.key_slot ≡ false
      → AreEncodable xs
      → s.depth + levels_of xs < 128
      → encode_items xs (on (array_frame items) s)
        ≡ ok (on (array_frame (append_values items (values_of xs))) s)
  items_encoded no_data items s off h hd = rw (append_values-nil items) refl
  items_encoded (datum x xs) items s off (hx, hxs) hd =
      let first =
        data_encoded x (on (array_frame items) s) off hx (omega (arith, hd))
        ∙ attached (value_of_data x) (on (array_frame items) s) off in
      rw (first, sym (append_values-push items (value_of_data x) (values_of xs)))
        (items_encoded xs (push_value items (value_of_data x)) s off hxs (omega (arith, hd)))

  fields_encoded :
      (t : Table) (es : List (Bytes × Value)) (s : Serializer)
      → s.key_slot ≡ false
      → IsEncodableTable t
      → s.depth + levels_in t < 128
      → encode_fields t (on (map_frame es none false) s)
        ≡ ok (on (map_frame (es ++ entries_of t) none false) s)
  fields_encoded no_entry es s off h hd = rw (append-nil es) refl
  fields_encoded (entry k x t) es s off (hx, ht) hd =
      let top = on (map_frame es (some k) false) s in
      let first =
        data_encoded x top off hx (omega (arith, hd)) ∙ attached (value_of_data x) top off in
      rw (first, sym (append_assoc es ((k, value_of_data x) ∷ []) (entries_of t)))
        (fields_encoded t (es ++ (k, value_of_data x) ∷ []) s off ht (omega (arith, hd)))
