-- ===== src/Decode/Missing.antt =====
-- rust/src/de.rs: where the errors of a struct point.
use skg.Base.{
  none, some, List, [], ◌∷◌, ◌++◌, map, append-nil, append_assoc, Bytes, ◌≡◌, refl, sym, ap, ◌∙◌,
}
use skg.Model.{Nodes}
use skg.Result.{err}
use skg.Decode.Pointer.{Segment, key, index, escape_key, index_text, render_path}
use skg.Decode.Numbers.{Casts}
use skg.Decode.Value.{
  object_val, missing_field, ValueDeserializer, taken, path_at, fill_struct_error, located,
  missing_suffix,
}
use skg.Decode.Access.{new_map}
use skg.Decode.Visitor.{Visitor}
use skg.Decode.Visit.{deserialize_struct, struct_at}
use skg.Decode.Unescape.{read_pointer, read_pointer-render_path, segment_text}

render_path-append : (a b : List Segment) → render_path (a ++ b) ≡ render_path a ++ render_path b
unfolding render_path
render_path-append [] b = refl
render_path-append (key k ∷ a) b =
    ap (λ t. b'/' ∷ escape_key k ++ t) (render_path-append a b)
    ∙ ap (λ t. b'/' ∷ t) (sym (append_assoc (escape_key k) (render_path a) (render_path b)))
render_path-append (index i ∷ a) b =
    ap (λ t. b'/' ∷ index_text i ++ t) (render_path-append a b)
    ∙ ap (λ t. b'/' ∷ t) (sym (append_assoc (index_text i) (render_path a) (render_path b)))

map-snoc :
    (f : Segment → Bytes) (a : List Segment) (s : Segment)
    → map f (a ++ s ∷ []) ≡ map f a ++ f s ∷ []
map-snoc f [] s = refl
map-snoc f (x ∷ a) s = ap (λ t. f x ∷ t) (map-snoc f a s)

rendered_key :
    (segments : List Segment) (k : Bytes)
    → render_path (segments ++ key k ∷ []) ≡ render_path segments ++ b'/' ∷ escape_key k
unfolding render_path
rendered_key segments k =
    render_path-append segments (key k ∷ [])
    ∙ ap (λ t. render_path segments ++ b'/' ∷ t) (append-nil (escape_key k))

read_key :
    (segments : List Segment) (k : Bytes)
    → read_pointer (render_path segments ++ b'/' ∷ escape_key k)
      ≡ map segment_text segments ++ k ∷ []
unfolding segment_text
read_key segments k =
    ap read_pointer (sym (rendered_key segments k))
    ∙ read_pointer-render_path (segments ++ key k ∷ [])
    ∙ map-snoc segment_text segments (key k)

-- A struct whose visitor misses a field, and says so with no place, fails at a pointer that reads back as
-- the place of the struct and the name of the field, at the source of the struct.
pub deserialize_struct-missing_field :
    {V : Type 0} (casts : Casts) (visitor : Visitor V) (d : ValueDeserializer) (children : Nodes)
    (name : Bytes)
    → d.value ≡ object_val children
    → visitor.visit_map (new_map (taken d) children)
      ≡ err (record { kind = missing_field name; path = none; source = none })
    → (pointer : Bytes) × (deserialize_struct casts visitor d
        ≡ err (record { kind = missing_field name; path = some pointer; source = some d.source }))
      × (read_pointer pointer ≡ map segment_text d.segments ++ name ∷ [])
unfolding deserialize_struct struct_at fill_struct_error located missing_suffix path_at
deserialize_struct-missing_field casts visitor d children name e misses = (
  render_path d.segments ++ b'/' ∷ escape_key name,
  rw (e, struct_at, misses) refl,
  read_key d.segments name,
)
