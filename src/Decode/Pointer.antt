-- ===== src/Decode/Pointer.antt =====
-- rust/src/de.rs: the JSON Pointer of a value.
use skg.Base.{ℕ, suc, List, [], ◌∷◌, ◌++◌, Bytes, codes, ◌==◌, nat_eq, if◌then◌else◌}
use skg.Emit.{digits}

pub data Segment : Type 0 where
  key : Bytes → Segment
  index : ℕ → Segment

-- A character of a key; `~` and `/` are single bytes.
unfoldable pub escape_char : ℕ → Bytes
escape_char c = if c == b'~' then codes "~0" else if c == b'/' then codes "~1" else c ∷ []

unfoldable pub escape_key : Bytes → Bytes
unfolding escape_char
escape_key [] = []
escape_key (c ∷ cs) = escape_char c ++ escape_key cs

-- `usize::to_string`
unfoldable pub index_text : ℕ → Bytes
unfolding digits
index_text n = digits (suc n) n

unfoldable pub render_path : List Segment → Bytes
unfolding escape_key index_text
render_path [] = []
render_path (key k ∷ segments) = b'/' ∷ escape_key k ++ render_path segments
render_path (index i ∷ segments) = b'/' ∷ index_text i ++ render_path segments
