-- ===== src/RoundTrip/Layout.antt =====
-- rust/src/emit.rs: what is written for nodes and values, with what follows, bracketed to the right.
use skg.Base.{
  ℕ, zero, suc, Bool, true, false, none, [], ◌∷◌, ◌++◌, Bytes, codes, ◌≡◌, refl, ◌==◌, nat_eq, all,
  append_assoc, append-nil, all-append, ltb, ◌&&◌, Bool-cases, inl, inr,
}
use skg.Model.{
  Head, ValueType, Value, Values, Node, Nodes, array, object, delete, field, block, block_array,
  nil, cons, no_items, item,
}
use skg.Lexer.Scan.{is_space}
use skg.Emit.{
  write_indent, write_key, emit_comment_lines, trailing_text, blank_line, emit_from, emit_node,
  emit_lines, emit_value, emit_items,
}

pub write_indent_blank : (depth : ℕ) → all is_space (write_indent depth) ≡ true
unfolding write_indent is_space
write_indent_blank zero = refl
write_indent_blank (suc depth) = write_indent_blank depth

blank_line_blank : (i depth : ℕ) → all is_space (blank_line i depth) ≡ true
unfolding blank_line is_space
blank_line_blank i depth = elim (Bool-cases (ltb 0 i && depth == 0)) [
  | inl e ↦ rw e refl
  | inr e ↦ rw e refl
]

-- The white space before a block.
abbrev pub margin : ℕ → ℕ → Bytes
margin i depth = blank_line i depth ++ write_indent depth

pub margin_blank : (i depth : ℕ) → all is_space (margin i depth) ≡ true
margin_blank i depth =
    all-append is_space (blank_line i depth) (write_indent depth) (blank_line_blank i depth)
      (write_indent_blank depth)

module _ (show_f64 : ℕ → Bytes) where
  pub delete_text :
      (i depth : ℕ) (h : Head) (rest : Bytes)
      → h.leading_comments ≡ []
      → emit_node show_f64 i (delete h none) depth ++ rest
        ≡ write_indent depth ++ (codes "@delete " ++ (write_key h.key depth ++ b'\n' ∷ rest))
  unfolding emit_from emit_comment_lines trailing_text
  delete_text i depth h rest e = rw e (simp (append_assoc, append-nil))

  pub field_text :
      (i depth : ℕ) (h : Head) (v : Value) (rest : Bytes)
      → h.leading_comments ≡ []
      → emit_node show_f64 i (field h v none) depth ++ rest
        ≡ write_indent depth
          ++ (write_key h.key depth
              ++ (codes ": " ++ (emit_value show_f64 v depth ++ b'\n' ∷ rest)))
  unfolding emit_from emit_comment_lines trailing_text
  field_text i depth h v rest e = rw e (simp (append_assoc, append-nil))

  -- From the key of a block on.
  abbrev pub block_tail : ℕ → Head → Nodes → Bytes → Bytes
  block_tail depth h cs rest =
      write_key h.key depth
      ++ (codes " {\n"
          ++ (emit_from show_f64 0 cs (suc depth) ++ (write_indent depth ++ (codes "}\n" ++ rest))))

  pub block_text :
      (i depth : ℕ) (h : Head) (cs : Nodes) (rest : Bytes)
      → h.leading_comments ≡ []
      → emit_node show_f64 i (block h false cs []) depth ++ rest
        ≡ margin i depth ++ block_tail depth h cs rest
  unfolding emit_from emit_comment_lines
  block_text i depth h cs rest e = rw e (simp (append_assoc, append-nil))

  pub replace_text :
      (i depth : ℕ) (h : Head) (cs : Nodes) (rest : Bytes)
      → h.leading_comments ≡ []
      → emit_node show_f64 i (block h true cs []) depth ++ rest
        ≡ margin i depth ++ (codes "@replace " ++ block_tail depth h cs rest)
  unfolding emit_from emit_comment_lines
  replace_text i depth h cs rest e = rw e (simp (append_assoc, append-nil))

  pub block_array_text :
      (i depth : ℕ) (h : Head) (xs : Values) (rest : Bytes)
      → h.leading_comments ≡ []
      → emit_node show_f64 i (block_array h xs []) depth ++ rest
        ≡ margin i depth
          ++ (write_key h.key depth
              ++ (codes " [\n"
                  ++ (emit_lines show_f64 xs (suc depth)
                      ++ (write_indent depth ++ (codes "]\n" ++ rest)))))
  unfolding emit_from emit_comment_lines
  block_array_text i depth h xs rest e = rw e (simp (append_assoc, append-nil))

  pub object_text :
      (depth : ℕ) (cs : Nodes) (rest : Bytes)
      → emit_value show_f64 (object cs []) depth ++ rest
        ≡ codes "{\n"
          ++ (emit_from show_f64 0 cs (suc depth) ++ (write_indent depth ++ b'}' ∷ rest))
  unfolding emit_from emit_comment_lines
  object_text depth cs rest = simp (append_assoc, append-nil)

  pub array_text :
      (depth : ℕ) (element : ValueType) (xs : Values) (rest : Bytes)
      → emit_value show_f64 (array element xs []) depth ++ rest
        ≡ b'[' ∷ (emit_items show_f64 true xs depth ++ b']' ∷ rest)
  unfolding emit_from
  array_text depth element xs rest = simp (append_assoc, append-nil)

  pub first_item_text :
      (depth : ℕ) (v : Value) (vs : Values) (rest : Bytes)
      → emit_items show_f64 true (item v vs) depth ++ rest
        ≡ emit_value show_f64 v (suc depth) ++ (emit_items show_f64 false vs depth ++ rest)
  unfolding emit_from
  first_item_text depth v vs rest = simp (append_assoc)

  pub next_item_text :
      (depth : ℕ) (v : Value) (vs : Values) (rest : Bytes)
      → emit_items show_f64 false (item v vs) depth ++ rest
        ≡ codes ", "
          ++ (emit_value show_f64 v (suc depth) ++ (emit_items show_f64 false vs depth ++ rest))
  unfolding emit_from
  next_item_text depth v vs rest = simp (append_assoc)

  pub line_text :
      (depth : ℕ) (v : Value) (vs : Values) (rest : Bytes)
      → emit_lines show_f64 (item v vs) depth ++ rest
        ≡ write_indent depth
          ++ (emit_value show_f64 v depth ++ b'\n' ∷ (emit_lines show_f64 vs depth ++ rest))
  unfolding emit_from
  line_text depth v vs rest = simp (append_assoc)

  pub nodes_text :
      (i depth : ℕ) (n : Node) (ns : Nodes) (rest : Bytes)
      → emit_from show_f64 i (cons n ns) depth ++ rest
        ≡ emit_node show_f64 i n depth ++ (emit_from show_f64 (suc i) ns depth ++ rest)
  unfolding emit_from
  nodes_text i depth n ns rest = append_assoc _ _ rest

  -- Nothing is written for no node, item or line.
  pub no_items_text :
      (first : Bool) (at : ℕ) (rest : Bytes) → emit_items show_f64 first no_items at ++ rest ≡ rest
  unfolding emit_from
  no_items_text first at rest = refl

  pub nil_text : (i at : ℕ) (rest : Bytes) → emit_from show_f64 i nil at ++ rest ≡ rest
  unfolding emit_from
  nil_text i at rest = refl

  pub no_lines_text : (at : ℕ) (rest : Bytes) → emit_lines show_f64 no_items at ++ rest ≡ rest
  unfolding emit_from
  no_lines_text at rest = refl
