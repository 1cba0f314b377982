-- ===== src/RoundTrip/Heads.antt =====
-- rust/src/parser.rs: the heads of nodes, up to what the key is followed by.
use skg.Base.{
  ℕ, suc, Bool, true, false, not, ◌&&◌, Option, List, [], ◌∷◌, ◌++◌, Bytes, codes, ◌≡◌, refl, ap,
  ◌∙◌, ◌==◌, nat_eq, bytes_eq, bytes_beq, all,
}
use skg.Model.{Comment, Head, Node}
use skg.Result.{Yields, yields, Yields-bind, Yields-map}
use skg.Lexer.{punctuation}
use skg.Lexer.Scan.{
  Tag, Token, tag_eq, is_space, is_identifier, is_ident_start, is_ident_char, is_reserved,
}
use skg.Lexer.Spell.{Lexes, Lexes-at, Delimited}
use skg.Lexer.Spell.Words.{Lexes-identifier}
use skg.Parser.State.{Parser}
use skg.Parser.Keys.{head_of}
use skg.Parser.Grammar.{parse_node, parse_body, parse_operation, operation_head, expect_body}
use skg.Emit.{write_key, write_quoted}
use skg.RoundTrip.{plain_head}
use skg.RoundTrip.Texts.{Named, quoted, plain, write_key-Named}
use skg.RoundTrip.Stream.{
  Stream, peek-Shown, consume-Taken, expect-Taken, drain_comments-Stream, Stream-blank,
}
use skg.RoundTrip.Keys.{parse_key-write_key}
use skg.RoundTrip.Steps.{NodeRead, plain_node-set_path, mark}

-- A key ahead is no `@`.
record KeyAhead (src : Bytes) : Type 0 where
  pub tag : Tag
  pub text : Bytes
  pub more : Bytes
  pub lexes : Lexes src tag text more
  pub not_comment : (tag == Tag.comment) ≡ false
  pub not_at : (tag == Tag.at) ≡ false

named_ahead :
    {src : Bytes} (key rest : Bytes) (at : ℕ) → Named key src rest at → KeyAhead (src ++ rest)
named_ahead key rest at (quoted k) = record {
  tag = Tag.string;
  text = write_quoted key;
  more = rest;
  lexes = k;
  not_comment = refl;
  not_at = refl;
}
named_ahead key rest at (plain k top) = record {
  tag = Tag.ident;
  text = key;
  more = rest;
  lexes = k;
  not_comment = refl;
  not_at = refl;
}

-- The head that the parser makes is that of the node, but for its place.
abbrev pub SameHead : Head → Token → List Comment → Type 0
SameHead h name leading = plain_head (head_of name leading) ≡ plain_head h

pub same_head :
    (h : Head) (name : Token) (leading : List Comment)
    → h.leading_comments ≡ []
    → name.text ≡ h.key
    → leading ≡ []
    → SameHead h name leading
same_head h name leading e text_is none_left = rw (e, text_is, none_left) refl

module _ (parse_f64 : Bytes → Option ℕ) where
  -- A node that starts with its key is read, once its body is.
  pub keyed_reads :
      (f : ℕ) (p : Parser) (n : Node) (h : Head) (at depth : ℕ) (blank tail rest : Bytes)
      → h.leading_comments ≡ []
      → all is_space blank ≡ true
      → Delimited tail
      → Stream p (blank ++ (write_key h.key at ++ tail)) depth
      → ((name : Token) (leading : List Comment) (q : Parser)
          → SameHead h name leading
          → Stream q tail depth
          → Yields (NodeRead n rest depth) (parse_body parse_f64 f (head_of name leading) q))
      → Yields (NodeRead n rest depth) (parse_node parse_f64 (suc f) p)
  unfolding parse_node
  keyed_reads f p n h at depth blank tail rest e hb d s body =
      let x = named_ahead h.key tail at (write_key-Named h.key tail at d) in
      Yields-bind (drain_comments-Stream (Stream-blank blank hb s)) λ (leading, q) (none_left, s₁).
        Yields-bind (peek-Shown s₁ x.not_comment x.lexes) λ (t, r) (tag_is, text_is, s₂).
          rw (ap (λ tag. tag == Tag.at) tag_is ∙ x.not_at) (
            Yields-bind
              (Yields-bind (parse_key-write_key h.key tail at d s₂) λ (name, u) (name_is, s₃).
                body name leading u (same_head h name leading e name_is none_left) s₃)
              λ (m, u) (same, s₄). yields (plain_node-set_path p.path m ∙ same, s₄))

  -- One that starts with `@` is read, once the operation is.
  pub operated_reads :
      (f : ℕ) (p : Parser) (n : Node) (depth : ℕ) (blank tail rest : Bytes)
      → all is_space blank ≡ true
      → Stream p (blank ++ b'@' ∷ tail) depth
      → ((leading : List Comment) (q : Parser)
          → leading ≡ []
          → Stream q (b'@' ∷ tail) depth
          → Yields (NodeRead n rest depth) (parse_operation parse_f64 f leading q))
      → Yields (NodeRead n rest depth) (parse_node parse_f64 (suc f) p)
  unfolding parse_node
  operated_reads f p n depth blank tail rest hb s operation =
      Yields-bind (drain_comments-Stream (Stream-blank blank hb s)) λ (leading, q) (none_left, s₁).
        Yields-bind (peek-Shown s₁ refl (Lexes-at tail)) λ (t, r) (tag_is, text_is, s₂).
          rw (ap (λ tag. tag == Tag.at) tag_is) (
            Yields-bind (operation leading r none_left s₂)
              λ (m, u) (same, s₄). yields (plain_node-set_path p.path m ∙ same, s₄))

-- The word of an operation and the key behind it.
abbrev pub OperationRead : Bool → Bytes → Bytes → ℕ → (Bool × Token) × Parser → Type 0
OperationRead deletes key rest depth ((d, t), q) =
    (d ≡ deletes) × (t.text ≡ key) × Stream q rest depth

operation_word :
    (word : Bytes) (deletes : Bool) (p : Parser) (key tail : Bytes) (at depth : ℕ)
    → is_identifier word ≡ true
    → (not (word == codes "delete") && not (word == codes "replace")) ≡ false
    → (word == codes "delete") ≡ deletes
    → Delimited tail
    → Stream p (b'@' ∷ word ++ (b' ' ∷ write_key key at ++ tail)) depth
    → Yields (OperationRead deletes key tail depth) (operation_head p)
unfolding operation_head
operation_word word deletes p key tail at depth ident known which d s =
    Yields-bind (consume-Taken s (Lexes-at _)) λ (t, q) (tag_is, text_is, s₁).
      Yields-bind (expect-Taken Tag.ident s₁ (Lexes-identifier word _ ident refl))
        λ (operation, r) (kind, text_is', s₂).
          rw (text_is', known, which)
            (Yields-bind
              (parse_key-write_key key tail at d
                (Stream-blank (codes " ") (unfold is_space in refl) s₂))
              λ (name, u) (name_is, s₃). yields (refl, name_is, s₃))

pub operation_head-delete :
    (p : Parser) (key tail : Bytes) (at depth : ℕ)
    → Delimited tail
    → Stream p (codes "@delete " ++ (write_key key at ++ tail)) depth
    → Yields (OperationRead true key tail depth) (operation_head p)
operation_head-delete p key tail at depth d s =
    operation_word (codes "delete") true p key tail at depth
      (unfold is_identifier is_ident_start is_ident_char is_reserved in refl)
      (unfold bytes_beq in refl) (unfold bytes_beq in refl) d s

pub operation_head-replace :
    (p : Parser) (key tail : Bytes) (at depth : ℕ)
    → Delimited tail
    → Stream p (codes "@replace " ++ (write_key key at ++ tail)) depth
    → Yields (OperationRead false key tail depth) (operation_head p)
operation_head-replace p key tail at depth d s =
    operation_word (codes "replace") false p key tail at depth
      (unfold is_identifier is_ident_start is_ident_char is_reserved in refl)
      (unfold bytes_beq in refl) (unfold bytes_beq in refl) d s

-- The brace of a replacement's body.
pub expect_body-Stream :
    {p : Parser} {rest : Bytes} {depth : ℕ}
    → Stream p (b'{' ∷ rest) depth
    → Yields (λ (t, q). Stream q rest depth) (expect_body p)
unfolding expect_body
expect_body-Stream {rest = rest} s =
    let brace =
      mark b'{' Tag.l_brace rest (unfold is_space in refl) refl (unfold punctuation in refl) in
    Yields-bind (peek-Shown s refl brace) λ (t, q) (tag_is, text_is, s₁).
      rw (ap (λ tag. tag == Tag.l_brace) tag_is)
        (Yields-map (consume-Taken s₁ brace) λ (u, r) (tag_is', text_is', s₂). s₂)
