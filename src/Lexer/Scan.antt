-- ===== src/Lexer/Scan.antt =====
-- rust/src/lexer.rs: tokens, the state of the lexer and the classes of bytes.
use skg.Base.{
  ℕ, ◌+◌, Bool, true, false, not, ◌||◌, Option, [], ◌∷◌, Bytes, codes, within, Eq, ◌==◌, nat_eq,
  bytes_eq, bytes_beq, if◌then◌else◌, all, get_elem?, get_or, ◌≡◌, refl, sym, ap, ◌∙◌, ◌↔◌, ==_iff,
}
use skg.Error.{Position, diagnostic}
use skg.Error.Codes.{ErrorCode}
use skg.Result.{Result, err}

pub data Tag : Type 0 where
  int float bool_true bool_false null_literal string ident colon : Tag
  l_brace r_brace l_bracket r_bracket comma at comment eof : Tag

abbrev pub tag_index : Tag → ℕ
tag_index int = 0
tag_index float = 1
tag_index bool_true = 2
tag_index bool_false = 3
tag_index null_literal = 4
tag_index string = 5
tag_index ident = 6
tag_index colon = 7
tag_index l_brace = 8
tag_index r_brace = 9
tag_index l_bracket = 10
tag_index r_bracket = 11
tag_index comma = 12
tag_index at = 13
tag_index comment = 14
tag_index eof = 15

of_index : ℕ → Tag
of_index n =
    get_or
      (int ∷ float ∷ bool_true ∷ bool_false ∷ null_literal ∷ string ∷ ident ∷ colon ∷ l_brace
        ∷ r_brace ∷ l_bracket ∷ r_bracket ∷ comma ∷ at ∷ comment ∷ eof ∷ [])
      n eof

of_index-tag_index : (t : Tag) → of_index (tag_index t) ≡ t
unfolding of_index
of_index-tag_index int = refl
of_index-tag_index _ = refl

-- The derived equality of `Tag`.
abbrev pub tag_beq : Tag → Tag → Bool
tag_beq t u = tag_index t == tag_index u

pub tag_beq_iff : (t u : Tag) → (tag_beq t u ≡ true) ↔ (t ≡ u)
tag_beq_iff t u = (
  λ h.
      sym (of_index-tag_index t)
      ∙ ap of_index ((==_iff (tag_index t) (tag_index u)).0 h)
      ∙ of_index-tag_index u,
  λ e. (==_iff (tag_index t) (tag_index u)).1 (ap tag_index e),
)

instance abbrev pub tag_eq : Eq Tag
tag_eq = record { same = tag_beq; same_iff = tag_beq_iff }

pub record Token : Type 0 where
  pub tag : Tag
  pub text : Bytes
  pub line : ℕ
  pub col : ℕ

pub record Lexer : Type 0 where
  pub rest : Bytes
  pub line : ℕ
  pub col : ℕ

-- `Lexer::new`
abbrev pub new_lexer : Bytes → Lexer
new_lexer src = record { rest = src; line = 1; col = 1 }

abbrev pub position : Lexer → Position
position l = record { line = l.line; col = l.col }

abbrev pub peek : Lexer → Option ℕ
peek l = get_elem? l.rest 0

abbrev pub peek_ahead : Lexer → ℕ → Option ℕ
peek_ahead l offset = get_elem? l.rest offset

-- What `advance` does with the byte `c` and the bytes behind it.
abbrev pub advance_past : ℕ → Bytes → ℕ → ℕ → Lexer
advance_past c cs line col = record {
  rest = cs;
  line = (if c == b'\n' then line + 1 else line);
  col = (if c == b'\n' then 1 else col + 1);
}

-- At the end of the source, where the source would panic, it stays.
abbrev pub advance_bytes : Bytes → Lexer → Lexer
advance_bytes [] l = l
advance_bytes (c ∷ cs) l = advance_past c cs l.line l.col

abbrev pub advance : Lexer → Lexer
advance l = advance_bytes l.rest l

unfoldable pub is_digit : ℕ → Bool
is_digit c = within b'0' b'9' c

unfoldable pub is_ident_start : ℕ → Bool
is_ident_start c = within b'a' b'z' c || within b'A' b'Z' c || c == b'_'

unfoldable pub is_ident_char : ℕ → Bool
unfolding is_ident_start is_digit
is_ident_char c = is_ident_start c || is_digit c

unfoldable pub is_reserved : Bytes → Bool
unfolding bytes_beq
is_reserved key = key == codes "true" || key == codes "false" || key == codes "null"

unfoldable pub is_identifier : Bytes → Bool
unfolding is_ident_char is_reserved
is_identifier [] = false
is_identifier (c ∷ cs) =
    if not (is_ident_start c)
    then false
    else if not (all is_ident_char cs)
    then false
    else not (is_reserved (c ∷ cs))

unfoldable pub is_space : ℕ → Bool
is_space c = c == b' ' || c == b'\t' || c == b'\r' || c == b'\n'

-- `while let Some(c) = self.peek() { if test(c) { self.advance(); } else { break; } }`
unfoldable pub scan : (ℕ → Bool) → Bytes → ℕ → ℕ → Bytes × Lexer
scan test [] line col = ([], record { rest = []; line = line; col = col })
scan test (c ∷ cs) line col =
    let next = advance_past c cs line col in
    let (text, l) = scan test cs next.line next.col in
    if test c then (c ∷ text, l) else ([], record { rest = c ∷ cs; line = line; col = col })

abbrev pub scan_while : (ℕ → Bool) → Lexer → Bytes × Lexer
scan_while test l = scan test l.rest l.line l.col

abbrev pub skip_whitespace : Lexer → Lexer
skip_whitespace l = (scan_while is_space l).1

abbrev pub Lexed : Type 0
Lexed = Result (Token × Lexer)

abbrev pub token : Tag → Bytes → Position → Token
token tag text start = record { tag = tag; text = text; line = start.line; col = start.col }

-- `at` and `at_cursor`: the parser fills in the path.
abbrev pub fail_at {ℓ} : {A : Type ℓ} → Position → ErrorCode → Result A
fail_at place code = err (diagnostic code [] place)
