-- ===== src/Emit/Literal.antt =====
-- rust/src/emit.rs and rust/src/lexer.rs: quoted strings, written and lexed.
use skg.Base.{
  ℕ, ◌+◌, Bool, false, ◌&&◌, some, [], ◌∷◌, ◌++◌, Bytes, ◌==◌, nat_eq, length, length-append,
  option_beq, get_elem?, ◌≡◌, refl, ap, ◌∙◌, arith, Bool-cases, inl, inr, append_assoc,
}
use skg.Result
use skg.Result.{Result, ok, err}
use skg.Lexer.{next}
use skg.Lexer.Text.{lex_string, scan_string, is_escape}
use skg.Lexer.Scan.{Lexer, Tag, Token}
use skg.Emit.{escape, write_escaped, write_quoted}
use skg.Emit.Quote.{write_escaped-first, unescape_string-write_quoted}
use skg.Parser.Text.{unescape_string}

-- The text is put before what is scanned.
abbrev before : Bytes → Result (Bytes × Lexer) → Result (Bytes × Lexer)
before text r = Result.bind r λ (more, l). ok (text ++ more, l)

scan_string-cons :
    (c : ℕ) (s : Bytes) (line col : ℕ)
    → (c == b'"') ≡ false
    → (c == b'\\') ≡ false
    → (c == b'\n') ≡ false
    → scan_string (c ∷ s) line col ≡ before (c ∷ []) (scan_string s line (col + 1))
unfolding scan_string
scan_string-cons c [] line col h g k = rw (h, g, k) refl
scan_string-cons c (e ∷ s) line col h g k = rw (h, g, k) refl

scan_string-escape :
    (c : ℕ) (s : Bytes) (line col : ℕ)
    → scan_string (escape c ++ s) line col
      ≡ before (escape c) (scan_string s line (col + length (escape c)))
unfolding escape scan_string is_escape
scan_string-escape c s line col = elim (Bool-cases (c == b'"')) [
  | inl h ↦ rw h refl
  | inr h ↦ elim (Bool-cases (c == b'\\')) [
    | inl g ↦ rw (h, g) refl
    | inr g ↦ elim (Bool-cases (c == b'\n')) [
      | inl k ↦ rw (h, g, k) refl
      | inr k ↦ elim (Bool-cases (c == b'\t')) [
        | inl t ↦ rw (h, g, k, t) refl
        | inr t ↦ rw (h, g, k, t) (scan_string-cons c s line col h g k)
      ]
    ]
  ]
]

-- A text scanned, with the lexer behind it at `col`.
abbrev scanned : Bytes → Bytes → ℕ → ℕ → Result (Bytes × Lexer)
scanned text rest line col = ok (text, record { rest = rest; line = line; col = col })

scan_string-quote :
    (rest : Bytes) (line col : ℕ)
    → scan_string (b'"' ∷ rest) line col ≡ scanned (b'"' ∷ []) rest line (col + 1)
unfolding scan_string
scan_string-quote [] line col = refl
scan_string-quote (r ∷ rest) line col = refl

write_escaped-cons : (c : ℕ) (cs : Bytes) → write_escaped (c ∷ cs) ≡ escape c ++ write_escaped cs
unfolding write_escaped
write_escaped-cons c cs = refl

write_escaped-nil : write_escaped [] ≡ []
unfolding write_escaped
write_escaped-nil = refl

scan_string-write_escaped :
    (s rest : Bytes) (line col : ℕ)
    → scan_string (write_escaped s ++ b'"' ∷ rest) line col
      ≡ scanned (write_escaped s ++ b'"' ∷ []) rest line (col + length (write_escaped s) + 1)
scan_string-write_escaped [] rest line col =
    let e : col + 1 ≡ col + 0 + 1 = omega arith in
    rw write_escaped-nil (scan_string-quote rest line col ∙ ap (scanned (b'"' ∷ []) rest line) e)
scan_string-write_escaped (c ∷ cs) rest line col =
    let e : col + length (escape c) + length (write_escaped cs) + 1
        ≡ col + length (escape c ++ write_escaped cs) + 1 =
      omega (arith, length-append (escape c) (write_escaped cs)) in
    rw
      (
        write_escaped-cons c cs,
        append_assoc (escape c) (write_escaped cs) (b'"' ∷ rest),
        scan_string-escape c (write_escaped cs ++ b'"' ∷ rest) line col,
        scan_string-write_escaped cs rest line (col + length (escape c)),
        append_assoc (escape c) (write_escaped cs) (b'"' ∷ []),
      )
      (ap (scanned (escape c ++ (write_escaped cs ++ b'"' ∷ [])) rest line) e)

-- Whether a byte list starts with a quote.
abbrev pub quoted_first : Bytes → Bool
quoted_first s = option_beq (get_elem? s 0) (some b'"')

not_tripled :
    (s rest : Bytes)
    → quoted_first rest ≡ false
    → (quoted_first (write_escaped s ++ b'"' ∷ rest)
        && option_beq (get_elem? (write_escaped s ++ b'"' ∷ rest) 1) (some b'"'))
      ≡ false
not_tripled [] rest h = rw write_escaped-nil h
not_tripled (c ∷ cs) rest h = rw (write_escaped-first (c ∷ cs) (b'"' ∷ rest) (cc)) refl

lex_string-write_escaped :
    (s rest : Bytes) (line col : ℕ)
    → quoted_first rest ≡ false
    → lex_string (record { rest = b'"' ∷ write_escaped s ++ b'"' ∷ rest; line = line; col = col })
      ≡ ok (
        record {
          tag = Tag.string;
          text = b'"' ∷ write_escaped s ++ b'"' ∷ [];
          line = line;
          col = col;
        },
        record { rest = rest; line = line; col = col + 1 + length (write_escaped s) + 1 },
      )
unfolding lex_string
lex_string-write_escaped s rest line col h =
    rw (not_tripled s rest h, scan_string-write_escaped s rest line (col + 1)) refl

abbrev quoted_token : Bytes → ℕ → ℕ → Token
quoted_token s line col = record {
  tag = Tag.string;
  text = b'"' ∷ write_escaped s ++ b'"' ∷ [];
  line = line;
  col = col;
}

-- A quoted text, with no further quote behind it, lexes as one string token that has the quoted text
-- as its spelling; the lexer goes on behind it, and the parser reads the token as the text.
pub next-write_quoted :
    (s rest : Bytes) (line col : ℕ)
    → quoted_first rest ≡ false
    → (next (record { rest = write_quoted s ++ rest; line = line; col = col })
        ≡ ok (
          record { tag = Tag.string; text = write_quoted s; line = line; col = col },
          record { rest = rest; line = line; col = col + length (write_quoted s) },
        ))
      × (unescape_string (write_quoted s) ≡ some s)
unfolding next write_quoted
next-write_quoted s rest line col h =
    let at_end : col + 1 + length (write_escaped s) + 1 ≡ col + length (write_quoted s) =
      omega (arith, length-append (write_escaped s) (b'"' ∷ [])) in
    (
      rw (append_assoc (write_escaped s) (b'"' ∷ []) rest) (
          lex_string-write_escaped s rest line col h
          ∙ ap (λ k. ok (quoted_token s line col, record { rest = rest; line = line; col = k }))
              at_end),
      unescape_string-write_quoted s,
    )
