-- ===== src/Lexer/Tokens.antt =====
-- rust/src/lexer.rs: tokens and the bytes that they are read from.
use skg.Base.{
  length-append_bytes, ℕ, ◌<◌, Bool, true, ◌||◌, Option, none, some, [], ◌∷◌, ◌++◌, Bytes, codes,
  ◌≡◌, refl, ◌⊎◌, inl, inr, arith, ◌==◌, nat_eq, Bool-cases, length, all, option_beq, get_elem?,
  ==_iff,
}
use skg.Result.{ok, Ensures, holds, failed, Ensures-if, Ensures-ok, Ensures-map}
use skg.Lexer.{
  scan_sign, lex_fraction, lex_integer_end, lex_number, lex_negative_number, punctuation, lex_other,
  lex_byte, lex_token, next, is_empty, some_and,
}
use skg.Lexer.Scan.{
  Tag, Token, Lexer, position, peek, advance_past, advance, scan, scan_while, is_digit,
  is_ident_start, is_ident_char, is_space, token, skip_whitespace,
}
use skg.Lexer.Cursor.{Moves, Moves-nil, Moves-append, advance_past-Moves, scan-Moves, lexer_at}
use skg.Lexer.Strings.{
  Reads, Reads-token, ReadsPair, lex_comment-Reads, lex_ident-Reads, lex_string-Reads, scan-pos,
}

lex_fraction-Reads :
    (l m : Lexer) (text : Bytes) (zeros : Bool)
    → Moves l text m
    → 0 < length text
    → Ensures (ReadsPair l) (lex_fraction (position l) text zeros m)
unfolding lex_fraction
lex_fraction-Reads l m text zeros h pos =
    let (fraction, after) = scan_while is_digit m in
    Ensures-if (is_empty fraction || zeros) (λ _. failed _)
      λ _.
        Ensures-if (some_and (peek after) (λ suffix. is_ident_char suffix || suffix == b'.'))
          (λ _. failed _)
          λ _. holds (
            Reads-token Tag.float l after (text ++ fraction)
              (Moves-append h (scan-Moves is_digit m.rest m.line m.col))
              (omega (arith, length-append_bytes text fraction)))

lex_integer_end-Reads :
    (l m : Lexer) (text : Bytes) (zeros : Bool)
    → Moves l text m
    → 0 < length text
    → Ensures (ReadsPair l) (lex_integer_end (position l) text zeros m)
unfolding lex_integer_end
lex_integer_end-Reads l m text zeros h pos =
    Ensures-if zeros (λ _. failed _)
      λ _.
        Ensures-if (some_and (peek m) is_ident_char) (λ _. failed _)
          λ _. holds (Reads-token Tag.int l m text h pos)

-- A byte that is ahead is passed by one step.
step-Moves :
    (b : ℕ) (cs : Bytes) (line col : ℕ)
    → option_beq (get_elem? cs 0) (some b) ≡ true
    → Moves (lexer_at cs line col) (b ∷ []) (advance (lexer_at cs line col))
step-Moves b [] line col h = cc
step-Moves b (c ∷ cs) line col h =
    let same : c ≡ b = (==_iff c b).0 h in rw same (advance_past-Moves b cs line col)

sign-Moves : (l : Lexer) → Moves l (scan_sign l).0 (scan_sign l).1
unfolding scan_sign
sign-Moves l = elim (Bool-cases (option_beq (peek l) (some b'-'))) [
  | inl e ↦ rw e (step-Moves b'-' l.rest l.line l.col e)
  | inr e ↦ rw e (Moves-nil l)
]

-- A literal that starts with a digit or a minus sign is not empty.
number-pos :
    (c : ℕ) (cs : Bytes) (line col : ℕ)
    → (is_digit c ≡ true) ⊎ ((c == b'-') ≡ true)
    → let (sign, unsigned) = scan_sign (lexer_at (c ∷ cs) line col) in
      0 < length (sign ++ (scan_while is_digit unsigned).0)
unfolding scan_sign
number-pos c cs line col h = elim (Bool-cases (c == b'-')) [
  | inl e ↦ rw e (omega arith)
  | inr e ↦ rw e (elim h [ inl digit ↦ scan-pos is_digit c cs line col digit | inr minus ↦ cc ])
]

lex_number-Reads :
    (c : ℕ) (cs : Bytes) (line col : ℕ)
    → (is_digit c ≡ true) ⊎ ((c == b'-') ≡ true)
    → let l = lexer_at (c ∷ cs) line col in Ensures (ReadsPair l) (lex_number l)
unfolding lex_number
lex_number-Reads c cs line col h =
    let l = lexer_at (c ∷ cs) line col in
    let (sign, unsigned) = scan_sign l in
    let (digits, after) = scan_while is_digit unsigned in
    let read =
      Moves-append (sign-Moves l) (scan-Moves is_digit unsigned.rest unsigned.line unsigned.col) in
    let pos = number-pos c cs line col h in
    Ensures-if (option_beq (peek after) (some b'.'))
      (λ dot.
        lex_fraction-Reads l (advance after) (sign ++ digits ++ codes ".") _
          (Moves-append read (step-Moves b'.' after.rest after.line after.col dot))
          (omega (arith, length-append_bytes (sign ++ digits) (codes "."))))
      (λ _. lex_integer_end-Reads l after (sign ++ digits) _ read pos)

lex_other-Reads :
    (c : ℕ) (cs : Bytes) (line col : ℕ)
    → let l = lexer_at (c ∷ cs) line col in Ensures (ReadsPair l) (lex_other c l)
unfolding lex_other
lex_other-Reads c cs line col =
    Ensures-if (c == b'#') (λ e. rw ((==_iff c b'#').0 e) (lex_comment-Reads cs line col))
      λ _.
        Ensures-if (c == b'"') (λ e. rw ((==_iff c b'"').0 e) (lex_string-Reads cs line col))
          λ _.
            Ensures-if (c == b'-')
              (λ e.
                unfold lex_negative_number in
                Ensures-if (some_and (get_elem? cs 0) is_digit)
                  (λ _. lex_number-Reads c cs line col (inr e)) (λ _. failed _))
              λ _.
                Ensures-if (c == b'.') (λ _. failed _)
                  λ _.
                    Ensures-if (is_digit c) (λ e. lex_number-Reads c cs line col (inl e))
                      λ _.
                        Ensures-if (is_ident_start c) (λ e. lex_ident-Reads c cs line col e)
                          λ _. failed _

punctuation-Reads :
    (o : Option Tag) (c : ℕ) (cs : Bytes) (line col : ℕ)
    → let l = lexer_at (c ∷ cs) line col in
      Ensures (ReadsPair l) (elim o [
        | some tag ↦ ok (token tag (c ∷ []) (position l), advance l)
        | none ↦ lex_other c l
      ])
punctuation-Reads none c cs line col = lex_other-Reads c cs line col
punctuation-Reads (some tag) c cs line col = holds (
    Reads-token tag (lexer_at (c ∷ cs) line col) _ _ (advance_past-Moves c cs line col)
      (omega arith))

lex_byte-Reads :
    (c : ℕ) (cs : Bytes) (line col : ℕ)
    → let l = lexer_at (c ∷ cs) line col in Ensures (ReadsPair l) (lex_byte c l)
unfolding lex_byte
lex_byte-Reads c cs line col =
    Ensures-if (c == b'@')
      (λ e. rw ((==_iff c b'@').0 e) (
        holds (
          Reads-token Tag.at (lexer_at (b'@' ∷ cs) line col) _ _
            (advance_past-Moves b'@' cs line col) (omega arith))))
      (λ _. punctuation-Reads (punctuation c) c cs line col)

lex_token-Reads : (l : Lexer) → Ensures (ReadsPair l) (lex_token l)
unfolding lex_token
lex_token-Reads l = at_rest l.rest l.line l.col
  where
    at_rest :
        (cs : Bytes) (line col : ℕ)
        → Ensures (ReadsPair (lexer_at cs line col)) (lex_token (lexer_at cs line col))
    at_rest [] line col = holds (record {
      consumed = [];
      moves = Moves-nil _;
      placed = refl;
      spelled = inl refl;
      progress = inl (refl, refl);
    })
    at_rest (c ∷ cs) line col = lex_byte-Reads c cs line col

-- What `next` does from `l`: white space, then the token.
pub record NextReads (l : Lexer) (t : Token) (m : Lexer) : Type 0 where
  pub blank : Bytes
  pub start : Lexer
  pub is_blank : all is_space blank ≡ true
  pub skipped : Moves l blank start
  pub reads : Reads start t m

scan-all : (test : ℕ → Bool) (cs : Bytes) (line col : ℕ) → all test (scan test cs line col).0 ≡ true
unfolding scan
scan-all test [] line col = refl
scan-all test (c ∷ cs) line col =
    let next = advance_past c cs line col in
    elim (Bool-cases (test c)) [
      | inl e ↦ rw (e, e) (scan-all test cs next.line next.col)
      | inr e ↦ rw e
    ]

pub next-Reads : (l : Lexer) → Ensures (λ (t, m). NextReads l t m) (next l)
unfolding next
next-Reads l = Ensures-map (lex_token-Reads (skip_whitespace l)) λ (t, m) r. record {
  blank = (scan_while is_space l).0;
  start = skip_whitespace l;
  is_blank = scan-all is_space l.rest l.line l.col;
  skipped = scan-Moves is_space l.rest l.line l.col;
  reads = r;
}

-- A token that `next` gives stands behind white space alone, at its line and column, spelled by the
-- bytes that the lexer passes (a comment may end in a carriage return that its text leaves out), and
-- it is the end of the file or at least one byte long.
pub next-NextReads : (l m : Lexer) (t : Token) → next l ≡ ok (t, m) → NextReads l t m
next-NextReads l m t e = Ensures-ok (next-Reads l) e
