-- ===== src/Lexer/Cursor.antt =====
-- rust/src/lexer.rs: the cursor, and the line and column of the bytes that it passed.
use skg.Base.{
  ℕ, ◌+◌, Bool, true, false, [], ◌∷◌, ◌++◌, Bytes, ◌≡◌, refl, sym, ap, ◌∙◌, inl, inr, append_assoc,
  arith, ◌==◌, nat_eq, if◌then◌else◌, Bool-cases,
}
use skg.Error.{Position}
use skg.Result.{Result, Ensures, holds, failed, Ensures-bind, Ensures-if}
use skg.Lexer.Text.{scan_string, is_escape, push_text}
use skg.Lexer.Scan.{Lexer, position, advance_past, scan}

-- The position behind the bytes `text` that start at a position.
unfoldable pub locate : Bytes → Position → Position
locate [] start = start
locate (c ∷ cs) start = locate cs (record {
  line = (if c == b'\n' then start.line + 1 else start.line);
  col = (if c == b'\n' then 1 else start.col + 1);
})

-- The lexer `m` stands behind `text` from where `l` stands.
pub record Moves (l : Lexer) (text : Bytes) (m : Lexer) : Type 0 where
  pub splits : l.rest ≡ text ++ m.rest
  pub located : position m ≡ locate text (position l)

pub Moves-nil : (l : Lexer) → Moves l [] l
unfolding locate
Moves-nil l = record { splits = refl; located = refl }

locate-append : (a b : Bytes) (start : Position) → locate (a ++ b) start ≡ locate b (locate a start)
unfolding locate
locate-append [] b start = refl
locate-append (c ∷ a) b start = locate-append a b _

pub Moves-append : {l m n : Lexer} {a b : Bytes} → Moves l a m → Moves m b n → Moves l (a ++ b) n
Moves-append {l} {m} {n} {a} {b} p q = record {
  splits = p.splits ∙ ap (◌++◌ a) q.splits ∙ sym (append_assoc a b n.rest);
  located = q.located ∙ ap (locate b) p.located ∙ sym (locate-append a b (position l));
}

abbrev pub lexer_at : Bytes → ℕ → ℕ → Lexer
lexer_at rest line col = record { rest = rest; line = line; col = col }

pub advance_past-Moves :
    (c : ℕ) (cs : Bytes) (line col : ℕ)
    → Moves (lexer_at (c ∷ cs) line col) (c ∷ []) (advance_past c cs line col)
unfolding locate
advance_past-Moves c cs line col = record { splits = refl; located = refl }

pub scan-Moves :
    (test : ℕ → Bool) (cs : Bytes) (line col : ℕ)
    → Moves (lexer_at cs line col) (scan test cs line col).0 (scan test cs line col).1
unfolding scan
scan-Moves test [] line col = Moves-nil _
scan-Moves test (c ∷ cs) line col =
    let next = advance_past c cs line col in
    let more = scan-Moves test cs next.line next.col in
    elim (Bool-cases (test c)) [
      | inl e ↦ rw e (Moves-append (advance_past-Moves c cs line col) more)
      | inr e ↦ rw e (Moves-nil _)
    ]

-- What a scan gives is passed over.
abbrev pub Passes : Lexer → Bytes × Lexer → Type 0
Passes l (text, m) = Moves l text m

pub push_text-Passes :
    (l m : Lexer) (text : Bytes) (r : Result (Bytes × Lexer))
    → Moves l text m
    → Ensures (Passes m) r
    → Ensures (Passes l) (push_text text r)
push_text-Passes l m text r h hr = Ensures-bind hr λ a p. holds (Moves-append h p)

escape-Moves :
    (c e : ℕ) (cs : Bytes) (line col : ℕ)
    → (c == b'\\') ≡ true
    → is_escape e ≡ true
    → Moves (lexer_at (c ∷ e ∷ cs) line col) (c ∷ e ∷ []) (lexer_at cs line (col + 2))
unfolding locate is_escape
escape-Moves c e cs line col hc he = record { splits = refl; located = ground arith }

plain-Moves :
    (c : ℕ) (cs : Bytes) (line col : ℕ)
    → (c == b'\n') ≡ false
    → Moves (lexer_at (c ∷ cs) line col) (c ∷ []) (lexer_at cs line (col + 1))
unfolding locate
plain-Moves c cs line col h = record { splits = refl; located = ground arith }

pub scan_string-Passes :
    (cs : Bytes) (line col : ℕ) → Ensures (Passes (lexer_at cs line col)) (scan_string cs line col)
unfolding scan_string
scan_string-Passes [] line col = failed _
scan_string-Passes (c ∷ []) line col =
    Ensures-if (c == b'\\') (λ _. failed _)
      λ _.
        Ensures-if (c == b'"') (λ _. holds (advance_past-Moves c [] line col))
          λ _. Ensures-if (c == b'\n') (λ _. failed _) λ _. failed _
scan_string-Passes (c ∷ e ∷ cs) line col =
    Ensures-if (c == b'\\')
      (λ slash.
        Ensures-if (is_escape e)
          (λ known.
            push_text-Passes _ _ _ _ (escape-Moves c e cs line col slash known)
              (scan_string-Passes cs line (col + 2)))
          (λ _. failed _))
      λ _.
        Ensures-if (c == b'"') (λ _. holds (advance_past-Moves c (e ∷ cs) line col))
          λ _.
            Ensures-if (c == b'\n') (λ _. failed _)
              λ line_end.
                push_text-Passes _ _ _ _ (plain-Moves c (e ∷ cs) line col line_end)
                  (scan_string-Passes (e ∷ cs) line (col + 1))
