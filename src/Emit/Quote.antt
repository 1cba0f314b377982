-- ===== src/Emit/Quote.antt =====
-- rust/src/emit.rs and rust/src/parser.rs: quoted strings, written and unescaped.
use skg.Base.{
  ℕ, suc, ◌-◌, false, some, [], ◌∷◌, ◌++◌, Bytes, ltb, leb, ◌==◌, nat_eq, bytes_eq, length,
  length-append, option_beq, get_elem?, any, take, slice, ◌≡◌, ◌≢◌, refl, sym, ap, ◌∙◌, arith,
  ==_iff, Bool-cases, inl, inr,
}
use mathlib.Core.Option
use skg.Parser.Text.{escaped_byte, unescape, unescape_inner, unescape_string}
use skg.Emit.{escape, write_escaped, write_quoted}

unescape-cons :
    (c : ℕ) (s : Bytes) → (c == b'\\') ≡ false → unescape (c ∷ s) ≡ Option.map (◌∷◌ c) (unescape s)
unfolding unescape
unescape-cons c [] h = rw h refl
unescape-cons c (e ∷ s) h = rw h refl

unescape-escape : (c : ℕ) (s : Bytes) → unescape (escape c ++ s) ≡ Option.map (◌∷◌ c) (unescape s)
unfolding escape unescape escaped_byte Option.bind
unescape-escape c s = elim (Bool-cases (c == b'"')) [
  | inl h ↦ let e : c ≡ b'"' = (==_iff c b'"').0 h in rw e refl
  | inr h ↦ elim (Bool-cases (c == b'\\')) [
    | inl g ↦ let e : c ≡ b'\\' = (==_iff c b'\\').0 g in rw e refl
    | inr g ↦ elim (Bool-cases (c == b'\n')) [
      | inl k ↦ let e : c ≡ b'\n' = (==_iff c b'\n').0 k in rw e refl
      | inr k ↦ elim (Bool-cases (c == b'\t')) [
        | inl t ↦ let e : c ≡ b'\t' = (==_iff c b'\t').0 t in rw e refl
        | inr t ↦ rw (h, g, k, t) (unescape-cons c s g)
      ]
    ]
  ]
]

pub unescape-write_escaped : (s : Bytes) → unescape (write_escaped s) ≡ some s
unfolding write_escaped unescape
unescape-write_escaped [] = refl
unescape-write_escaped (c ∷ cs) =
    rw (unescape-escape c (write_escaped cs), unescape-write_escaped cs) refl

unescape-plain : (s : Bytes) → any (λ c. c == b'\\') s ≡ false → unescape s ≡ some s
unfolding unescape
unescape-plain [] h = refl
unescape-plain (c ∷ []) h = ground arith
unescape-plain (c ∷ e ∷ cs) h = ground (arith, unescape-plain (e ∷ cs))

pub take-length : (xs ys : Bytes) → take (length xs) (xs ++ ys) ≡ xs
take-length [] ys = refl
take-length (x ∷ xs) ys = ap (◌∷◌ x) (take-length xs ys)

get-last : (xs : Bytes) (q : ℕ) → get_elem? (xs ++ q ∷ []) (length xs) ≡ some q
get-last [] q = refl
get-last (x ∷ xs) q = get-last xs q

inner_of :
    (xs : Bytes) → slice (b'"' ∷ xs ++ b'"' ∷ []) 1 (length (b'"' ∷ xs ++ b'"' ∷ []) - 1) ≡ xs
inner_of xs =
    rw (length-append xs (b'"' ∷ []))
      (ap (λ n. take n (xs ++ b'"' ∷ [])) (omega arith) ∙ take-length xs (b'"' ∷ []))

-- The first byte of an escaped text is no quote.
pub write_escaped-first :
    (s tail : Bytes)
    → s ≢ []
    → option_beq (get_elem? (write_escaped s ++ tail) 0) (some b'"') ≡ false
unfolding write_escaped escape
write_escaped-first [] tail ne = absurd (ne refl)
write_escaped-first (c ∷ cs) tail ne = ground arith

-- The escapes that are written give back the text.
pub unescape_inner-write_escaped : (s : Bytes) → unescape_inner (write_escaped s) ≡ some s
unfolding unescape_inner
unescape_inner-write_escaped s = elim (Bool-cases (any (λ c. c == b'\\') (write_escaped s))) [
  | inl h ↦ rw h (unescape-write_escaped s)
  | inr h ↦ rw h (sym (unescape-plain (write_escaped s) h) ∙ unescape-write_escaped s)
]

last_of :
    (xs : Bytes)
    → get_elem? (b'"' ∷ xs ++ b'"' ∷ []) (length (b'"' ∷ xs ++ b'"' ∷ []) - 1) ≡ some b'"'
last_of xs =
    let e : length (b'"' ∷ xs ++ b'"' ∷ []) - 1 ≡ suc (length xs) =
      omega (arith, length-append xs (b'"' ∷ [])) in
    ap (get_elem? (b'"' ∷ xs ++ b'"' ∷ [])) e ∙ get-last xs b'"'

long_enough : (xs : Bytes) → ltb (length (b'"' ∷ xs ++ b'"' ∷ [])) 2 ≡ false
long_enough xs = rw (length-append xs (b'"' ∷ [])) (ground arith)

unescape_string-framed :
    (xs : Bytes)
    → option_beq (get_elem? (xs ++ b'"' ∷ []) 0) (some b'"') ≡ false
    → unescape_string (b'"' ∷ xs ++ b'"' ∷ []) ≡ unescape_inner xs
unfolding unescape_string
unescape_string-framed xs h =
    rw (long_enough xs, last_of xs, h, inner_of xs)
      (elim (Bool-cases (leb 6 (length (b'"' ∷ xs ++ b'"' ∷ [])))) [
        | inl long ↦ rw long refl
        | inr short ↦ rw short refl
      ])

-- Reading a quoted text as a string literal gives the text.
pub unescape_string-write_quoted : (s : Bytes) → unescape_string (write_quoted s) ≡ some s
unfolding write_quoted write_escaped unescape_string unescape_inner
unescape_string-write_quoted [] = refl
unescape_string-write_quoted (c ∷ cs) =
    unescape_string-framed (write_escaped (c ∷ cs)) (write_escaped-first (c ∷ cs) _ (cc))
    ∙ unescape_inner-write_escaped (c ∷ cs)
