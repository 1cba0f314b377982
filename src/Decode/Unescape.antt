-- ===== src/Decode/Unescape.antt =====
-- rust/src/de.rs: the pointers of errors, read back as RFC 6901 has it.
use skg.Base.{
  ℕ, zero, suc, ◌+◌, ◌/◌, ◌%◌, Bool, true, false, List, [], ◌∷◌, ◌++◌, map, append-nil,
  append_assoc, Bytes, ltb, ◌==◌, nat_eq, ◌≡◌, refl, sym, ap, ◌∙◌, arith, Bool-cases, inl, inr,
  if◌then◌else◌,
}
use skg.Emit.{digits}
use skg.Decode.Pointer.{Segment, key, index, escape_char, escape_key, index_text, render_path}

abbrev plain : ℕ → Bytes × List Bytes → Bytes × List Bytes
plain c (token, more) = if c == b'/' then ([], token ∷ more) else (c ∷ token, more)

abbrev escaped : ℕ → Bytes × List Bytes → Bytes × List Bytes
escaped c (token, more) = ((if c == b'0' then b'~' else b'/') ∷ token, more)

-- The text before the first slash, and the tokens behind each slash; whether a tilde stands before.
tokens : Bool → Bytes → Bytes × List Bytes
tokens tilde [] = ([], [])
tokens true (c ∷ cs) = escaped c (tokens false cs)
tokens false (c ∷ cs) =
    let behind_tilde = tokens true cs in
    let rest = plain c (tokens false cs) in if c == b'~' then behind_tilde else rest

-- The tokens of a JSON Pointer.
unfoldable pub read_pointer : Bytes → List Bytes
unfolding tokens
read_pointer pointer = (tokens false pointer).1

-- What a segment names: a key, or the decimal text of an index.
unfoldable pub segment_text : Segment → Bytes
unfolding index_text
segment_text (key k) = k
segment_text (index i) = index_text i

abbrev onto : Bytes → Bytes × List Bytes → Bytes × List Bytes
onto text (token, more) = (text ++ token, more)

tokens-escape_char :
    (c : ℕ) (rest : Bytes)
    → tokens false (escape_char c ++ rest) ≡ onto (c ∷ []) (tokens false rest)
unfolding tokens escape_char
tokens-escape_char c rest = elim (Bool-cases (c == b'~')) [
  | inl tilde ↦ ground (arith, tilde)
  | inr other ↦ rw other (elim (Bool-cases (c == b'/')) [
    | inl slash ↦ rw slash (ground (arith, slash))
    | inr letter ↦ rw (letter, other, letter) refl
  ])
]

tokens-escape_key :
    (k rest : Bytes) → tokens false (escape_key k ++ rest) ≡ onto k (tokens false rest)
unfolding escape_key
tokens-escape_key [] rest = refl
tokens-escape_key (c ∷ cs) rest =
    ap (tokens false) (append_assoc (escape_char c) (escape_key cs) rest)
    ∙ tokens-escape_char c (escape_key cs ++ rest)
    ∙ ap (onto (c ∷ [])) (tokens-escape_key cs rest)

escape_key-append : (a b : Bytes) → escape_key (a ++ b) ≡ escape_key a ++ escape_key b
unfolding escape_key
escape_key-append [] b = refl
escape_key-append (c ∷ a) b =
    ap (λ t. escape_char c ++ t) (escape_key-append a b)
    ∙ sym (append_assoc (escape_char c) (escape_key a) (escape_key b))

escape_char-digit : (n : ℕ) → escape_char (b'0' + n % 10) ≡ (b'0' + n % 10) ∷ []
unfolding escape_char
escape_char-digit n = ground arith

escape_key-digit : (n : ℕ) → escape_key ((b'0' + n % 10) ∷ []) ≡ (b'0' + n % 10) ∷ []
unfolding escape_key
escape_key-digit n = ap (λ t. t ++ []) (escape_char-digit n)

escape_key-digits : (f n : ℕ) → escape_key (digits f n) ≡ digits f n
unfolding digits escape_key
escape_key-digits zero n = refl
escape_key-digits (suc f) n =
    escape_key-append (if ltb n 10 then [] else digits f (n / 10)) ((b'0' + n % 10) ∷ [])
    ∙ elim (Bool-cases (ltb n 10)) [
      | inl one ↦ rw one (escape_key-digit n)
      | inr more ↦ rw (more, escape_key-digits f (n / 10), escape_key-digit n) refl
    ]

tokens-render_path :
    (segments : List Segment)
    → tokens false (render_path segments) ≡ ([], map segment_text segments)
unfolding render_path tokens segment_text
tokens-render_path [] = refl
tokens-render_path (key k ∷ segments) = ap (plain b'/') (
    tokens-escape_key k (render_path segments)
    ∙ ap (onto k) (tokens-render_path segments)
    ∙ ap (λ t. (t, map segment_text segments)) (append-nil k))
tokens-render_path (index i ∷ segments) =
    ap (λ t. plain b'/' (tokens false (t ++ render_path segments)))
      (sym (escape_key-digits (suc i) i))
    ∙ ap (plain b'/') (
        tokens-escape_key (index_text i) (render_path segments)
        ∙ ap (onto (index_text i)) (tokens-render_path segments)
        ∙ ap (λ t. (t, map segment_text segments)) (append-nil (index_text i)))

-- A rendered path reads back as its keys and the decimal texts of its indices, whatever characters the
-- keys have.
pub read_pointer-render_path :
    (segments : List Segment) → read_pointer (render_path segments) ≡ map segment_text segments
unfolding read_pointer
read_pointer-render_path segments = ap (λ (t, more). more) (tokens-render_path segments)
