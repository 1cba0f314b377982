-- ===== src/Parser/Utf8.antt =====
-- rust/src/parser.rs: `first_invalid_utf8`, against UTF-8 as RFC 3629 defines it.
use skg.Base.{
  ℕ, zero, suc, ◌+◌, ◌-◌, ◌*◌, ◌<◌, ◌≤◌, true, false, not, none, some, [], ◌∷◌, ◌++◌, Bytes, ◌==◌,
  nat_eq, if◌then◌else◌, length, length-append, take, drop, ltb, ◌≡◌, ◌↔◌, ◌⊎◌, refl, sym, ap, ◌∙◌,
  subst, arith, Option-cases, Bool-cases, inl, inr,
}
use skg.Parser.Text.{utf8_width, is_utf8_char, scan_utf8, first_invalid_utf8}

-- Six bits of a scalar value.
abbrev IsTail : ℕ → Type 0
IsTail b = (0x80 ≤ b) × (b < 0xC0)

-- The bytes of a Unicode scalar value: no more of them than it needs, and no surrogate.
pub data IsUtf8Char : Bytes → ℕ → Type 0 where
  one : {a : ℕ} → a < 0x80 → IsUtf8Char (a ∷ []) a
  two :
      {a b n : ℕ}
      → 0xC0 ≤ a
      → IsTail b
      → n ≡ (a - 0xC0) * 0x40 + (b - 0x80)
      → 0x80 ≤ n
      → n < 0x800
      → IsUtf8Char (a ∷ b ∷ []) n
  three :
      {a b c n : ℕ}
      → 0xE0 ≤ a
      → IsTail b
      → IsTail c
      → n ≡ (a - 0xE0) * 0x1000 + (b - 0x80) * 0x40 + (c - 0x80)
      → 0x800 ≤ n
      → n < 0x10000
      → (n < 0xD800) ⊎ (0xE000 ≤ n)
      → IsUtf8Char (a ∷ b ∷ c ∷ []) n
  four :
      {a b c d n : ℕ}
      → 0xF0 ≤ a
      → IsTail b
      → IsTail c
      → IsTail d
      → n ≡ (a - 0xF0) * 0x40000 + (b - 0x80) * 0x1000 + (c - 0x80) * 0x40 + (d - 0x80)
      → 0x10000 ≤ n
      → n < 0x110000
      → IsUtf8Char (a ∷ b ∷ c ∷ d ∷ []) n

-- Scalar values, one behind the other.
pub data IsUtf8 : Bytes → Type 0 where
  nothing : IsUtf8 []
  char : {t rest : Bytes} {n : ℕ} → IsUtf8Char t n → IsUtf8 rest → IsUtf8 (t ++ rest)

char_of_two :
    (a b : ℕ)
    → is_utf8_char (a ∷ b ∷ []) ≡ true
    → IsUtf8Char (a ∷ b ∷ []) ((a - 0xC0) * 0x40 + (b - 0x80))
unfolding is_utf8_char
char_of_two a b h =
    let ha : (0xC2 ≤ a) × (a ≤ 0xDF) = ground arith in
    let hb : IsTail b = ground arith in
    two (omega (arith, ha)) hb refl (omega (arith, ha, hb)) (omega (arith, ha, hb))

char_of_three :
    (a b c : ℕ)
    → is_utf8_char (a ∷ b ∷ c ∷ []) ≡ true
    → IsUtf8Char (a ∷ b ∷ c ∷ []) ((a - 0xE0) * 0x1000 + (b - 0x80) * 0x40 + (c - 0x80))
unfolding is_utf8_char
char_of_three a b c h =
    let ha : (0xE0 ≤ a) × (a ≤ 0xEF) = ground arith in
    let hb : IsTail b = ground arith in
    let hc : IsTail c = ground arith in
    let long : (0xE1 ≤ a) ⊎ (0xA0 ≤ b) = ground arith in
    let plain : (0xEE ≤ a) ⊎ ((a < 0xED) ⊎ (b < 0xA0)) = ground arith in
    three ha.0 hb hc refl (ground (arith, ha, hb, hc, long)) (omega (arith, ha, hb, hc))
      (ground (arith, ha, hb, hc, plain))

char_of_four :
    (a b c d : ℕ)
    → is_utf8_char (a ∷ b ∷ c ∷ d ∷ []) ≡ true
    → IsUtf8Char
        (a ∷ b ∷ c ∷ d ∷ [])
        ((a - 0xF0) * 0x40000 + (b - 0x80) * 0x1000 + (c - 0x80) * 0x40 + (d - 0x80))
unfolding is_utf8_char
char_of_four a b c d h =
    let ha : (0xF0 ≤ a) × (a ≤ 0xF4) = ground arith in
    let hb : IsTail b = ground arith in
    let hc : IsTail c = ground arith in
    let hd : IsTail d = ground arith in
    let long : (0xF1 ≤ a) ⊎ (0x90 ≤ b) = ground arith in
    let low : (a < 0xF4) ⊎ (b < 0x90) = ground arith in
    four ha.0 hb hc hd refl (ground (arith, ha, hb, hc, hd, long))
      (ground (arith, ha, hb, hc, hd, low))

-- What `from_utf8` takes for one character is the bytes of a scalar value.
char_of : (t : Bytes) → is_utf8_char t ≡ true → (n : ℕ) × IsUtf8Char t n
unfolding is_utf8_char
char_of [] h = cc
char_of (a ∷ []) h = (a, one (ground arith))
char_of (a ∷ b ∷ []) h = (_, char_of_two a b h)
char_of (a ∷ b ∷ c ∷ []) h = (_, char_of_three a b c h)
char_of (a ∷ b ∷ c ∷ d ∷ []) h = (_, char_of_four a b c d h)
char_of (a ∷ b ∷ c ∷ d ∷ e ∷ t) h = cc

-- And the other way.
IsUtf8Char-is_utf8_char : {t : Bytes} {n : ℕ} → IsUtf8Char t n → is_utf8_char t ≡ true
unfolding is_utf8_char
IsUtf8Char-is_utf8_char (one h) = ground arith
IsUtf8Char-is_utf8_char (two ha hb e low high) = ground (arith, ha, hb, e, low, high)
IsUtf8Char-is_utf8_char (three {a} {b} {c} ha hb hc e low high plain) =
    let top : a ≤ 0xEF = omega (arith, hb, hc, e, high) in
    let long : (a ≡ 0xE0) → 0xA0 ≤ b = λ same. omega (arith, hb, hc, e, low, same) in
    let short : (a ≡ 0xED) → b ≤ 0x9F = λ same. elim plain [
      | inl below ↦ omega (arith, hb, hc, e, below, same)
      | inr above ↦ omega (arith, hb, hc, e, above, same)
    ] in
    ground (arith, ha, top, hb, hc, long, short)
IsUtf8Char-is_utf8_char (four {a} {b} {c} {d} ha hb hc hd e low high) =
    let top : a ≤ 0xF4 = omega (arith, hb, hc, hd, e, high) in
    let long : (a ≡ 0xF0) → 0x90 ≤ b = λ same. omega (arith, hb, hc, hd, e, low, same) in
    let short : (a ≡ 0xF4) → b ≤ 0x8F = λ same. omega (arith, hb, hc, hd, e, high, same) in
    ground (arith, ha, top, hb, hc, hd, long, short)

IsUtf8Char-utf8_width :
    {c n : ℕ} {cs : Bytes} → IsUtf8Char (c ∷ cs) n → utf8_width c ≡ some (suc (length cs))
unfolding utf8_width
IsUtf8Char-utf8_width (one h) = ground arith
IsUtf8Char-utf8_width (two ha hb e low high) = ground (arith, ha, hb, e, low, high)
IsUtf8Char-utf8_width (three ha hb hc e low high plain) = ground (arith, ha, hb, hc, e, low, high)
IsUtf8Char-utf8_width (four ha hb hc hd e low high) = ground (arith, ha, hb, hc, hd, e, low, high)

take-drop : (w : ℕ) (cs : Bytes) → take w cs ++ drop w cs ≡ cs
take-drop zero cs = refl
take-drop (suc w) [] = refl
take-drop (suc w) (c ∷ cs) = ap (c ∷◌) (take-drop w cs)

take_front : (t cs : Bytes) → take (length t) (t ++ cs) ≡ t
take_front [] cs = refl
take_front (c ∷ t) cs = ap (c ∷◌) (take_front t cs)

drop_front : (t cs : Bytes) → drop (length t) (t ++ cs) ≡ cs
drop_front [] cs = refl
drop_front (c ∷ t) cs = drop_front t cs

length-drop : (w : ℕ) (c : ℕ) (cs : Bytes) → 0 < w → length (drop w (c ∷ cs)) ≤ length cs
length-drop zero c cs h = absurd (omega arith)
length-drop (suc zero) c cs h = omega arith
length-drop (suc (suc w)) c [] h = omega arith
length-drop (suc (suc w)) c (d ∷ ds) h =
    let more = length-drop (suc w) d ds (omega arith) in omega arith

utf8_width-positive : (c w : ℕ) → utf8_width c ≡ some w → 0 < w
unfolding utf8_width
utf8_width-positive c w e = ground arith

-- A round of the scan.
scan_utf8_round :
    (f c : ℕ) (cs : Bytes) (line col w : ℕ)
    → utf8_width c ≡ some w
    → scan_utf8 (suc f) (c ∷ cs) line col ≡ (
        if ltb (length (c ∷ cs)) w
        then some (record { line = line; col = col })
        else if not (is_utf8_char (take w (c ∷ cs)))
        then some (record { line = line; col = col })
        else scan_utf8 f
            (drop w (c ∷ cs))
            (if c == b'\n' then line + 1 else line)
            (if c == b'\n' then 1 else col + w))
unfolding scan_utf8 is_utf8_char
scan_utf8_round f c cs line col w e = rw (e, scan_utf8) refl

-- A scan that finds nothing has passed characters.
scan_utf8-IsUtf8 :
    (f : ℕ) (src : Bytes) (line col : ℕ)
    → length src ≤ f
    → scan_utf8 f src line col ≡ none
    → IsUtf8 src
unfolding scan_utf8
scan_utf8-IsUtf8 f [] line col hf e = nothing
scan_utf8-IsUtf8 zero (c ∷ cs) line col hf e = absurd (omega arith)
scan_utf8-IsUtf8 (suc f) (c ∷ cs) line col hf e = elim (Option-cases (utf8_width c)) [
  | inl bad ↦ absurd (let found = rw (bad, scan_utf8) at e in cc)
  | inr (w, is_width) ↦
      let round = sym (scan_utf8_round f c cs line col w is_width) ∙ e in
      elim (Bool-cases (ltb (length (c ∷ cs)) w)) [
        | inl short ↦ absurd (let found = rw short at round in cc)
        | inr whole ↦ elim (Bool-cases (is_utf8_char (take w (c ∷ cs)))) [
          | inr bad ↦ absurd (let found = rw (whole, bad) at round in cc)
          | inl good ↦
              let (n, is_char) = char_of (take w (c ∷ cs)) good in
              let left = length-drop w c cs (utf8_width-positive c w is_width) in
              subst IsUtf8 (take-drop w (c ∷ cs)) (
                char is_char (
                  scan_utf8-IsUtf8 f (drop w (c ∷ cs)) _ _ (omega (arith, left))
                    (rw (whole, good) at round)))
        ]
      ]
]

-- A round passes a character.
scan_utf8-IsUtf8Char :
    (f line col : ℕ) (t rest : Bytes) (n : ℕ)
    → length (t ++ rest) ≤ f
    → IsUtf8Char t n
    → ((g line₁ col₁ : ℕ) → length rest ≤ g → scan_utf8 g rest line₁ col₁ ≡ none)
    → scan_utf8 f (t ++ rest) line col ≡ none
unfolding is_utf8_char
scan_utf8-IsUtf8Char f line col [] rest n hf h more =
    absurd (let good = IsUtf8Char-is_utf8_char h in cc)
scan_utf8-IsUtf8Char zero line col (c ∷ t) rest n hf h more = absurd (omega (arith, hf))
scan_utf8-IsUtf8Char (suc f) line col (c ∷ t) rest n hf h more =
    let both = length-append t rest in
    let whole : ltb (length (c ∷ t ++ rest)) (suc (length t)) ≡ false = ground arith in
    let good : is_utf8_char (take (suc (length t)) (c ∷ t ++ rest)) ≡ true =
      ap is_utf8_char (take_front (c ∷ t) rest) ∙ IsUtf8Char-is_utf8_char h in
    scan_utf8_round f c (t ++ rest) line col (suc (length t)) (IsUtf8Char-utf8_width h)
    ∙ rw (whole, good, drop_front t rest) (more f _ _ (omega (arith, hf, both)))

-- The scan finds nothing in characters.
IsUtf8-scan_utf8 :
    {src : Bytes} (f line col : ℕ) → IsUtf8 src → length src ≤ f → scan_utf8 f src line col ≡ none
unfolding scan_utf8
IsUtf8-scan_utf8 zero line col nothing hf = refl
IsUtf8-scan_utf8 (suc f) line col nothing hf = refl
IsUtf8-scan_utf8 f line col (char {t} {rest} {n} h more) hf =
    scan_utf8-IsUtf8Char f line col t rest n hf h
      λ g line₁ col₁ hg. IsUtf8-scan_utf8 g line₁ col₁ more hg

-- The check of UTF-8 finds nothing exactly in a source that is a sequence of Unicode scalar values, each
-- in as few bytes as it needs, none a surrogate and none above U+10FFFF.
pub first_invalid_utf8_iff : (src : Bytes) → (first_invalid_utf8 src ≡ none) ↔ IsUtf8 src
unfolding first_invalid_utf8
first_invalid_utf8_iff src = (
  scan_utf8-IsUtf8 (length src) src 1 1 (omega arith),
  λ h. IsUtf8-scan_utf8 (length src) 1 1 h (omega arith),
)
