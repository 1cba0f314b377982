-- ===== src/Lexer/Tests.antt =====
-- Runs of the lexer.
use skg.Base.{ℕ, zero, suc, List, [], ◌∷◌, Bytes, codes, ◌≡◌, refl}
use skg.Error.Codes.{ErrorCode, invalid_escape, invalid_float, invalid_int}
use skg.Result.{Result, ok, err}
use skg.Lexer.{next}
use skg.Lexer.Scan.{Token, Tag, Lexer, new_lexer}
use skg.Lexer.Tokens.{NextReads, next-NextReads}

-- The tags, texts and columns of the first `n` tokens.
shown : ℕ → Lexer → List (Tag × Bytes × ℕ)
shown zero l = []
shown (suc n) l = elim (next l) [ ok (t, after) ↦ (t.tag, t.text, t.col) ∷ shown n after | _ ↦ [] ]

tokens_of_line :
    shown 9 (new_lexer (codes "port: -80 # c\r\n @a \"x\\ny\" 1.50"))
    ≡ (Tag.ident, codes "port", 1)
      ∷ (Tag.colon, codes ":", 5)
      ∷ (Tag.int, codes "-80", 7)
      ∷ (Tag.comment, codes "# c", 11)
      ∷ (Tag.at, codes "@", 2)
      ∷ (Tag.ident, codes "a", 3)
      ∷ (Tag.string, codes "\"x\\ny\"", 5)
      ∷ (Tag.float, codes "1.50", 12)
      ∷ (Tag.eof, [], 16)
      ∷ []
unfolding shown next
tokens_of_line = refl

abbrev refusal : ErrorCode → ℕ → ℕ → Result (Token × Lexer)
refusal code line col = err (record { code = code; path = []; line = line; col = col })

refused :
    (next (new_lexer (codes " \"a\\q\"")) ≡ refusal invalid_escape 1 4)
    × (next (new_lexer (codes "\n007")) ≡ refusal invalid_int 2 1)
    × (next (new_lexer (codes "5.")) ≡ refusal invalid_float 1 1)
    × (next (new_lexer (codes "1e5")) ≡ refusal invalid_float 1 1)
unfolding next
refused = (refl, refl, refl, refl)

abbrev key_line : Lexer
key_line = new_lexer (codes " \n  port: 80")

abbrev behind_key : Lexer
behind_key = record { rest = codes ": 80"; line = 2; col = 7 }

abbrev key_token : Token
key_token = record { tag = Tag.ident; text = codes "port"; line = 2; col = 3 }

next_of_key_line : next key_line ≡ ok (key_token, behind_key)
unfolding next
next_of_key_line = refl

next-NextReads_example : NextReads key_line key_token behind_key
next-NextReads_example = next-NextReads key_line behind_key key_token next_of_key_line
