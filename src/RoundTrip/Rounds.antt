-- ===== src/RoundTrip/Rounds.antt =====
-- rust/src/parser.rs: the rounds of `parse_array`.
use skg.Base.{Bool, true, false, Option, ◌≡◌, refl, nat_eq}
use skg.Model.{ValueType, Value, Values}
use skg.Result.{ok, Yields, Yields-bind}
use skg.Lexer.Scan.{Tag, Token, tag_eq}
use skg.Parser.State.{Parser, Parse, place_of, consume}
use skg.Parser.Arrays.{
  ArrayState, close, skip_comma, read, array_move, array_step, note_missing, push_item, close_array,
}
use skg.RoundTrip.Steps.{opened}

pub array_move-close :
    (colonless : Bool) (s : ArrayState) → array_move colonless s Tag.r_bracket ≡ close
unfolding array_move
array_move-close colonless s = refl

pub array_move-comma :
    (colonless : Bool) (items : Values) (o : Option ValueType)
    → array_move colonless (opened items o false) Tag.comma ≡ skip_comma
unfolding array_move
array_move-comma colonless items o = refl

module _ {P : Value × Parser → Type 0} (next_value : Parse Value) (loop : ArrayState → Parse Value)
    (s : ArrayState) (t : Token) (p : Parser) where
  pub array_step-close :
      Yields P (close_array s p) → Yields P (array_step next_value loop s t close p)
  unfolding array_step
  array_step-close h = h

  pub array_step-comma :
      {Q : Token × Parser → Type 0}
      → Yields Q (consume p)
      → ((u : Token) (q : Parser) → Q (u, q) → Yields P (loop (record s { need_value = true }) q))
      → Yields P (array_step next_value loop s t skip_comma p)
  unfolding array_step
  array_step-comma h k = Yields-bind h λ (u, q) x. k u q x

  pub array_step-read :
      {Q : Value × Parser → Type 0}
      → Yields Q (next_value p)
      → ((w : Value) (q : Parser)
          → Q (w, q)
          → (after : ArrayState) × (push_item (place_of t) w (note_missing (place_of t) s) q
              ≡ ok (after, q))
            × Yields P (loop after q))
      → Yields P (array_step next_value loop s t read p)
  unfolding array_step
  array_step-read h k =
      Yields-bind h λ (w, q) x. let (after, pushed, more) = k w q x in rw pushed more
