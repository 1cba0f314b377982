-- ===== src/Format.antt =====
-- rust/src/lib.rs: parsing and formatting of a source.
use skg.Base.{ℕ, Option, Bytes, codes}
use skg.Model.{Document}
use skg.Result.{Result, ok, bind}
use skg.Parser.File.{parse_bytes}
use skg.Emit.{emit}

module _ (parse_f64 : Bytes → Option ℕ) where
  -- `parse_source`, and `parse_bytes` on the bytes of a source.
  unfoldable pub parse_source : Bytes → Bytes → Result Document
  unfolding parse_bytes
  parse_source source path = parse_bytes parse_f64 source path

  unfoldable pub parse : Bytes → Result Document
  unfolding parse_source
  parse source = parse_source source (codes "<string>")

  unfoldable pub format : (show_f64 : ℕ → Bytes) → Bytes → Result Bytes
  unfolding parse emit
  format show_f64 source = bind (parse source) λ document. ok (emit show_f64 document)
