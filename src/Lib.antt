-- ===== src/Lib.antt =====
-- The Rust implementation of SKG: the model of its document composition, its lexer, its parser, its
-- import resolver, its decoder, its encoder and its emitter, with what is proved of them.
--
-- SKG is a configuration language. A source is lexed (rust/src/lexer.rs) and parsed
-- (rust/src/parser.rs) into a document (rust/src/model.rs) whose nodes form an overlay. Overlays
-- are composed and then materialized into final data (rust/src/merge.rs): the parser composes the
-- nodes of each block and of the file by `merge_nodes`, and the resolver (rust/src/resolve.rs),
-- which reads and parses a file and the files it imports, composes their documents by
-- `merge_nodes_budget`. A document is written back as canonical text by rust/src/emit.rs, and
-- decoded into native types by rust/src/de.rs, over its materialized nodes; native values are
-- encoded as documents by rust/src/ser.rs. Failures are diagnostics with a code, a path and a
-- position (rust/src/error.rs).
--
-- Base: the library's names that the development uses, Boolean tests, equality as an interface,
--   lists and byte strings. A Rust string is the list of its UTF-8 bytes.
-- Error, Error/Codes, Error/Native (rust/src/error.rs): Position, Diagnostic, ResolveError,
--   ErrorCode with `as_str` and `all` (registry), NativeCode, SourceLocation and DecodeError. The
--   message of a diagnostic is left out; Error/Display has what `Display` writes, with the message
--   as an argument.
-- Model (rust/src/model.rs): Value, Node and Document. The four node structs share the record Head.
--   An i64 is the type of integers, an f64 its bit pattern.
-- Merge (rust/src/merge.rs): `merge_nodes_budget` as the code composes it, with the vector and the
--   key index as Slots and the budget as an optional number; `merge_overlay`, `merge_nodes`,
--   `concat_comments`, `materialize_nodes` and `materialize_value`. The abstract composition is
--   `join_all` in Merge/Overlay; the other children hold the proofs.
-- Result: results of the code, with a case for fuel that ran out, which also stands for a panic,
--   and what a result ensures.
-- Lexer, Lexer/Scan, Lexer/Text (rust/src/lexer.rs): the lexer's state is the bytes still to read,
--   with line and column; the functions have the source's names, and its loops are recursion on the
--   bytes.
-- Parser/Text (the functions of rust/src/parser.rs without a parser), Parser/State (the struct
--   Parser, `peek`, `consume`, comments, `expect`, `enter` and `leave`), Parser/Keys, Parser/Arrays
--   and Parser/Grammar (keys, nodes, values, arrays, objects, operations), Parser/File (directives,
--   imports, `parse_file`, `parse_bytes`). Parser/Weight and Parser/Progress say what reading a
--   token does to the bytes left and to the depth; Parser/Sound, Parser/Steps, Parser/Inside,
--   Parser/Descent and Parser/Whole carry this to the whole parse; Parser/Imports is about the
--   import directive, and Parser/Utf8 about the check of UTF-8, against UTF-8 as RFC 3629 defines
--   it.
-- Resolve (rust/src/resolve.rs): in Resolve/Options the limits, the options and the struct
--   Resolver; its `load` is cut at the guards into the functions that it passes through, in
--   Resolve/Guards the cache, the chain, the budgets, reading and parsing, and in Resolve the
--   imports, `load` itself, `resolve_with` and `resolve`. Resolve/Path is std::path on Unix, on
--   which the source stands, and Resolve/Files the trait Loader with FsLoader and MemoryLoader.
--   Resolve/Meaning is the abstract view, an import graph without cache, chain and budgets;
--   Resolve/State and Resolve/Kept have the invariant of the resolver and its steps, and
--   Resolve/Loads, Resolve/Graph, Resolve/Contained and Resolve/Circular what follows of the whole.
--   Resolve/Layered describes the graphs that resolve, with what they cost, and Resolve/Spending,
--   Resolve/Ready, Resolve/Composed and Resolve/Complete follow `load` through them.
-- Decode (rust/src/de.rs): Decode/Pointer has the JSON Pointers of errors, Decode/Value the values,
--   the errors and the struct ValueDeserializer, Decode/Numbers the tests of numbers, Decode/Access
--   what a visitor reads arrays, objects and enums with, Decode/Visitor, Decode/Scalars and
--   Decode/Visit the methods of serde's Deserializer and Decode/Entry the entry points.
--   Decode/Collect is a self-describing target type, a client of the decoder; Decode/Exact,
--   Decode/Ranges, Decode/Unescape, Decode/Depth, Decode/Missing and Decode/Whole hold proofs.
-- Encode (rust/src/ser.rs): the struct Serializer and its functions, in Encode/Methods the methods
--   of serde's Serializer; a native value is a function on the serializer. A call that fails leaves
--   its error and the serializer as the source leaves it, so that a client can go on. Encode/Client
--   is a client, the self-describing type of Decode/Collect; Encode/Whole and Encode/RoundTrip hold
--   its proofs, Encode/Steps and Encode/Balance those of any calls.
-- Format (rust/src/lib.rs): `parse`, `parse_source` and `format`.
-- Emit (rust/src/emit.rs): what each function pushes onto its buffer.
-- Lexer/Spell says which token the lexer reads from a spelling. RoundTrip has what of a document
--   its text holds and which documents have a text: without header and comments, with the values
--   that the grammar has. RoundTrip/Texts, RoundTrip/Scalars and RoundTrip/Layout are about what is
--   written, RoundTrip/Stream, RoundTrip/Keys, RoundTrip/Steps, RoundTrip/Heads, RoundTrip/Rounds
--   and RoundTrip/Bodies about how it is read; RoundTrip/Descent and RoundTrip/Whole carry this to
--   documents, RoundTrip/Typed and RoundTrip/Encoded to encoded data and RoundTrip/Formatted to
--   `format`.
--
-- Bounds and fuel. The recursive descent takes a unit of fuel for a call that goes down and for a
-- round of a loop; `parse_bytes` gives it four units for each byte and four more, since at most
-- four such calls stand between two bytes that are read. `first_invalid_utf8` has the source's
-- length as fuel, and a round passes a byte at least. The decimal digits of a number n take n + 1
-- units, and it has no more than that many digits. The resolver's `load` takes a unit for each file
-- on the chain, which has at most 33, and has 34. The self-describing type is decoded with 256
-- units, one for each level of a value, as the decoder goes no deeper. Lines, columns, depths and
-- the budget are plain numbers: a source is at most 10 MiB, so the u32 and usize counters cannot
-- overflow. The resolver's counters stay within its limits, so they cannot either. The encoder's
-- depth exceeds 128 by a level for each opening that is refused and passed over, and is taken to
-- stay below the top of usize. The decimal parsing of i64 and u64 keeps its bounds.
--
-- Parameters. A float is its bit pattern, a number below 2 ^ 64. The parsing and the printing of
-- f64 are `parse_f64` and `show_f64`. Where a theorem needs what std says of them, it takes
-- `ShowsFloats` of RoundTrip: a finite pattern is shown without an exponent, as an integer or with
-- a point, and is parsed back from the text with the point. The resolver takes any Loader; that of
-- the file system takes std::fs::canonicalize as `real_path` and the bytes of a file as `contents`.
-- The printing of a path by `display` is taken to be its bytes. The decoder takes any serde
-- visitor, as the record Visitor, and the casts between integers and floats as Casts.
--
-- Not modelled: the re-exports of rust/src/lib.rs; the messages of diagnostics and errors; the
-- debug assertion in `leave` of rust/src/ser.rs; the second check by `from_utf8` behind
-- `first_invalid_utf8`, which the source takes for unreachable; the programs under examples; the Go
-- and Zig implementations, which are other programs.
pub mod Base
pub mod Error
pub mod Model
pub mod Merge
pub mod Result
pub mod RoundTrip
pub mod Lexer
pub mod Parser
pub mod Emit
pub mod Resolve
pub mod Decode
pub mod Encode
pub mod Format
