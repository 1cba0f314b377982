-- ===== src/Error/Codes.antt =====
-- rust/src/error.rs: the closed registry of error codes and its spellings.
use skg.Base.{
  ◌≡◌, refl, Bytes, codes, bytes_beq, bytes_eq, ◌==◌, if◌then◌else◌, List, [], ◌∷◌, Option, none,
  some,
}

pub data ErrorCode : Type 0 where
  unexpected_char unterminated_string invalid_escape invalid_utf8 expected_colon : ErrorCode
  expected_rbrace expected_rbracket expected_string expected_ident expected_value : ErrorCode
  expected_comma expected_node_body unexpected_token unterminated_block unterminated_block_array :
      ErrorCode
  unterminated_array mixed_array_types invalid_int invalid_float unknown_overlay_operation :
      ErrorCode
  expected_replacement_block duplicate_skg_version duplicate_schema_version malformed_skg_version
        unsupported_skg_version :
      ErrorCode
  unterminated_import_list expected_import_path absolute_import_path directive_after_body
        nesting_too_deep :
      ErrorCode
  file_too_large circular_import import_not_found import_chain_too_deep path_outside_root :
      ErrorCode
  resolution_byte_limit resolution_file_limit resolution_node_limit resolution_work_limit unknown :
      ErrorCode

-- `ErrorCode::as_str`
unfoldable pub as_str : ErrorCode → Bytes
as_str unexpected_char = codes "UNEXPECTED_CHAR"
as_str unterminated_string = codes "UNTERMINATED_STRING"
as_str invalid_escape = codes "INVALID_ESCAPE"
as_str invalid_utf8 = codes "INVALID_UTF8"
as_str expected_colon = codes "EXPECTED_COLON"
as_str expected_rbrace = codes "EXPECTED_RBRACE"
as_str expected_rbracket = codes "EXPECTED_RBRACKET"
as_str expected_string = codes "EXPECTED_STRING"
as_str expected_ident = codes "EXPECTED_IDENT"
as_str expected_value = codes "EXPECTED_VALUE"
as_str expected_comma = codes "EXPECTED_COMMA"
as_str expected_node_body = codes "EXPECTED_NODE_BODY"
as_str unexpected_token = codes "UNEXPECTED_TOKEN"
as_str unterminated_block = codes "UNTERMINATED_BLOCK"
as_str unterminated_block_array = codes "UNTERMINATED_BLOCK_ARRAY"
as_str unterminated_array = codes "UNTERMINATED_ARRAY"
as_str mixed_array_types = codes "MIXED_ARRAY_TYPES"
as_str invalid_int = codes "INVALID_INT"
as_str invalid_float = codes "INVALID_FLOAT"
as_str unknown_overlay_operation = codes "UNKNOWN_OVERLAY_OPERATION"
as_str expected_replacement_block = codes "EXPECTED_REPLACEMENT_BLOCK"
as_str duplicate_skg_version = codes "DUPLICATE_SKG_VERSION"
as_str duplicate_schema_version = codes "DUPLICATE_SCHEMA_VERSION"
as_str malformed_skg_version = codes "MALFORMED_SKG_VERSION"
as_str unsupported_skg_version = codes "UNSUPPORTED_SKG_VERSION"
as_str unterminated_import_list = codes "UNTERMINATED_IMPORT_LIST"
as_str expected_import_path = codes "EXPECTED_IMPORT_PATH"
as_str absolute_import_path = codes "ABSOLUTE_IMPORT_PATH"
as_str directive_after_body = codes "DIRECTIVE_AFTER_BODY"
as_str nesting_too_deep = codes "NESTING_TOO_DEEP"
as_str file_too_large = codes "FILE_TOO_LARGE"
as_str circular_import = codes "CIRCULAR_IMPORT"
as_str import_not_found = codes "IMPORT_NOT_FOUND"
as_str import_chain_too_deep = codes "IMPORT_CHAIN_TOO_DEEP"
as_str path_outside_root = codes "PATH_OUTSIDE_ROOT"
as_str resolution_byte_limit = codes "RESOLUTION_BYTE_LIMIT"
as_str resolution_file_limit = codes "RESOLUTION_FILE_LIMIT"
as_str resolution_node_limit = codes "RESOLUTION_NODE_LIMIT"
as_str resolution_work_limit = codes "RESOLUTION_WORK_LIMIT"
as_str unknown = codes "UNKNOWN"

-- `ErrorCode::all`
abbrev pub registry : List ErrorCode
registry =
    unexpected_char ∷ unterminated_string ∷ invalid_escape ∷ invalid_utf8 ∷ expected_colon
    ∷ expected_rbrace ∷ expected_rbracket ∷ expected_string ∷ expected_ident ∷ expected_value
    ∷ expected_comma ∷ expected_node_body ∷ unexpected_token ∷ unterminated_block
    ∷ unterminated_block_array ∷ unterminated_array ∷ mixed_array_types ∷ invalid_int
    ∷ invalid_float ∷ unknown_overlay_operation ∷ expected_replacement_block ∷ duplicate_skg_version
    ∷ duplicate_schema_version ∷ malformed_skg_version ∷ unsupported_skg_version
    ∷ unterminated_import_list ∷ expected_import_path ∷ absolute_import_path ∷ directive_after_body
    ∷ nesting_too_deep ∷ file_too_large ∷ circular_import ∷ import_not_found ∷ import_chain_too_deep
    ∷ path_outside_root ∷ resolution_byte_limit ∷ resolution_file_limit ∷ resolution_node_limit
    ∷ resolution_work_limit ∷ unknown ∷ []

-- The first listed code with the spelling `s`.
pub find_code : List ErrorCode → Bytes → Option ErrorCode
unfolding as_str
find_code [] s = none
find_code (c ∷ cs) s = if as_str c == s then some c else find_code cs s

-- Looking a code's spelling up in the list of all codes gives the code back: every code is listed,
-- and no two share a spelling.
pub find_code-as_str : (c : ErrorCode) → find_code registry (as_str c) ≡ some c
unfolding find_code as_str bytes_beq
find_code-as_str unexpected_char = refl
find_code-as_str _ = refl
