-- ===== src/Llm/FixJson.antt =====
-- internal/llm/fixjson.go: the repair of JSON that a small model has broken.
pub mod Trim
pub mod Passes
pub mod Merge
pub mod Brackets
pub mod Number
pub mod Value
pub mod Walk
pub mod Copies
pub mod Balance
pub mod Quotes
pub mod Edges
pub mod WellFormed
use agent_util.Common.{Text}
use Passes.{
  strip_code_block, fix_null_braces, fix_control_chars, fix_single_quotes, fix_trailing_commas,
  fix_unmatched_brackets,
}
use Merge.{Json, merge_json_objects}

unfoldable pub fix_json : Json → Text → Text
fix_json json s = merge_json_objects json (
    fix_unmatched_brackets (
      fix_trailing_commas
        (fix_single_quotes (fix_control_chars (fix_null_braces (strip_code_block s))))))
