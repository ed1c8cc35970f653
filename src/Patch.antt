-- ===== src/Patch.antt =====
-- The apply_patch tool's documents (internal/envtools/tools/apply_patch_core.go): grammar markers,
-- parsed operations, and the errors that parser and applier report. Text is a list of code points,
-- so a document is taken to be valid UTF-8. An error keeps the values that its message prints.
pub mod Marker
pub mod Parse
pub mod Apply
mod Tests
use cli_server.Common.{ℕ, List}
use cli_server.Common.Text.{Text}

pub data FileOpKind : Type 0 where
  op_add op_update op_delete op_move : FileOpKind

pub data HunkLineKind : Type 0 where
  hunk_context hunk_add hunk_remove : HunkLineKind

pub record HunkLine : Type 0 where
  pub kind : HunkLineKind
  pub text : Text

pub record PatchHunk : Type 0 where
  pub context : Text
  pub lines : List HunkLine

pub record FileOp : Type 0 where
  pub kind : FileOpKind
  pub path : Text
  pub new_path : Text
  pub content : Text
  pub hunks : List PatchHunk

-- Each number is the line that the message names.
pub data ParseError : Type 0 where
  empty_patch : ParseError
  missing_header missing_footer : ℕ → ParseError
  delete_requires_path add_requires_path update_requires_path move_requires_path : ℕ → ParseError
  update_is_empty add_has_no_lines : ℕ → Text → ParseError
  unknown_header expected_context unexpected_line : ℕ → Text → ParseError
  no_body_lines : ℕ → ParseError
  -- no message of the program: the bound on the rounds of a loop was too low
  out_of_fuel : ParseError
