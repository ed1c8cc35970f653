-- ===== src/Patch/Tests.antt =====
-- Runs of the parser on small documents.
use cli_server.Common.{◌≡◌, refl, ok, [], ◌∷◌, ◌++◌, List}
use cli_server.Common.Text.{codes, Text, trim_space, text_beq, has_prefix, trim_cr, trim_prefix}
use cli_server.Patch.{op_add, op_move, op_delete, hunk_add, hunk_remove, hunk_context}
use cli_server.Patch.Parse.{
  parse_patch, split_lines, parse_lines, find_patch_boundaries, parse_ops, parse_op, parse_add_file,
  parse_delete_file, parse_update_file, update_hunks, parse_update_chunk, finish_chunk, chunk_body,
  add_lines, move_path, chunk_header, find_begin, find_end, body_line,
}

abbrev text : List Text → Text
text [] = []
text (l ∷ ls) = l ++ b'\n' ∷ text ls

abbrev document : Text
document = text (
    codes "  *** Begin Patch"
    ∷ codes "*** Add File: a.txt"
    ∷ codes "+one"
    ∷ codes "+"
    ∷ []
    ∷ codes "*** Update File:  b.txt"
    ∷ codes "*** Move to: c.txt"
    ∷ codes "@@ def f():"
    ∷ codes " keep"
    ∷ codes "-old"
    ∷ codes "+new"
    ∷ codes "*** End of File"
    ∷ codes "*** Delete File: d"
    ∷ codes "*** End Patch"
    ∷ [])

document-parse :
    parse_patch document
    ≡ ok (
        record {
          kind = op_add;
          path = codes "a.txt";
          new_path = [];
          content = text (codes "one" ∷ [] ∷ []);
          hunks = [];
        }
        ∷ record {
          kind = op_move;
          path = codes "b.txt";
          new_path = codes "c.txt";
          content = [];
          hunks =
              record {
                context = codes "def f():";
                lines =
                    record { kind = hunk_context; text = codes "keep" }
                    ∷ record { kind = hunk_remove; text = codes "old" }
                    ∷ record { kind = hunk_add; text = codes "new" }
                    ∷ [];
              }
              ∷ [];
        }
        ∷ record { kind = op_delete; path = codes "d"; new_path = []; content = []; hunks = [] }
        ∷ [])
unfolding parse_patch split_lines parse_lines find_patch_boundaries parse_ops parse_op
    parse_add_file parse_delete_file parse_update_file update_hunks parse_update_chunk finish_chunk
    chunk_body add_lines move_path chunk_header find_begin find_end body_line trim_space text_beq
    has_prefix trim_cr trim_prefix
document-parse = refl
