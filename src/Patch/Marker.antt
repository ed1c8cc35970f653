-- ===== src/Patch/Marker.antt =====
-- The markers of the patch grammar (internal/envtools/tools/apply_patch_core.go).
use cli_server.Common.Text.{Text, codes}

abbrev pub begin_patch : Text
begin_patch = codes "*** Begin Patch"

abbrev pub end_patch : Text
end_patch = codes "*** End Patch"

abbrev pub add_file : Text
add_file = codes "*** Add File: "

abbrev pub delete_file : Text
delete_file = codes "*** Delete File: "

abbrev pub update_file : Text
update_file = codes "*** Update File: "

abbrev pub move_to : Text
move_to = codes "*** Move to: "

abbrev pub eof : Text
eof = codes "*** End of File"

abbrev pub change_context : Text
change_context = codes "@@ "

abbrev pub empty_change_context : Text
empty_change_context = codes "@@"

-- the three stars that every file header begins with
abbrev pub stars : Text
stars = codes "***"
