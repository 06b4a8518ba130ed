-- ===== src/Bookmarks/Editing.antt =====
-- A bookmark or a folder is made, changed or deleted: `edit_bookmark_onkey` and
-- `bookmarks_options_delete` of BalletMini/mainmenu.c.
use elfloader3_elfs_archive.Prelude.{
  ℕ, Bool, true, false, Bytes, List, [], ◌∷◌, ◌++◌, Option, none, some, Out, ok, fault, bad_index,
  ◌>>=◌, ◌==◌, not, if◌then◌else◌,
}
use elfloader3_elfs_archive.Oms.Forms.{codes}
use elfloader3_elfs_archive.FileManager.{Kind, is_back, is_folder, is_file, Entry}

pub data EditMode : Type 0 where
  edit_bookmark create_bookmark rename_folder create_folder : EditMode

-- The calls that change the files.
pub data Call : Type 0 where
  mkdir rmdir unlink : Bytes → Call
  fmove write_file : Bytes → Bytes → Call

-- What the user is told instead.
pub data Refusal : Type 0 where
  no_name no_url same_folder same_file : Refusal

pub data Edit : Type 0 where
  cancelled ignored : Edit
  refused : Refusal → Edit
  done : List Call → Edit

-- The phone: whether there is such a folder or file, and the comparison and the escapes of texts.
pub record Disk : Type 0 where
  pub isdir : Bytes → Bool
  pub fexists : Bytes → Bool
  pub same_text : Bytes → Bytes → Bool
  pub reencode : Bytes → Bytes

abbrev pub ends_in_slash : Bytes → Bool
ends_in_slash [] = false
ends_in_slash (c ∷ []) = c == 92
ends_in_slash (c ∷ d ∷ s) = ends_in_slash (d ∷ s)

-- `edit_bookmark_extract_name`: none without a text. The last byte of an empty folder is before it.
unfoldable pub extract_name : Bytes → Bytes → Out (Option Bytes)
extract_name folder [] = ok none
extract_name [] (c ∷ text) = fault bad_index
extract_name (d ∷ folder) (c ∷ text) =
    let path = d ∷ folder in
    ok (some ((if ends_in_slash path then path else path ++ 92 ∷ []) ++ c ∷ text))

-- A folder that is made, or an entry that is moved.
abbrev pub folder_call : EditMode → Entry → Bytes → List Call
folder_call create_folder e name = mkdir name ∷ []
folder_call mode e name = fmove e.fullname name ∷ []

unfoldable pub edit_folder : Disk → EditMode → Entry → Option Bytes → Edit
edit_folder d mode e none = refused no_name
edit_folder d mode e (some name) =
    if d.isdir name then refused same_folder else done (folder_call mode e name)

abbrev pub is_new : Disk → EditMode → Entry → Bytes → Bool
is_new d create_bookmark e name = true
is_new d mode e name = not (d.same_text e.fullname name)

-- The old file is deleted before the new one is written.
abbrev pub mark_calls : Disk → EditMode → Entry → Bytes → Bytes → List Call
mark_calls d edit_bookmark e name url = unlink e.fullname ∷ write_file name (d.reencode url) ∷ []
mark_calls d mode e name url = write_file name (d.reencode url) ∷ []

unfoldable pub edit_mark : Disk → EditMode → Entry → Option Bytes → Bytes → Edit
edit_mark d mode e none url = refused no_name
edit_mark d mode e (some name) [] = refused no_url
edit_mark d mode e (some name) (c ∷ url) =
    let file = name ++ codes ".url" in
    if is_new d mode e file
    then if d.fexists file then refused same_file else done (mark_calls d mode e file (c ∷ url))
    else done (mark_calls d mode e file (c ∷ url))

abbrev pub edit_by_mode : Disk → EditMode → Entry → Option Bytes → Bytes → Edit
edit_by_mode d create_folder e name url = edit_folder d create_folder e name
edit_by_mode d rename_folder e name url = edit_folder d rename_folder e name
edit_by_mode d create_bookmark e name url = edit_mark d create_bookmark e name url
edit_by_mode d edit_bookmark e name url = edit_mark d edit_bookmark e name url

-- The key, and the two texts of the form.
unfoldable pub edit_bookmark_onkey : Disk → EditMode → Bytes → Entry → Bytes → Bytes → ℕ → Out Edit
edit_bookmark_onkey d mode folder e text url key =
    if key == 0xff0
    then ok cancelled
    else if key == 0xfff
    then (do name ← extract_name folder text; ok (edit_by_mode d mode e name url))
    else ok ignored

-- `bookmarks_options_edit`: which form is opened, by the ending of the file; none for the way back.
unfoldable pub edit_mode_of : Kind → Option Bool → Option EditMode
edit_mode_of is_file (some true) = some edit_bookmark
edit_mode_of is_file (some false) = some rename_folder
edit_mode_of is_file none = none
edit_mode_of is_folder ending = some rename_folder
edit_mode_of is_back ending = none

unfoldable pub bookmarks_options_delete : Entry → List Call
bookmarks_options_delete e = elim e.kind [
  | is_folder ↦ rmdir e.fullname ∷ []
  | is_file ↦ unlink e.fullname ∷ []
  | is_back ↦ []
]
