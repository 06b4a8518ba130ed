-- ===== src/Bookmarks.antt =====
-- The bookmarks of BalletMini/mainmenu.c: the window that lists them, and what is done to one of them.
pub mod Editing
mod Order
mod Written
mod Opened
mod Examples
use elfloader3_elfs_archive.Prelude.{
  ℕ, zero, suc, ◌+◌, Bool, true, false, Bytes, List, [], ◌∷◌, ◌++◌, Option, none, some, Out, ok,
  fault, overflow, bad_pointer, ◌>>=◌, length, leb, ◌==◌, ◌||◌, ℤ, pos, negsuc, if◌then◌else◌,
}
use elfloader3_elfs_archive.Oms.Forms.{codes}
use elfloader3_elfs_archive.FileManager.{
  Kind, is_back, is_folder, is_file, same_kind, Entry, add_to_flist_fm, parent, DirEntry,
  find_flist_by_n,
}
use elfloader3_elfs_archive.Startup.Address.{
  Viewed, Files, same_nocase, split_at_last, read_url_file,
}

-- `AddToFList`, which is `AddToFListFM` of fileman.c with another list.
unfoldable pub add_to_flist : Entry → List Entry → List Entry
add_to_flist = add_to_flist_fm

-- `FindBListByN` and `FindBListByNS`, likewise.
unfoldable pub find_blist_by_n : ℕ → List Entry → Option Entry
find_blist_by_n = find_flist_by_n

-- The entry "..." for the folder above; without one, `rev` is a null pointer.
abbrev pub above : Bytes → Option Bytes → Out (List Entry × ℕ)
above str none = fault bad_pointer
above str (some path) =
    ok (add_to_flist (record { kind = is_back; fullname = path; name = codes "..." }) [], 1)

-- Every folder but that of the bookmarks has such an entry. The copy of the path has 128 bytes.
unfoldable pub first_entry : Bytes → Bytes → Out (List Entry × ℕ)
first_entry bookmarks_path str =
    if same_nocase str bookmarks_path
    then ok ([], 0)
    else if leb 129 (length str)
    then fault overflow
    else above str (parent str)

-- The name without its last ending.
abbrev pub without_ending : Bytes → Bytes
without_ending s = elim (split_at_last 46 s) [ none ↦ s | some (name, ending) ↦ name ]

-- `path` has 256 bytes, `name` has 128.
unfoldable pub mark_entry : DirEntry → Out Entry
mark_entry d =
    let path = d.folder_name ++ (92 ∷ d.file_name) in
    if leb 256 (length path) || leb 128 (length d.file_name)
    then fault overflow
    else if d.is_directory
    then if leb 255 (length path)
      then fault overflow
      else ok (record { kind = is_folder; fullname = path ++ 92 ∷ []; name = d.file_name })
    else ok (record { kind = is_file; fullname = path; name = without_ending d.file_name })

unfoldable pub add_marks : List DirEntry → List Entry × ℕ → Out (List Entry × ℕ)
add_marks [] r = ok r
add_marks (d ∷ ds) r = do e ← mark_entry d; add_marks ds (add_to_flist e r.0, r.1 + 1)

-- The list, the number of items, `bookmarks_current_folder` and the variables of the next page.
pub record Marks : Type 0 where
  pub entries : List Entry
  pub items : ℕ
  pub current_folder : Option Bytes
  pub viewed : Viewed
  pub goto_url : Option Bytes

-- The phone's lists of folders and files, the folder of the bookmarks, and `URL_reencode_escapes`.
pub record Phone : Type 0 where
  pub dir : Bytes → List DirEntry
  pub files : Files
  pub bookmarks_path : Bytes
  pub reencode : Bytes → Bytes

-- `FindFiles`
unfoldable pub find_files : Phone → Bytes → Marks → Out Marks
find_files p str m = if leb 255 (length str) then fault overflow else (do
  r0 ← first_entry p.bookmarks_path str
  r ← add_marks (p.dir (str ++ 42 ∷ [])) r0
  ok (record m { entries = r.0; items = r.1; current_folder = some str }))

-- A file with an address is read; one that is a page is gone to.
abbrev pub opened : Phone → Viewed × Bool → Marks → Marks × ℤ
opened p (v, false) m = (record m { viewed = v }, pos 1)
opened p (v, true) m = elim v.view_url [
  | none ↦ (record m { viewed = v }, pos 1)
  | some url ↦ (record m { viewed = v; goto_url = some (p.reencode url) }, pos 0xff)
]

unfoldable pub open_mark : Phone → Entry → Option (Bytes × Bytes) → Marks → Out (Marks × ℤ)
open_mark p e none m = ok (m, pos 1)
open_mark p e (some (name, ending)) m =
    if same_nocase ending (codes "oms")
    then ok (record m { goto_url = some e.fullname }, pos 0xfa)
    else if same_nocase ending (codes "url")
    then (do r ← read_url_file p.files e.fullname m.viewed; ok (opened p r m))
    else ok (m, pos 1)

abbrev pub enter_mark : Phone → Option Entry → Marks → Out (Marks × ℤ)
enter_mark p none m = ok (m, negsuc 0)
enter_mark p (some e) m =
    if same_kind e.kind is_file
    then open_mark p e (split_at_last 46 e.fullname) m
    else (do m' ← find_files p e.fullname m; ok (m', negsuc 0))

-- `bookmarks_menu_onkey`; the key 0x18 opens the window of the options.
unfoldable pub bookmarks_menu_onkey : Phone → ℕ → ℕ → Marks → Out (Marks × ℤ)
bookmarks_menu_onkey p key item m =
    if key == 0x3d
    then enter_mark p (find_blist_by_n item m.entries) m
    else ok (m, if key == 0x18 then negsuc 0 else pos 0)
