-- ===== src/FileManager/Examples.antt =====
-- A folder with three entries.
use elfloader3_elfs_archive.Prelude.{
  ◌+◌, ◌≡◌, refl, Bool, true, false, Bytes, List, [], ◌∷◌, ◌++◌, none, some, ok, fault, overflow,
  length, replicate, get_elem?, pos, negsuc, ◌==◌, ◌&&◌, ◌==◌, ◌&&◌,
}
use elfloader3_elfs_archive.Oms.Forms.{codes}
use elfloader3_elfs_archive.Encoding.Compare.{strcmp_nocase, fold_case}
use elfloader3_elfs_archive.FileManager.{
  is_back, is_folder, is_file, Entry, is_less, add_to_flist_fm, parent, DirEntry, dir_entry,
  add_all, find_files_fm, add_drives, create_root_menu, find_flist_by_ns, find_flist_by_n, Manager,
  Phone, root_menu, open_folder, on_entry, filelist_menu_onkey, item_text, open_fm,
}
use mathlib.Core.List.{Perm}
use elfloader3_elfs_archive.FileManager.Order.{shown_in, IsListed, find_files_fm-IsListed}
use elfloader3_elfs_archive.FileManager.Menu.{menu_of, find_flist_by_n-menu_of}

abbrev in_folder : Bytes → Bool → DirEntry
in_folder name is_directory = record {
  folder_name = codes "0:\\a";
  file_name = name;
  is_directory = is_directory;
}

abbrev dir : Bytes → List DirEntry
dir path =
    in_folder (codes "note.txt") false
    ∷ in_folder (codes "Music") true
    ∷ in_folder (codes "ada.oms") false
    ∷ []

abbrev note : Entry
note = record { kind = is_file; fullname = codes "0:\\a\\note.txt"; name = codes "note.txt" }

abbrev ada : Entry
ada = record { kind = is_file; fullname = codes "0:\\a\\ada.oms"; name = codes "ada.oms" }

abbrev music : Entry
music = record { kind = is_folder; fullname = codes "0:\\a\\Music\\"; name = codes "\\Music" }

abbrev back : Entry
back = record { kind = is_back; fullname = codes "0:\\"; name = codes ".." }

abbrev listed : List Entry
listed = back ∷ ada ∷ note ∷ music ∷ []

find_files_fm-IsListed_example :
    IsListed (listed, 4)
    × (4 ≡ 1 + length (dir (codes "0:\\a\\" ++ 42 ∷ [])))
    × Perm listed (shown_in dir (codes "Root") (codes "0:\\a\\"))
unfolding find_files_fm add_all dir_entry add_to_flist_fm is_less strcmp_nocase fold_case parent
find_files_fm-IsListed_example =
    find_files_fm-IsListed dir (codes "Root") (codes "0:\\a\\") (listed, 4) refl

find_flist_by_n-menu_of_example :
    find_flist_by_n 2 (music ∷ back ∷ ada ∷ note ∷ [])
    ≡ get_elem? (menu_of (music ∷ back ∷ ada ∷ note ∷ [])) 2
find_flist_by_n-menu_of_example = find_flist_by_n-menu_of 2 (music ∷ back ∷ ada ∷ note ∷ [])

-- The folder of the path is named as the way back.
long_name : find_files_fm dir (codes "Root") (replicate 129 65) ≡ fault overflow
unfolding find_files_fm
long_name = refl

abbrev same_text : Bytes → Bytes → Bool
same_text [] [] = true
same_text (a ∷ s) (b ∷ t) = a == b && same_text s t
same_text s t = false

abbrev phone : Phone
phone = record { dir = dir; isdir = λ path. true; root = codes "Root"; same_text = same_text }

abbrev closed : Manager
closed = record { files = []; items = 0; header = []; chosen = none }

abbrev at_folder : Manager
at_folder = record { files = listed; items = 4; header = codes "0:\\a\\"; chosen = none }

opens_drives : open_fm phone closed ≡ ok (root_menu phone closed)
unfolding open_fm parent
opens_drives = refl

five_drives : (create_root_menu (λ path. true)).1 ≡ 5
unfolding create_root_menu add_drives
five_drives = refl

chooses_file :
    filelist_menu_onkey phone 0x3d 2 at_folder ≡ ok (record at_folder { chosen = some ada }, pos 1)
unfolding filelist_menu_onkey on_entry find_flist_by_n find_flist_by_ns
chooses_file = refl

goes_back :
    filelist_menu_onkey phone 0x3d 0 (record at_folder { header = [] })
    ≡ ok (
      record at_folder {
        files = record back { fullname = codes "Root" } ∷ ada ∷ note ∷ music ∷ [];
        header = codes "0:\\";
      },
      negsuc 0,
    )
unfolding filelist_menu_onkey on_entry find_flist_by_n find_flist_by_ns open_folder find_files_fm
    add_all dir_entry add_to_flist_fm is_less strcmp_nocase fold_case parent
goes_back = refl

folder_text : item_text (codes "Error!") listed 1 ≡ 0xe008 ∷ 2 ∷ codes "\\Music"
unfolding item_text find_flist_by_n find_flist_by_ns
folder_text = refl
