-- ===== src/Bookmarks/Examples.antt =====
-- Bookmarks in a folder.
use elfloader3_elfs_archive.Bookmarks.Written.{url_byte, url_end}
use elfloader3_elfs_archive.Bookmarks.Opened.{changes, run_calls, bookmarks_menu_onkey-form}
use elfloader3_elfs_archive.Prelude.{
  ◌≡◌, refl, Bool, true, false, Bytes, [], ◌∷◌, none, some, ok, fault, bad_pointer, ◌==◌, ◌&&◌, pos,
  arith,
}
use elfloader3_elfs_archive.Oms.Forms.{codes}
use elfloader3_elfs_archive.Encoding.Compare.{strcmp_nocase, fold_case}
use elfloader3_elfs_archive.FileManager.{
  is_file, Entry, is_less, add_to_flist_fm, parent, find_flist_by_ns, find_flist_by_n,
}
use elfloader3_elfs_archive.Startup.Address.{
  mode_none, mode_url, first_word, split_at_last, read_url_file,
}
use elfloader3_elfs_archive.Bookmarks.{
  add_to_flist, find_blist_by_n, first_entry, mark_entry, add_marks, Marks, Phone, find_files,
  open_mark, bookmarks_menu_onkey,
}
use elfloader3_elfs_archive.Bookmarks.Editing.{
  edit_bookmark, create_bookmark, rename_folder, unlink, fmove, write_file, same_folder, same_file,
  no_url, refused, done, Disk, extract_name, edit_folder, edit_mark, edit_bookmark_onkey,
  edit_mode_of, bookmarks_options_delete,
}

abbrev news : Entry
news = record { kind = is_file; fullname = codes "0:\\b\\news.url"; name = codes "news" }

abbrev saved : Entry
saved = record { kind = is_file; fullname = codes "0:\\b\\page.oms"; name = codes "page" }

abbrev phone : Phone
phone = record {
  dir = λ path.
      record { folder_name = codes "0:\\b"; file_name = codes "page.oms"; is_directory = false }
      ∷ record { folder_name = codes "0:\\b"; file_name = codes "news.url"; is_directory = false }
      ∷ [];
  files = λ fn. some (codes "news.com ");
  bookmarks_path = codes "0:\\b\\";
  reencode = λ url. url;
}

abbrev closed : Marks
closed = record {
  entries = [];
  items = 0;
  current_folder = none;
  viewed = record { view_url = none; view_url_mode = mode_none };
  goto_url = none;
}

abbrev listed : Marks
listed = record closed {
  entries = news ∷ saved ∷ [];
  items = 2;
  current_folder = some (codes "0:\\B\\");
}

lists_folder : find_files phone (codes "0:\\B\\") closed ≡ ok listed
unfolding find_files first_entry add_marks mark_entry split_at_last add_to_flist add_to_flist_fm
    is_less strcmp_nocase fold_case
lists_folder = refl

-- A folder outside of the bookmarks' with no folder above it.
drive_faults : find_files phone (codes "1:\\") closed ≡ fault bad_pointer
unfolding find_files first_entry strcmp_nocase fold_case parent
drive_faults = refl

opens_address :
    bookmarks_menu_onkey phone 0x3d 0 listed
    ≡ ok (
      record listed {
        viewed = record { view_url = some (codes "0/news.com"); view_url_mode = mode_url };
        goto_url = some (codes "0/news.com");
      },
      pos 0xff,
    )
unfolding bookmarks_menu_onkey find_blist_by_n find_flist_by_n find_flist_by_ns open_mark
    split_at_last strcmp_nocase fold_case read_url_file first_word
opens_address = refl

opens_page :
    bookmarks_menu_onkey phone 0x3d 1 listed
    ≡ ok (record listed { goto_url = some (codes "0:\\b\\page.oms") }, pos 0xfa)
unfolding bookmarks_menu_onkey find_blist_by_n find_flist_by_n find_flist_by_ns open_mark
    split_at_last strcmp_nocase fold_case
opens_page = refl

abbrev same_text : Bytes → Bytes → Bool
same_text [] [] = true
same_text (a ∷ s) (b ∷ t) = a == b && same_text s t
same_text s t = false

abbrev disk : Disk
disk = record {
  isdir = same_text (codes "0:\\b\\old");
  fexists = same_text (codes "0:\\b\\news.url");
  same_text = same_text;
  reencode = λ url. url;
}

-- The form for a saved page is that of a folder, and the page's ending is lost.
renames_page :
    edit_bookmark_onkey disk rename_folder (codes "0:\\b") saved (codes "mine") [] 0xfff
    ≡ ok (done (fmove (codes "0:\\b\\page.oms") (codes "0:\\b\\mine") ∷ []))
unfolding edit_bookmark_onkey extract_name edit_folder
renames_page = refl

edit_mode_saved : edit_mode_of is_file (some false) ≡ some rename_folder
unfolding edit_mode_of
edit_mode_saved = refl

folder_there :
    edit_bookmark_onkey disk rename_folder (codes "0:\\b\\") saved (codes "old") [] 0xfff
    ≡ ok (refused same_folder)
unfolding edit_bookmark_onkey extract_name edit_folder
folder_there = refl

bookmark_there :
    edit_bookmark_onkey disk create_bookmark
      (codes "0:\\b\\")
      saved
      (codes "news")
      (codes "a.b")
      0xfff
    ≡ ok (refused same_file)
unfolding edit_bookmark_onkey extract_name edit_mark
bookmark_there = refl

changes_bookmark :
    edit_bookmark_onkey disk edit_bookmark (codes "0:\\b\\") news (codes "news") (codes "a.b") 0xfff
    ≡ ok (
        done (
          unlink (codes "0:\\b\\news.url")
          ∷ write_file (codes "0:\\b\\news.url") (codes "a.b")
          ∷ []))
unfolding edit_bookmark_onkey extract_name edit_mark
changes_bookmark = refl

no_address :
    edit_bookmark_onkey disk create_bookmark (codes "0:\\b\\") saved (codes "x") [] 0xfff
    ≡ ok (refused no_url)
unfolding edit_bookmark_onkey extract_name edit_mark
no_address = refl

deletes : bookmarks_options_delete news ≡ unlink (codes "0:\\b\\news.url") ∷ []
unfolding bookmarks_options_delete
deletes = refl

abbrev changed : Phone
changed = record phone {
  files =
      run_calls
        (unlink (codes "0:\\b\\news.url") ∷ write_file (codes "0:\\b\\news.url") (codes "a.b") ∷ [])
        phone.files;
}

bookmarks_menu_onkey-form_example :
    bookmarks_menu_onkey changed 0x3d 0 listed
    ≡ ok (
      record listed {
        viewed = record { view_url = some (codes "0/a.b"); view_url_mode = mode_url };
        goto_url = some (codes "0/a.b");
      },
      pos 0xff,
    )
unfolding find_blist_by_n find_flist_by_n find_flist_by_ns
bookmarks_menu_onkey-form_example =
    bookmarks_menu_onkey-form disk changed phone.files news news (codes "0:\\b\\") (codes "news")
      (codes "a.b")
      (unlink (codes "0:\\b\\news.url") ∷ write_file (codes "0:\\b\\news.url") (codes "a.b") ∷ []) 0
      listed changes changes_bookmark refl (omega arith)
      (url_byte refl (url_byte refl (url_byte refl url_end))) refl refl refl
