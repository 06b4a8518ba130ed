-- ===== src/Bookmarks/Opened.antt =====
-- A bookmark that was made or changed is opened.
use elfloader3_elfs_archive.Prelude.{
  ℕ, Bool, ◌<◌, ◌≡◌, refl, sym, ap, ◌∙◌, ◌&&◌, ◌==◌, eq→==, if_true, true, false, Bytes, List, [],
  ◌∷◌, ◌++◌, Option, none, some, ok, ◌>>=◌, eq_bind, ok-injective, length, if◌then◌else◌, pos,
  negsuc,
}
use elfloader3_elfs_archive.Oms.Forms.{codes}
use elfloader3_elfs_archive.Encoding.Compare.{strcmp_nocase, fold_case}
use elfloader3_elfs_archive.FileManager.{Entry, same_kind, is_file}
use elfloader3_elfs_archive.Startup.Address.{Files, mode_url, split_at_last, read_url_file}
use elfloader3_elfs_archive.Browser.Names.{split_at_last-append}
use elfloader3_elfs_archive.Bookmarks.{
  Marks, Phone, enter_mark, open_mark, opened, find_blist_by_n, find_files, bookmarks_menu_onkey,
}
use elfloader3_elfs_archive.Bookmarks.Editing.{
  EditMode, edit_bookmark, create_bookmark, Call, write_file, unlink, fmove, mkdir, rmdir, Disk,
  no_name, same_file, refused, done, ends_in_slash, extract_name, is_new, mark_calls, edit_mark,
  edit_by_mode, edit_bookmark_onkey,
}
use elfloader3_elfs_archive.Bookmarks.Written.{IsUrl, read_url_file-IsUrl}

-- The names of two files are the same.
abbrev pub same_name : Bytes → Bytes → Bool
same_name [] [] = true
same_name (a ∷ s) (b ∷ t) = a == b && same_name s t
same_name s t = false

-- What a call does to the files: a file that is deleted is not there, one that is written has the bytes, one
-- that is moved has another name. Folders are not looked at.
abbrev pub run_call : Call → Files → Files
run_call (unlink name) files fn = if same_name fn name then none else files fn
run_call (write_file name bytes) files fn = if same_name fn name then some bytes else files fn
run_call (fmove from to) files fn =
    if same_name fn to then files from else if same_name fn from then none else files fn
run_call (mkdir name) files fn = files fn
run_call (rmdir name) files fn = files fn

-- The calls one after the other.
abbrev pub run_calls : List Call → Files → Files
run_calls [] files = files
run_calls (c ∷ calls) files = run_calls calls (run_call c files)

same_name_refl : (s : Bytes) → same_name s s ≡ true
same_name_refl [] = refl
same_name_refl (a ∷ s) = rw (eq→== a a refl) (same_name_refl s)

-- The forms with an address.
pub data IsMarkMode : EditMode → Type 0 where
  makes : IsMarkMode create_bookmark
  changes : IsMarkMode edit_bookmark

-- The file of a bookmark, by the folder and the text of its form.
abbrev pub mark_file : Bytes → Bytes → Bytes
mark_file folder text =
    (if ends_in_slash folder then folder else folder ++ 92 ∷ []) ++ text ++ codes ".url"

run_calls-mark_calls :
    {mode : EditMode} (d : Disk) (e : Entry) (files : Files) (name url : Bytes)
    → IsMarkMode mode
    → run_calls (mark_calls d mode e name url) files name ≡ some (d.reencode url)
run_calls-mark_calls d e files name url makes =
    if_true (same_name name name) _ _ (same_name_refl name)
run_calls-mark_calls d e files name url changes =
    if_true (same_name name name) _ _ (same_name_refl name)

-- What is not refused is done.
done_calls :
    (changed exists : Bool) (calls calls' : List Call)
    → (if changed then if exists then refused same_file else done calls else done calls)
      ≡ done calls'
    → calls ≡ calls'
done_calls true true calls calls' h = cc
done_calls true false calls calls' h = cc
done_calls false exists calls calls' h = cc

edit_mark-written :
    {mode : EditMode} (d : Disk) (e : Entry) (files : Files) (name url : Bytes) (calls : List Call)
    → IsMarkMode mode
    → edit_mark d mode e (some name) url ≡ done calls
    → run_calls calls files (name ++ codes ".url") ≡ some (d.reencode url)
unfolding edit_mark
edit_mark-written d e files name [] calls is h = cc
edit_mark-written {mode = mode} d e files name (c ∷ url) calls is h =
    let file = name ++ codes ".url" in
    ap (λ cs. run_calls cs files file)
      (sym (
        done_calls (is_new d mode e file) (d.fexists file) (mark_calls d mode e file (c ∷ url))
          calls h))
    ∙ run_calls-mark_calls d e files file (c ∷ url) is

by_mode :
    {mode : EditMode} (d : Disk) (e : Entry) (name : Option Bytes) (url : Bytes)
    → IsMarkMode mode
    → edit_by_mode d mode e name url ≡ edit_mark d mode e name url
by_mode d e name url makes = refl
by_mode d e name url changes = refl

form-written :
    {mode : EditMode} (d : Disk) (e : Entry) (files : Files) (folder text url : Bytes)
    (calls : List Call)
    → IsMarkMode mode
    → edit_bookmark_onkey d mode folder e text url 0xfff ≡ ok (done calls)
    → run_calls calls files (mark_file folder text) ≡ some (d.reencode url)
unfolding edit_bookmark_onkey extract_name edit_mark
form-written d e files folder [] url calls is h =
    let refusal : refused no_name ≡ done calls = sym (by_mode d e none url is) ∙ ok-injective h in
    cc
form-written d e files [] (t ∷ text) url calls is h = cc
form-written d e files (f ∷ folder) (t ∷ text) url calls is h =
    let name =
      (if ends_in_slash (f ∷ folder) then f ∷ folder else f ∷ folder ++ 92 ∷ []) ++ t ∷ text in
    edit_mark-written d e files name url calls is
      (sym (by_mode d e (some name) url is) ∙ ok-injective h)

open_mark-url :
    (p : Phone) (e : Entry) (name bytes : Bytes) (m : Marks)
    → e.fullname ≡ name ++ codes ".url"
    → p.files (name ++ codes ".url") ≡ some bytes
    → 0 < length bytes
    → IsUrl bytes
    → open_mark p e (split_at_last 46 e.fullname) m
      ≡ ok (
        record m {
          viewed = record { view_url = some (codes "0/" ++ bytes); view_url_mode = mode_url };
          goto_url = some (p.reencode (codes "0/" ++ bytes));
        },
        pos 0xff,
      )
unfolding open_mark strcmp_nocase fold_case split_at_last
open_mark-url p e name bytes m named there some_bytes is =
    ap (λ o. open_mark p e o m)
      (ap (split_at_last 46) named ∙ split_at_last-append name (codes ".url") (codes "url") refl)
    ∙ eq_bind (λ r. ok (opened p r m))
        (ap (λ fn. read_url_file p.files fn m.viewed) named
          ∙ read_url_file-IsUrl p.files (name ++ codes ".url") bytes m.viewed there some_bytes is)

-- A bookmark that the form with its OK key has made or changed, without a refusal, the calls to the file system
-- done in their order, and whose address is not empty and has no blanks once it is escaped, is opened from the
-- window, where its file is an entry: the browser is told to go to that address, escaped again, and the
-- address is the one of the view.
pub bookmarks_menu_onkey-form :
    {mode : EditMode} (d : Disk) (p : Phone) (files : Files) (e mark : Entry)
    (folder text url : Bytes) (calls : List Call) (item : ℕ) (m : Marks)
    → IsMarkMode mode
    → edit_bookmark_onkey d mode folder e text url 0xfff ≡ ok (done calls)
    → p.files ≡ run_calls calls files
    → 0 < length (d.reencode url)
    → IsUrl (d.reencode url)
    → find_blist_by_n item m.entries ≡ some mark
    → mark.kind ≡ is_file
    → mark.fullname ≡ mark_file folder text
    → bookmarks_menu_onkey p 0x3d item m
      ≡ ok (
        record m {
          viewed = record {
            view_url = some (codes "0/" ++ d.reencode url);
            view_url_mode = mode_url;
          };
          goto_url = some (p.reencode (codes "0/" ++ d.reencode url));
        },
        pos 0xff,
      )
unfolding bookmarks_menu_onkey
bookmarks_menu_onkey-form d p files e mark folder text url calls item m is h after some_bytes is_url
      found kind named =
    ap (λ o. enter_mark p o m) found
    ∙ (ap
          (λ k.
            if same_kind k is_file
            then open_mark p mark (split_at_last 46 mark.fullname) m
            else (do m' ← find_files p mark.fullname m; ok (m', negsuc 0)))
          kind
        ∙ open_mark-url p mark _ (d.reencode url) m named
            (ap (λ (now : Files). now (mark_file folder text)) after
              ∙ form-written d e files folder text url calls is h)
            some_bytes is_url)
