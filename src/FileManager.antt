-- ===== src/FileManager.antt =====
-- BalletMini/fileman.c: the window in which a file is chosen.
pub mod Order
pub mod Menu
pub mod Examples
use elfloader3_elfs_archive.Prelude.{
  ℕ, zero, suc, ◌+◌, ◌-◌, Bool, true, false, Bytes, List, [], ◌∷◌, ◌++◌, Option, none, some, Out,
  ok, fault, overflow, ◌>>=◌, length, take, ltb, leb, ◌==◌, ◌&&◌, ◌||◌, ℤ, pos, negsuc,
  if◌then◌else◌,
}
use elfloader3_elfs_archive.Oms.Forms.{codes}
use elfloader3_elfs_archive.Encoding.Compare.{strcmp_nocase}

pub data Kind : Type 0 where
  is_back is_folder is_file : Kind

abbrev pub same_kind : Kind → Kind → Bool
same_kind is_back is_back = true
same_kind is_folder is_folder = true
same_kind is_file is_file = true
same_kind k l = false

pub record Entry : Type 0 where
  pub kind : Kind
  pub fullname : Bytes
  pub name : Bytes

-- `strcmp_nocase(s, t) < 0`
abbrev pub below_zero : ℤ → Bool
below_zero (pos n) = false
below_zero (negsuc n) = true

unfoldable pub is_less : Bytes → Bytes → Bool
is_less s t = below_zero (strcmp_nocase s t)

-- `AddToFListFM`: the list from `fltop` on.
unfoldable pub add_to_flist_fm : Entry → List Entry → List Entry
add_to_flist_fm e [] = e ∷ []
add_to_flist_fm e (f ∷ fs) =
    let further = add_to_flist_fm e fs in if is_less f.name e.name then f ∷ further else e ∷ f ∷ fs

-- The path up to its last `\` but one at the very end; none is the top.
abbrev pub inner_slash : ℕ → Bytes → Option Bytes → Option Bytes
inner_slash c s (some path) = some (c ∷ path)
inner_slash c [] none = none
inner_slash c (d ∷ s) none = if c == 92 then some (c ∷ []) else none

unfoldable pub parent : Bytes → Option Bytes
parent [] = none
parent (c ∷ s) = inner_slash c s (parent s)

-- The text of `LGP_Root` stands for the list of the drives.
abbrev pub back_entry : Bytes → Option Bytes → Entry
back_entry root none = record { kind = is_back; fullname = root; name = codes ".." }
back_entry root (some path) = record { kind = is_back; fullname = path; name = codes ".." }

-- What `FindFirstFile` and `FindNextFile` give.
pub record DirEntry : Type 0 where
  pub folder_name : Bytes
  pub file_name : Bytes
  pub is_directory : Bool

-- `path` has 256 bytes, `name` has 128.
unfoldable pub dir_entry : DirEntry → Out Entry
dir_entry d =
    let path = d.folder_name ++ (92 ∷ d.file_name) in
    if leb 256 (length path)
    then fault overflow
    else if d.is_directory
    then if leb 255 (length path) || leb 127 (length d.file_name)
      then fault overflow
      else ok (record { kind = is_folder; fullname = path ++ 92 ∷ []; name = 92 ∷ d.file_name })
    else ok (record { kind = is_file; fullname = path; name = d.file_name })

-- The loop, with the number of entries.
unfoldable pub add_all : List DirEntry → List Entry × ℕ → Out (List Entry × ℕ)
add_all [] r = ok r
add_all (d ∷ ds) r = do e ← dir_entry d; add_all ds (add_to_flist_fm e r.0, r.1 + 1)

-- The list is freed before it is filled again. `dir` are the entries of a folder.
unfoldable pub find_files_fm : (Bytes → List DirEntry) → Bytes → Bytes → Out (List Entry × ℕ)
find_files_fm dir root str =
    if leb 255 (length str) || leb 129 (length str)
    then fault overflow
    else add_all (dir (str ++ 42 ∷ [])) (add_to_flist_fm (back_entry root (parent str)) [], 1)

-- The drives from 0 to 4.
abbrev pub drive_entry : ℕ → Entry
drive_entry i = record {
  kind = is_folder;
  fullname = (i + 48) ∷ 58 ∷ 92 ∷ [];
  name = (i + 48) ∷ 58 ∷ 92 ∷ [];
}

unfoldable pub add_drives : (Bytes → Bool) → ℕ → ℕ → List Entry × ℕ → List Entry × ℕ
add_drives isdir zero i r = r
add_drives isdir (suc n) i r =
    let e = drive_entry i in
    add_drives isdir n (i + 1) (if isdir e.fullname then (add_to_flist_fm e r.0, r.1 + 1) else r)

unfoldable pub create_root_menu : (Bytes → Bool) → List Entry × ℕ
create_root_menu isdir = add_drives isdir 5 0 ([], 0)

-- The entry of a kind with so many of its kind before it, and what is left of the number.
unfoldable pub find_flist_by_ns : Kind → ℕ → List Entry → Option Entry × ℕ
find_flist_by_ns k i [] = (none, i)
find_flist_by_ns k i (e ∷ es) =
    let further = find_flist_by_ns k (if same_kind e.kind k then i - 1 else i) es in
    if same_kind e.kind k && i == 0 then (some e, i) else further

abbrev pub found : Option Entry × ℕ → Bool
found (none, n) = false
found (some e, n) = n == 0

unfoldable pub find_flist_by_n : ℕ → List Entry → Option Entry
find_flist_by_n n es =
    let back = find_flist_by_ns is_back n es in
    let folder = find_flist_by_ns is_folder back.1 es in
    let file = find_flist_by_ns is_file folder.1 es in
    if found back then back.0 else if found folder then folder.0 else file.0

-- The window: the list, the number of its items, the text above it, and what was handed to `cbk_func`.
pub record Manager : Type 0 where
  pub files : List Entry
  pub items : ℕ
  pub header : Bytes
  pub chosen : Option Entry

-- The phone's answers, and the text of `LGP_Root`.
pub record Phone : Type 0 where
  pub dir : Bytes → List DirEntry
  pub isdir : Bytes → Bool
  pub root : Bytes
  pub same_text : Bytes → Bytes → Bool

unfoldable pub root_menu : Phone → Manager → Manager
root_menu p m =
    let r = create_root_menu p.isdir in record m { files = r.0; items = r.1; header = p.root }

unfoldable pub open_folder : Phone → Entry → Manager → Out Manager
open_folder p e m = if p.same_text e.fullname p.root then ok (root_menu p m) else (do
  r ← find_files_fm p.dir p.root e.fullname
  ok (record m { files = r.0; items = r.1; header = take 127 e.fullname }))

-- What a key does to the entry under the cursor: 0x3D goes into folders, 0x18 chooses.
unfoldable pub on_entry : Phone → ℕ → Entry → Manager → Out (Manager × ℤ)
on_entry p key e m =
    if key == 0x3d
    then if same_kind e.kind is_file
      then ok (record m { chosen = some e }, pos 1)
      else (do m' ← open_folder p e m; ok (m', negsuc 0))
    else if key == 0x18
    then if same_kind e.kind is_back
      then ok (m, negsuc 0)
      else ok (record m { chosen = some e }, pos 1)
    else ok (m, pos 0)

unfoldable pub filelist_menu_onkey : Phone → ℕ → ℕ → Manager → Out (Manager × ℤ)
filelist_menu_onkey p key item m = elim (find_flist_by_n item m.files) [
  | none ↦ ok (m, if key == 0x3d || key == 0x18 then negsuc 0 else pos 0)
  | some e ↦ on_entry p key e m
]

-- The text of an item: folders have a symbol of the phone before them.
unfoldable pub item_text : Bytes → List Entry → ℕ → List ℕ
item_text error es item = elim (find_flist_by_n item es) [
  | none ↦ error
  | some e ↦ if same_kind e.kind is_file then e.name else 0xe008 ∷ 2 ∷ e.name
]

-- The first path is a drive, so the window opens with the drives.
unfoldable pub open_fm : Phone → Manager → Out Manager
open_fm p m = elim (parent (codes "0:\\")) [
  | none ↦ ok (root_menu p m)
  | some path ↦ (do
    r ← find_files_fm p.dir p.root path
    ok (record m { files = r.0; items = r.1; header = take 127 path }))
]
