-- ===== src/Paths/Examples.antt =====
-- Names of files at a concrete folder.
use elfloader3_elfs_archive.Prelude.{
  ℕ, ◌≡◌, refl, Bytes, List, [], ◌∷◌, ok, fault, overflow, bad_index, true, arith,
}
use elfloader3_elfs_archive.Oms.Forms.{codes}
use elfloader3_elfs_archive.Paths.{
  Place, urlcache, date, time, expand, expand_byte, expand_macro, folders, make_dirs,
  get_symbolic_path, ballet_fexists,
}
use elfloader3_elfs_archive.Paths.Expansion.{
  Piece, plain, word, spelled, meaning, get_symbolic_path-spelled,
}

abbrev place : Place
place = record {
  ballet_path = codes "4:\\Zbin\\Ballet\\";
  date = codes "20261126";
  time = codes "184500";
}

abbrev mkdir : Bytes → ℕ
mkdir path = 1

-- The name of a saved address: `$urlcache\$date$time.url`.
abbrev saved : List Piece
saved =
    word urlcache
    ∷ plain 92 refl
    ∷ word date
    ∷ word time
    ∷ plain 46 refl
    ∷ plain 117 refl
    ∷ plain 114 refl
    ∷ plain 108 refl
    ∷ []

saved_name : spelled saved ≡ codes "$urlcache\\$date$time.url"
saved_name = refl

saved_path : meaning place saved ≡ codes "4:\\Zbin\\Ballet\\UrlCache\\20261126184500.url"
saved_path = refl

get_symbolic_path-spelled_example :
    get_symbolic_path mkdir place (spelled saved)
    ≡ ok (meaning place saved, folders (meaning place saved))
get_symbolic_path-spelled_example =
    get_symbolic_path-spelled mkdir place saved (omega arith) (omega arith) (omega arith)

folders_saved : folders (codes "4:\\a\\b.c") ≡ codes "4:\\" ∷ codes "4:\\a\\" ∷ []
unfolding folders
folders_saved = refl

lang_file :
    get_symbolic_path mkdir place (codes "$ballet\\lang.txt")
    ≡ ok (
      codes "4:\\Zbin\\Ballet\\lang.txt",
      codes "4:\\" ∷ codes "4:\\Zbin\\" ∷ codes "4:\\Zbin\\Ballet\\" ∷ [],
    )
unfolding get_symbolic_path expand expand_byte expand_macro make_dirs folders
lang_file = refl

-- Another byte behind the `$`: both stay.
unknown_word : expand place 40 0 (codes "a$x") [] ≡ ok (codes "a$x")
unfolding expand expand_byte
unknown_word = refl

-- The buffer is sized for one folder.
two_folders :
    get_symbolic_path mkdir
      (record place { ballet_path = codes "4:\\Zbin\\Programs\\Internet\\Browsers\\Ballet\\" })
      (codes "$pages$pages")
    ≡ fault overflow
unfolding get_symbolic_path expand expand_byte expand_macro
two_folders = refl

-- Before the path of the program is set, its folder begins before the buffer.
no_folder :
    get_symbolic_path mkdir (record place { ballet_path = [] }) (codes "$ballet") ≡ fault bad_index
unfolding get_symbolic_path expand expand_byte expand_macro
no_folder = refl

finds_file : ballet_fexists mkdir (λ path. true) place (codes "$root") ≡ ok true
unfolding ballet_fexists get_symbolic_path expand expand_byte expand_macro make_dirs
finds_file = refl
