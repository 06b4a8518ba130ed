-- ===== src/Bookmarks/Written.antt =====
-- That a bookmark which was written is opened with its address.
use elfloader3_elfs_archive.Prelude.{
  ℕ, ◌<◌, ◌≡◌, refl, ◌∙◌, true, false, Bytes, [], ◌∷◌, ◌++◌, some, ok, eq_bind, length, leb, ◌==◌,
  if_false, arith,
}
use elfloader3_elfs_archive.Oms.Forms.{codes}
use elfloader3_elfs_archive.Startup.Address.{Viewed, Files, mode_url, first_word, read_url_file}

-- No blank and no control character.
pub data IsUrl : Bytes → Type 0 where
  url_end : IsUrl []
  url_byte : {c : ℕ} {s : Bytes} → leb c 32 ≡ false → IsUrl s → IsUrl (c ∷ s)

first_word-IsUrl : (s : Bytes) → IsUrl s → first_word (s ++ 0 ∷ []) ≡ ok s
unfolding first_word
first_word-IsUrl [] url_end = refl
first_word-IsUrl (c ∷ s) (url_byte h hs) = if_false _ _ _ h ∙ eq_bind _ (first_word-IsUrl s hs)

-- A file that holds an address without blanks is read as that address behind `0/`, whatever was there.
pub read_url_file-IsUrl :
    (files : Files) (name url : Bytes) (v : Viewed)
    → files name ≡ some url
    → 0 < length url
    → IsUrl url
    → read_url_file files name v
      ≡ ok (record { view_url = some (codes "0/" ++ url); view_url_mode = mode_url }, true)
unfolding read_url_file
read_url_file-IsUrl files name url v held nonempty h =
    rw (held, read_url_file)
      (if_false (length url == 0) _ _ (ground (arith, nonempty))
        ∙ eq_bind _ (first_word-IsUrl (48 ∷ 47 ∷ url) (url_byte refl (url_byte refl h))))
