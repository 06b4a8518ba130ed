-- ===== src/History/Examples.antt =====
-- A history of two addresses, of which one is visited again.
use elfloader3_elfs_archive.Prelude.{◌≡◌, refl, true, Bytes, [], ◌∷◌, some, ok, arith}
use elfloader3_elfs_archive.History.{add_url_to_history, get_history, same_text}
use elfloader3_elfs_archive.History.Lines.{
  IsLine, line_end, line_byte, no_lines, line_more, file_of,
}
use elfloader3_elfs_archive.History.Adding.{remove_url}
use elfloader3_elfs_archive.History.Recent.{recent, saved, get_history-add_url}

abbrev a_line : Bytes
a_line = 97 ∷ 46 ∷ []

abbrev b_line : Bytes
b_line = 98 ∷ []

a_line-IsLine : IsLine a_line
a_line-IsLine = line_byte refl refl (line_byte refl refl line_end)

b_line-IsLine : IsLine b_line
b_line-IsLine = line_byte refl refl line_end

recent_test : recent 3 b_line (a_line ∷ b_line ∷ []) ≡ b_line ∷ a_line ∷ []
unfolding remove_url same_text
recent_test = refl

add_url_test :
    add_url_to_history 3 true true b_line (some (file_of (a_line ∷ b_line ∷ [])))
    ≡ ok (saved (98 ∷ 13 ∷ 10 ∷ 97 ∷ 46 ∷ 13 ∷ 10 ∷ []))
unfolding add_url_to_history
add_url_test = refl

get_history-add_url_example :
    (add_url_to_history 3 true true b_line (some (file_of (a_line ∷ b_line ∷ [])))
      ≡ ok (saved (file_of (recent 3 b_line (a_line ∷ b_line ∷ [])))))
    × (get_history 3 (some (file_of (recent 3 b_line (a_line ∷ b_line ∷ []))))
        ≡ ok (some (recent 3 b_line (a_line ∷ b_line ∷ []))))
get_history-add_url_example =
    get_history-add_url 2 b_line a_line (b_line ∷ []) b_line-IsLine
      (line_more a_line-IsLine (line_more b_line-IsLine no_lines)) (omega arith) (omega arith)
