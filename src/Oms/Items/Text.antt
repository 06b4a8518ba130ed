-- ===== src/Oms/Items/Text.antt =====
-- The text of a page: the loop of `AddTextItem` and the reader `oms2ws` of BalletMini/string_works.c.
use elfloader3_elfs_archive.Prelude.{◌≡◌, refl, ℕ, Bytes, List, [], ◌∷◌, Bool-cases, inl, inr}
use elfloader3_elfs_archive.Encoding.Utf8.{oms2ws, join2, join3, is_lead2, is_lead3}
use elfloader3_elfs_archive.Oms.State.{View}
use elfloader3_elfs_archive.Oms.Items.{add_text_item, raw_insert_char}

-- Units put into the view one after the other.
unfoldable pub insert_all : View → List ℕ → View
insert_all v [] = v
insert_all v (c ∷ ws) = insert_all (raw_insert_char v c) ws

-- The text of an item is put into the view as the units that `oms2ws` reads from it.
pub add_text_item-oms2ws : (v : View) (s : Bytes) → add_text_item v s ≡ insert_all v (oms2ws s)
unfolding add_text_item oms2ws insert_all
add_text_item-oms2ws v [] = refl
add_text_item-oms2ws v (c ∷ []) = refl
add_text_item-oms2ws v (c ∷ d ∷ []) = elim (Bool-cases (is_lead2 c)) [
  | inl e ↦ rw e refl
  | inr e ↦ rw (e, add_text_item-oms2ws (raw_insert_char v c) (d ∷ [])) refl
]
add_text_item-oms2ws v (c ∷ d ∷ e ∷ s) = elim (Bool-cases (is_lead2 c)) [
  | inl h ↦ rw (h, add_text_item-oms2ws (raw_insert_char v (join2 c d)) (e ∷ s)) refl
  | inr h ↦ elim (Bool-cases (is_lead3 c)) [
    | inl k ↦ rw (h, k, add_text_item-oms2ws (raw_insert_char v (join3 c d e)) s) refl
    | inr k ↦ rw (h, k, add_text_item-oms2ws (raw_insert_char v c) (d ∷ e ∷ s)) refl
  ]
]
