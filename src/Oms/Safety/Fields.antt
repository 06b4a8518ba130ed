-- ===== src/Oms/Safety/Fields.antt =====
-- The items of forms: an input field reads the string at the place that it is given, the others read
-- nothing of the page.
use elfloader3_elfs_archive.Prelude.{
  ℕ, zero, suc, ◌+◌, ◌-◌, ◌≤◌, ◌≡◌, inl, inr, Bytes, List, Option, none, some, ok, faults,
  Bool-cases, get_elem?, ltb, leb, le→leb, length, ◌==◌, ◌||◌,
}
use elfloader3_elfs_archive.Encoding.Compare.{short_at, slice_at, extract_omstr, noref}
use elfloader3_elfs_archive.Oms.State.{View, Env}
use elfloader3_elfs_archive.Oms.Forms.{
  radio_images, add_radio_button, button_images, add_check_box_item, text_form_image, input_text,
  add_input_item, cut_label, dot_label, fit_label, add_button_item, list_form_image,
  add_drop_down_list,
}
use elfloader3_elfs_archive.Oms.Safety.Calls.{
  NoRead, NoRead-ok, NoRead-bind, NoRead-if, NoRead-or_fault, index_benign, pointer_benign,
  add_picture_item_file-NoRead, queue_image-NoRead,
}

ruleset runs = (NoRead-ok, NoRead-bind, NoRead-if)

module _ (env : Env) where
  pub add_radio_button-NoRead : (v : View) (c : ℕ) → NoRead (add_radio_button env v c)
  unfolding add_radio_button radio_images
  add_radio_button-NoRead v c = search (runs, add_picture_item_file-NoRead) depth 8

  pub add_check_box_item-NoRead : (v : View) (c : ℕ) → NoRead (add_check_box_item env v c)
  unfolding add_check_box_item button_images
  add_check_box_item-NoRead v c = search (runs, add_picture_item_file-NoRead) depth 8

  cut_label-NoRead : (wsbody : List ℕ) (n cw : ℕ) → NoRead (cut_label env wsbody n cw)
  unfolding cut_label
  cut_label-NoRead wsbody zero cw = NoRead-if (ltb env.text_w cw) (faults index_benign) NoRead-ok
  cut_label-NoRead wsbody (suc n) cw =
      NoRead-if (ltb env.text_w cw)
        (NoRead-bind (NoRead-or_fault _ (get_elem? wsbody (suc n)) index_benign)
          λ c. cut_label-NoRead wsbody n (cw - env.symbol_width c))
        NoRead-ok

  dot_label-NoRead : (wsbody : List ℕ) (n : ℕ) → NoRead (dot_label wsbody n)
  unfolding dot_label
  dot_label-NoRead wsbody n = NoRead-if (ltb n 2) (faults index_benign) NoRead-ok

  fit_label-NoRead : (ws : List ℕ) → NoRead (fit_label env ws)
  unfolding fit_label
  fit_label-NoRead ws = search (runs, cut_label-NoRead, dot_label-NoRead) depth 8

  pub add_button_item-NoRead : (v : View) (text : Bytes) → NoRead (add_button_item env v text)
  unfolding add_button_item
  add_button_item-NoRead v text = search (runs, fit_label-NoRead, queue_image-NoRead) depth 8

  pub add_drop_down_list-NoRead : (v : View) → NoRead (add_drop_down_list env v)
  unfolding add_drop_down_list list_form_image
  add_drop_down_list-NoRead v = search (runs, add_picture_item_file-NoRead) depth 8

  -- The string at `position` lies in the page.
  extract_omstr-NoRead :
      (oms : Bytes) (position n : ℕ)
      → short_at oms position ≡ ok n
      → position + 2 + n ≤ length oms
      → NoRead (extract_omstr oms position)
  unfolding extract_omstr slice_at
  extract_omstr-NoRead oms position n e fits =
      elim (Bool-cases (leb (length oms) position || position == noref)) [
        | inl out ↦ rw out NoRead-ok
        | inr inside ↦ rw (inside, e, le→leb _ _ fits) NoRead-ok
      ]

  input_text-NoRead :
      (oms : Bytes) (saved : Option (List ℕ)) (position n : ℕ)
      → short_at oms position ≡ ok n
      → position + 2 + n ≤ length oms
      → NoRead (input_text oms saved position)
  unfolding input_text
  input_text-NoRead oms (some saved) position n e fits = NoRead-ok
  input_text-NoRead oms none position n e fits = rw e (
      NoRead-bind (extract_omstr-NoRead oms position n e fits)
        λ c. NoRead-bind (NoRead-or_fault _ c pointer_benign) λ text. NoRead-ok)

  pub add_input_item-NoRead :
      (oms : Bytes) (v : View) (position n : ℕ)
      → short_at oms position ≡ ok n
      → position + 2 + n ≤ length oms
      → NoRead (add_input_item env oms v position)
  unfolding add_input_item text_form_image
  add_input_item-NoRead oms v position n e fits =
      search
        (
          runs,
          add_picture_item_file-NoRead,
          λ (saved : Option (List ℕ)). input_text-NoRead oms saved position n e fits,
        )
        depth 8
