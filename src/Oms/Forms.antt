-- ===== src/Oms/Forms.antt =====
-- The items of a form (additems.c): radio buttons, check boxes, input fields, buttons and lists.
use elfloader3_elfs_archive.Prelude.{
  ℕ, zero, suc, ◌+◌, ◌-◌, Bytes, List, [], ◌∷◌, Option, none, some, Out, ok, fault, bad_index,
  bad_pointer, or_fault, ◌>>=◌, length, take, set, get_elem?, ltb, ◌==◌, if◌then◌else◌,
}
use elfloader3_elfs_archive.Encoding.Compare.{short_at, extract_omstr}
use elfloader3_elfs_archive.Encoding.Utf8.{oms2ws}
use elfloader3_elfs_archive.Oms.State.{View, RefCache, wide, Env}
use elfloader3_elfs_archive.Oms.Items.{raw_insert_char}
use elfloader3_elfs_archive.Oms.Pictures.{create_button, add_picture_item_file, queue_image}
use Prim.Native.Char.{code}
use Prim.Native.String.{String}
use elfloader3_elfs_archive.Oms.State.{no_index}

-- The bytes of an ASCII literal.
abbrev pub codes : String → Bytes
codes String.[] = []
codes (String.◌∷◌ c s) = code c ∷ codes s

-- The images of radio buttons and of check boxes are loaded once.
unfoldable pub radio_images : Env → View → Out View
unfolding add_picture_item_file
radio_images env v = do
  (on, v1) ← add_picture_item_file env v (codes "$resources\\radio_bttn_clkd.png")
  (off, v2) ←
      add_picture_item_file env (record v1 { wchar_radio_on = on })
        (codes "$resources\\radio_bttn.png")
  ok (record v2 { wchar_radio_off = off })

unfoldable pub add_radio_button : Env → View → ℕ → Out View
unfolding radio_images
add_radio_button env v checked = do
  v' ← (if v.wchar_radio_on == 0 then radio_images env v else ok v)
  ok (raw_insert_char v' (if checked == 0 then v'.wchar_radio_off else v'.wchar_radio_on))

unfoldable pub button_images : Env → View → Out View
unfolding add_picture_item_file
button_images env v = do
  (on, v1) ← add_picture_item_file env v (codes "$resources\\button_clkd.png")
  (off, v2) ←
      add_picture_item_file env (record v1 { wchar_button_on = on })
        (codes "$resources\\button.png")
  ok (record v2 { wchar_button_off = off })

unfoldable pub add_check_box_item : Env → View → ℕ → Out View
unfolding button_images
add_check_box_item env v checked = do
  v' ← (if v.wchar_button_on == 0 then button_images env v else ok v)
  ok (raw_insert_char v' (if checked == 0 then v'.wchar_button_off else v'.wchar_button_on))

abbrev pub set_ref_data : View → List ℕ → View
set_ref_data v ws = let r = v.work_ref in record v { work_ref = record r { ref_data = wide ws } }

unfoldable pub text_form_image : Env → View → Out View
unfolding add_picture_item_file
text_form_image env v = do
  (form, v') ← add_picture_item_file env v (codes "$resources\\text_form.png")
  ok (record v' { wchar_text_form = form })

-- The text that the user left in the field, or else the page's. `oms2ws` is given a null pointer
-- where `extract_omstr` found nothing.
unfoldable pub input_text : Bytes → Option (List ℕ) → ℕ → Out (List ℕ)
input_text oms (some saved) position = ok saved
input_text oms none position = do
  len ← short_at oms position
  c ← extract_omstr oms position
  text ← or_fault bad_pointer c
  ok (oms2ws (take len text))

unfoldable pub add_input_item : Env → Bytes → View → ℕ → Out View
unfolding text_form_image input_text
add_input_item env oms v position = do
  v1 ← (if v.wchar_text_form == 0 then text_form_image env v else ok v)
  let v2 = raw_insert_char v1 v1.wchar_text_form
  text ← input_text oms (env.user_text_by_ref_id v2.work_ref.id) position
  ok (set_ref_data v2 text)

abbrev pub text_width : Env → List ℕ → ℕ
text_width env [] = 0
text_width env (c ∷ cs) = env.symbol_width c + text_width env cs

-- `while (cw > max) cw -= GetSymbolWidth(wsbody[datalen--])`: the width and the length that are left.
-- The length goes on below zero: its end is a bad index.
unfoldable pub cut_label : Env → List ℕ → ℕ → ℕ → Out (ℕ × ℕ)
cut_label env wsbody zero cw = if ltb env.text_w cw then fault bad_index else ok (cw, 0)
cut_label env wsbody (suc n) cw =
    let shorter : Out (ℕ × ℕ) = (do
      c ← or_fault bad_index (get_elem? wsbody (suc n))
      cut_label env wsbody n (cw - env.symbol_width c)) in
    if ltb env.text_w cw then shorter else ok (cw, suc n)

-- The last three units of what is left become dots. With fewer than three units the dots run into
-- the unit 0, which holds the length, and in front of it.
unfoldable pub dot_label : List ℕ → ℕ → Out (List ℕ)
dot_label wsbody datalen =
    if ltb datalen 2
    then fault bad_index
    else ok
        (set (set (set (set wsbody 0 datalen) datalen 0x2E) (datalen - 1) 0x2E) (datalen - 2) 0x2E)

-- A wide string from its body: the unit 0 is the length.
abbrev pub of_wsbody : List ℕ → List ℕ
of_wsbody [] = []
of_wsbody (n ∷ body) = take n body

-- The width of the button, and its label.
unfoldable pub fit_label : Env → List ℕ → Out (ℕ × List ℕ)
unfolding cut_label dot_label
fit_label env ws =
    let cw = text_width env ws + 8 in
    let shortened : Out (ℕ × List ℕ) = (do
      (cw', datalen) ← cut_label env (length ws ∷ ws) (length ws) cw
      body ← dot_label (length ws ∷ ws) datalen
      ok (cw', of_wsbody body)) in
    if ltb env.text_w cw then shortened else ok (cw, ws)

unfoldable pub add_button_item : Env → View → Bytes → Out View
unfolding fit_label queue_image
add_button_item env v text = do
  (cw, ws) ← fit_label env (oms2ws text)
  (wchar, v') ←
      queue_image env (set_ref_data v ws) (create_button cw (env.font_height + 6)) no_index
  ok (raw_insert_char v' wchar)

unfoldable pub list_form_image : Env → View → Out View
unfolding add_picture_item_file
list_form_image env v = do
  (form, v') ← add_picture_item_file env v (codes "$resources\\list.png")
  ok (record v' { wchar_list_form = form })

-- The choice that the user made before, if there is one.
unfoldable pub restore_choice : Option (ℕ × ℕ) → RefCache → RefCache
restore_choice none r = r
restore_choice (some (value, id2)) r = record r { value = value; id2 = id2 }

unfoldable pub add_drop_down_list : Env → View → Out View
unfolding list_form_image restore_choice
add_drop_down_list env v = do
  v1 ← (if v.wchar_list_form == 0 then list_form_image env v else ok v)
  let r = v1.work_ref
  let v2 = record v1 { work_ref = restore_choice (env.user_list_by_ref_id r.id) r }
  ok (raw_insert_char v2 v2.wchar_list_form)
