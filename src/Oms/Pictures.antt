-- ===== src/Oms/Pictures.antt =====
-- The pictures of a page (additems.c): each is a character from 0xE101 on, in a queue of pictures.
-- Of an image the size is kept. The readers of the images (readimg.c) stand over the two libraries' decoders.
pub mod Queue
use elfloader3_elfs_archive.Prelude.{
  ℕ, zero, suc, ◌+◌, ◌*◌, ◌/◌, ◌%◌, leb, or_fault, picture_past_end, ◌^◌, Bool, true, false, Bytes,
  List, [], ◌∷◌, ◌++◌, Option, none, some, Out, ok, fault, out_of_fuel, ◌>>=◌, length, ltb, ◌==◌,
  if◌then◌else◌, ◌&&◌, ◌||◌,
}
use elfloader3_elfs_archive.Oms.State.{
  View, Image, Picture, PicIndex, numbered, no_index, is_frame, Env, Decoded,
}
use elfloader3_elfs_archive.Oms.Items.{raw_insert_char}

abbrev pub first_ucs2_user_bitmap : ℕ
first_ucs2_user_bitmap = 0xE100

-- The first picture of the queue with the index is the one that is shown.
unfoldable pub find_by_index : List Picture → ℕ → ℕ
find_by_index [] index = first_ucs2_user_bitmap
find_by_index (p ∷ ps) index = elim p.index [
  | numbered n ↦ if n == index then p.w_char else find_by_index ps index
  | _ ↦ find_by_index ps index
]

unfoldable pub add_picture_item_index : View → ℕ → View
unfolding find_by_index
add_picture_item_index v index = raw_insert_char v (find_by_index v.dynpng_list index)

abbrev pub is_numbered : PicIndex → Bool
is_numbered (numbered n) = true
is_numbered _ = false

abbrev pub count_numbered : List Picture → ℕ
count_numbered [] = 0
count_numbered (p ∷ ps) = (if is_numbered p.index then 1 else 0) + count_numbered ps

abbrev pub has_icon : List Picture → ℕ → Bool
has_icon [] icon = false
has_icon (p ∷ ps) icon = icon == p.icon || has_icon ps icon

abbrev pub last_icon : Picture → List Picture → ℕ
last_icon p [] = p.icon
last_icon p (q ∷ qs) = last_icon q qs

-- From `wchar` on, the first character whose icon no picture of the queue has: on a clash the scan
-- begins again with the next character.
unfoldable pub free_wchar : Env → ℕ → List Picture → ℕ → Out ℕ
free_wchar env zero queue wchar = fault out_of_fuel
free_wchar env (suc k) queue wchar =
    let again = free_wchar env k queue (wchar + 1) in
    if has_icon queue (env.pic_n wchar) then again else ok wchar

abbrev pub fit_width : Env → Image → Image
fit_width env img = if ltb env.text_w img.w then record img { w = env.text_w } else img

-- The queue with the new picture, and its character, unless the last icon says that no more fit. The
-- search is given a round for each picture and one more.
unfoldable pub extend_queue : Env → List Picture → Image → PicIndex → Out (Option ℕ × List Picture)
unfolding free_wchar
extend_queue env [] img is_index =
    let wchar = first_ucs2_user_bitmap + 1 in
    ok (
      some wchar,
      record {
        image = img;
        icon = env.pic_n wchar;
        w_char = wchar;
        index = if is_numbered is_index then numbered 0 else is_index;
      }
          ∷ [],
    )
extend_queue env (p ∷ ps) img is_index =
    let queue = p ∷ ps in
    let queued : Out (Option ℕ × List Picture) = (do
      wchar ← free_wchar env (length queue + 1) queue (first_ucs2_user_bitmap + 1 + length queue)
      ok (
        some wchar,
        queue
            ++ record {
              image = img;
              icon = env.pic_n wchar;
              w_char = wchar;
              index = if is_numbered is_index then numbered (count_numbered queue) else is_index;
            }
              ∷ [],
      )) in
    if last_icon p ps == 0xFFFF then ok (none, queue) else queued

unfoldable pub add_to_dpng_queue : Env → View → Image → PicIndex → Out (Option ℕ × View)
unfolding extend_queue
add_to_dpng_queue env v img is_index = do
  (wchar, queue) ← extend_queue env v.dynpng_list (fit_width env img) is_index
  ok (wchar, record v { dynpng_list = queue })

-- The character that stands for a picture which could not be made or queued.
abbrev pub or_missing : Option ℕ → ℕ
or_missing none = first_ucs2_user_bitmap
or_missing (some w) = w

unfoldable pub queue_image : Env → View → Option Image → PicIndex → Out (ℕ × View)
unfolding add_to_dpng_queue
queue_image env v none _ = ok (first_ucs2_user_bitmap, v)
queue_image env v (some img) slot = do
  (wchar, v') ← add_to_dpng_queue env v img slot
  ok (or_missing wchar, v')

-- `read_data_fn` and the source of the other reader give as many bytes as are asked for, and know no end.
unfoldable pub read_image : (Bytes → Decoded) → Bytes → Out (Option Image)
read_image decoder buf =
    let r = decoder buf in if leb r.asked (length buf) then ok r.decoded else fault picture_past_end

unfoldable pub read_pngimg : Env → Bytes → Out (Option Image)
unfolding read_image
read_pngimg env buf = read_image env.png_decoder buf

unfoldable pub read_jpgimg : Env → Bytes → Out (Option Image)
unfolding read_image
read_jpgimg env buf = read_image env.jpg_decoder buf

-- Of a pixel that is not opaque only the first byte is read.
abbrev pub skip_three : Bytes → Bytes
skip_three (a ∷ b ∷ c ∷ s) = s
skip_three s = []

abbrev pub colour_of : Bytes → Option ℕ
colour_of (r ∷ g ∷ b ∷ s) = some (r / 8 * 2048 + g / 4 * 32 + b / 8)
colour_of s = none

-- The loops of `ConvertRGBAToRGB8` on so many pixels, which ask for no end of `buf`.
unfoldable pub convert_pixels : ℕ → Bytes → Out (List ℕ)
convert_pixels zero buf = ok []
convert_pixels (suc k) [] = fault picture_past_end
convert_pixels (suc k) (a ∷ buf) = do
  c ← if ltb a 255 then ok 0xE000 else or_fault picture_past_end (colour_of buf)
  rest ← convert_pixels k (skip_three buf)
  ok (c ∷ rest)

unfoldable pub convert_rgba_to_rgb8 : Bytes → ℕ → ℕ → Out (Option Image)
unfolding convert_pixels
convert_rgba_to_rgb8 buf width height = do
  bitmap ← convert_pixels (width * height) buf
  ok (some (record { w = width; h = height }))

-- The images that the program draws itself, of which the size is kept.
abbrev pub create_frame : ℕ → ℕ → Option Image
create_frame width height = some (record { w = width; h = height })

abbrev pub create_delimiter : ℕ → ℕ → Option Image
create_delimiter width height = some (record { w = width; h = height })

abbrev pub create_button : ℕ → ℕ → Option Image
create_button width height = some (record { w = width; h = height })

-- The picture is its bytes: the pointer to it is never null here.
unfoldable pub add_picture_item : Env → View → Bytes → Out View
unfolding queue_image read_pngimg read_jpgimg
add_picture_item env v picture = do
  png ← read_pngimg env picture
  img ← elim png [ none ↦ read_jpgimg env picture | some i ↦ ok (some i) ]
  (wchar, v') ← queue_image env v img (numbered 0)
  ok (raw_insert_char v' wchar)

unfoldable pub add_picture_item_rgba : Env → View → Bytes → ℕ → ℕ → Out View
unfolding queue_image convert_rgba_to_rgb8
add_picture_item_rgba env v picture width height = do
  img ← convert_rgba_to_rgb8 picture width height
  (wchar, v') ← queue_image env v img no_index
  ok (raw_insert_char v' wchar)

unfoldable pub find_oms_frame_by_size : List Picture → ℕ → ℕ → Option Picture
find_oms_frame_by_size [] width height = none
find_oms_frame_by_size (p ∷ ps) width height = elim p.index [
  | is_frame ↦
      if p.image.w == width && p.image.h == height
      then some p
      else find_oms_frame_by_size ps width height
  | _ ↦ find_oms_frame_by_size ps width height
]

unfoldable pub add_picture_item_frame : Env → View → ℕ → ℕ → Out View
unfolding queue_image find_oms_frame_by_size
add_picture_item_frame env v width height =
    elim (find_oms_frame_by_size v.dynpng_list width height) [
      | some p ↦ ok (raw_insert_char v p.w_char)
      | none ↦ do
        (wchar, v') ← queue_image env v (create_frame width height) is_frame
        ok (raw_insert_char v' wchar)
    ]

-- The line is made once, and only a queued one is kept for the next time.
unfoldable pub keep_hr : Option ℕ → View → Out View
keep_hr none v = ok (raw_insert_char v first_ucs2_user_bitmap)
keep_hr (some w) v = ok (raw_insert_char (record v { wchar_hr = w % 2 ^ 16 }) w)

unfoldable pub hr_wchar : Env → View → Option Image → Out View
unfolding add_to_dpng_queue keep_hr
hr_wchar env v none = ok (raw_insert_char v first_ucs2_user_bitmap)
hr_wchar env v (some img) = do (wchar, v') ← add_to_dpng_queue env v img no_index; keep_hr wchar v'

unfoldable pub add_picture_item_hr : Env → View → Out View
unfolding hr_wchar
add_picture_item_hr env v =
    if v.wchar_hr == 0
    then hr_wchar env v (create_delimiter env.text_w 3)
    else ok (raw_insert_char v v.wchar_hr)

-- The image of a resource file, if the file is there and can be read.
unfoldable pub add_picture_item_file : Env → View → Bytes → Out (ℕ × View)
unfolding queue_image
add_picture_item_file env v file = queue_image env v (env.resource file) no_index
