-- ===== src/Oms/Examples.antt =====
-- A small page, a phone without images, and an `inflate` that hands its input on.
use elfloader3_elfs_archive.Prelude.{
  ℕ, ◌+◌, ◌≡◌, refl, false, Bytes, List, length, ok, [], ◌∷◌, Option, none, Avoids, arith,
}
use elfloader3_elfs_archive.Encoding.Utf8.{oms2ws}
use elfloader3_elfs_archive.Oms.State.{ParseState, blank_ref, View, ViewData, Env, no_index}
use elfloader3_elfs_archive.Oms.Items.{add_text_item}
use elfloader3_elfs_archive.Oms.Items.Text.{insert_all, add_text_item-oms2ws}
use elfloader3_elfs_archive.Oms.Loop.{
  Inflated, Page, step, returned, parse_loop, loop_fuel, data_arrived,
}
use elfloader3_elfs_archive.Prelude.{fault, picture_past_end}
use elfloader3_elfs_archive.Oms.Pictures.{
  add_to_dpng_queue, add_picture_item_rgba, convert_rgba_to_rgb8, convert_pixels,
}
use elfloader3_elfs_archive.Oms.Pictures.Queue.{
  HasOwnIcons, Queued, EndsAtNone, add_to_dpng_queue-Queued,
}
use elfloader3_elfs_archive.Oms.Shape.{Safe, IsPageFault, progress}
use elfloader3_elfs_archive.Oms.RoundTrip.{
  Item, text, line_break, print_all, show_all, AreItems, placed, at_tag,
}
use elfloader3_elfs_archive.Oms.RoundTrip.Pages.{page_of, parse_loop-print_all}
use elfloader3_elfs_archive.Oms.Safety.Step.{step-Safe}
use elfloader3_elfs_archive.Oms.Safety.Arrival.{PageShape, data_arrived-Safe}

abbrev pub phone : Env
phone = record {
  text_w = 120;
  font_height = 10;
  symbol_width = λ c. 6;
  pic_n = λ i. 100 + i;
  png_decoder = λ s. record { asked = 0; decoded = none };
  jpg_decoder = λ s. record { asked = 0; decoded = none };
  resource = λ name. none;
  user_text_by_ref_id = λ r. none;
  user_list_by_ref_id = λ r. none;
  print_hex = λ n. b'0' ∷ [];
  print_dec = λ n. b'0' ∷ [];
  authcode_write_file = false;
  mode_url = false;
}

abbrev empty_view : View
empty_view = record {
  rawtext = [];
  rawtext_cap = 0;
  ref_cache = [];
  ref_cache_cap = 0;
  work_ref = blank_ref;
  work_ref_z = blank_ref;
  pos_cur_ref = 0;
  s_cache = [];
  current_tag_s = 0;
  prev_tag_s = 0;
  current_tag_d = 0;
  ref_mode_i = 0;
  ref_mode_p = 0;
  dynpng_list = [];
  wchar_hr = 0;
  wchar_button_on = 0;
  wchar_button_off = 0;
  wchar_radio_on = 0;
  wchar_radio_off = 0;
  wchar_text_form = 0;
  wchar_list_form = 0;
}

abbrev new_parser : ViewData
new_parser = record {
  oms_pos = 0;
  oms_wanted = 0;
  parse_state = ParseState.begin;
  iw = 0;
  ih = 0;
  tag_o_count = 0;
  page_sz = 0;
  loaded_sz = 0;
  pageurl = none;
  title = none;
  auth_prefix = [];
  auth_code = [];
  events = [];
  view = empty_view;
}

-- A parser that has the first header in front of it.
abbrev at_header : ViewData
at_header = record new_parser { oms_wanted = 6; parse_state = ParseState.hdr_common }

abbrev pub header : Bytes
header = 0x18 ∷ 0x33 ∷ 0 ∷ 0 ∷ 0 ∷ 60 ∷ []

abbrev pub stored : ℕ → Bytes → ℕ → Inflated ℕ
stored z input len = record { stream = z; rest = []; output = input; error = none }

abbrev pub new_page : Page ℕ
new_page = record { oms = []; zs = none; vd = new_parser }

step-Safe_example : Safe header (progress at_header) (step phone header at_header)
step-Safe_example = step-Safe phone header at_header (omega arith) (omega arith)

data_arrived-Safe_example :
    Avoids IsPageFault PageShape (data_arrived (0, none) stored phone 10 new_page header)
data_arrived-Safe_example = data_arrived-Safe (0, none) stored phone 10 new_page header refl

add_text_item-oms2ws_example :
    add_text_item empty_view (b'a' ∷ 0xD0 ∷ 0x96 ∷ [])
    ≡ insert_all empty_view (oms2ws (b'a' ∷ 0xD0 ∷ 0x96 ∷ []))
add_text_item-oms2ws_example = add_text_item-oms2ws empty_view (b'a' ∷ 0xD0 ∷ 0x96 ∷ [])

abbrev items : List Item
items = text 0 2 (b'H' ∷ b'i' ∷ []) ∷ line_break ∷ []

items-AreItems : AreItems items
unfolding AreItems
items-AreItems = (refl, (tt, tt))

parse_loop-print_all_example :
    parse_loop
      (loop_fuel (page_of header items []))
      phone
      (page_of header items [])
      (at_tag new_parser (b't' ∷ []) (length header) empty_view)
    ≡ ok (
        returned (
          placed new_parser
            (b't' ∷ [])
            ParseState.stop
            (length header + length (print_all items))
            (length header + length (print_all items) + 1)
            (show_all empty_view items)))
parse_loop-print_all_example =
    parse_loop-print_all phone new_parser (b't' ∷ []) header [] empty_view items items-AreItems

-- A picture is in the queue under the first character that the next one tries.
abbrev taken : View
taken = record empty_view {
  dynpng_list =
      record {
        image = record { w = 1; h = 1 };
        icon = 100 + 0xE102;
        w_char = 0xE102;
        index = no_index;
      }
      ∷ [];
}

phone-HasOwnIcons : HasOwnIcons phone
phone-HasOwnIcons a b e real = omega (arith, e)

add_to_dpng_queue-Queued_example :
    (wchar : Option ℕ) × (v' : View) × (add_to_dpng_queue phone taken
        (record { w = 5; h = 5 })
        no_index
      ≡ ok (wchar, v'))
    × Queued phone (record { w = 5; h = 5 }) taken.dynpng_list wchar v'.dynpng_list
    × EndsAtNone v'.dynpng_list
add_to_dpng_queue-Queued_example =
    add_to_dpng_queue-Queued phone phone-HasOwnIcons taken (record { w = 5; h = 5 }) no_index
      (λ real. refl)

-- An image of one pixel with no bytes at all.
rgba_reads_behind : add_picture_item_rgba phone empty_view [] 1 1 ≡ fault picture_past_end
unfolding add_picture_item_rgba convert_rgba_to_rgb8 convert_pixels
rgba_reads_behind = refl
