-- ===== src/Oms/State.antt =====
-- The part of VIEWDATA (BalletMini/view.h) that the parser keeps, the states of the parser
-- (parse_oms.h), and what the phone and the other files give to it.
use elfloader3_elfs_archive.Prelude.{
  ℕ, ◌+◌, ◌*◌, Bool, Bytes, List, Option, Out, or_fault, read_past_end, ◌>>=◌, ok, get_elem?,
}
use elfloader3_elfs_archive.Encoding.Compare.{noref, short_at}

-- enum IOMS_PARSESTATE
pub data ParseState : Type 0 where
  begin hdr_common hdr gziphdr pageurl_size pageurl_data tag_name tag_data : ParseState
  tag_A_stage3 tag_T_stage3 tag_I_stage3 tag_X_stage3 : ParseState
  tag_h_stage3 tag_h_stage4 tag_e_stage3 tag_e_stage4 tag_p_stage3 tag_p_stage4 : ParseState
  tag_u_stage3 tag_u_stage4 tag_x_stage3 tag_x_stage4 tag_c_stage3 tag_c_stage4 : ParseState
  tag_r_stage3 tag_r_stage4 tag_s_stage3 tag_o_stage3 tag_o_stage4 : ParseState
  tag_i_stage3 tag_i_stage4 tag_k_stage3 tag_L_stage3 tag_P_stage3 tag_Z_stage3 : ParseState
  tag_x5e_stage3 tag_x40_stage3 stop : ParseState

-- What `REFCACHE.data` points at: nothing known (all bits set), a wide string, or the bytes of a
-- drop-down list, of which those not yet written are `none`.
pub data RefData : Type 0 where
  unset : RefData
  wide : List ℕ → RefData
  options : List (Option ℕ) → RefData

-- REFCACHE. Words are 32 bits wide; a bit-field holds one bit.
pub record RefCache : Type 0 where
  pub begin : ℕ
  pub end : ℕ
  pub tag : ℕ
  pub id : ℕ
  pub value : ℕ
  pub id2 : ℕ
  pub ref_data : RefData
  pub size : ℕ
  pub no_upload : ℕ
  pub multiselect : ℕ
  pub upload_file_data_not_present : ℕ
  pub full_filename : ℕ

-- `memset(&ref, 0xFF, sizeof(REFCACHE))`
abbrev pub blank_ref : RefCache
blank_ref = record {
  begin = noref;
  end = noref;
  tag = noref;
  id = noref;
  value = noref;
  id2 = noref;
  ref_data = unset;
  size = noref;
  no_upload = 1;
  multiselect = 1;
  upload_file_data_not_present = 1;
  full_filename = noref;
}

pub record Image : Type 0 where
  pub w : ℕ
  pub h : ℕ

-- `OMS_DYNPNGLIST.index`: a number from 0 on, DP_IS_NOINDEX or DP_IS_FRAME.
pub data PicIndex : Type 0 where
  numbered : ℕ → PicIndex
  no_index is_frame : PicIndex

-- What libpng or libjpeg makes of a picture: how many bytes it asks for, and the image.
pub record Decoded : Type 0 where
  pub asked : ℕ
  pub decoded : Option Image

pub record Picture : Type 0 where
  pub image : Image
  pub icon : ℕ
  pub w_char : ℕ
  pub index : PicIndex

-- The view that the items are put into. `rawtext_cap` and `ref_cache_cap` are the room allocated,
-- in elements. TAG_S and TAG_D are kept as the words that their bit-fields lie in.
pub record View : Type 0 where
  pub rawtext : List ℕ
  pub rawtext_cap : ℕ
  pub ref_cache : List RefCache
  pub ref_cache_cap : ℕ
  pub work_ref : RefCache
  pub work_ref_z : RefCache
  pub pos_cur_ref : ℕ
  pub s_cache : List ℕ
  pub current_tag_s : ℕ
  pub prev_tag_s : ℕ
  pub current_tag_d : ℕ
  pub ref_mode_i : ℕ
  pub ref_mode_p : ℕ
  pub dynpng_list : List Picture
  pub wchar_hr : ℕ
  pub wchar_button_on : ℕ
  pub wchar_button_off : ℕ
  pub wchar_radio_on : ℕ
  pub wchar_radio_off : ℕ
  pub wchar_text_form : ℕ
  pub wchar_list_form : ℕ

-- Calls that leave the parser: the window's name, the history file, the file of the access codes.
pub data Event : Type 0 where
  update_csm_name : Bytes → Event
  add_url_to_history : Bytes → Event
  save_auth_code : Bytes → Bytes → Event

-- The parser. The bytes of the page, `oms` and `oms_size`, are kept beside it: no step writes them.
pub record ViewData : Type 0 where
  pub oms_pos : ℕ
  pub oms_wanted : ℕ
  pub parse_state : ParseState
  pub iw : ℕ
  pub ih : ℕ
  pub tag_o_count : ℕ
  pub page_sz : ℕ
  pub loaded_sz : ℕ
  pub pageurl : Option Bytes
  pub title : Option Bytes
  pub auth_prefix : Bytes
  pub auth_code : Bytes
  pub events : List Event
  pub view : View

-- The phone's functions, `%X` and `%u` of `sprintf`, the decoders of libpng and libjpeg, the settings, and the answers of the page stack.
pub record Env : Type 0 where
  pub text_w : ℕ
  pub font_height : ℕ
  pub symbol_width : ℕ → ℕ
  pub pic_n : ℕ → ℕ
  pub png_decoder : Bytes → Decoded
  pub jpg_decoder : Bytes → Decoded
  pub resource : Bytes → Option Image
  pub user_text_by_ref_id : ℕ → Option (List ℕ)
  pub user_list_by_ref_id : ℕ → Option (ℕ × ℕ)
  pub print_hex : ℕ → Bytes
  pub print_dec : ℕ → Bytes
  pub authcode_write_file : Bool
  pub mode_url : Bool

-- What a step of the parser leads to: the next round of the loop, a return from the function, or
-- the start of decompression.
pub data Outcome : Type 0 where
  next : ViewData → Outcome
  leave : ViewData → Outcome
  zinit : ViewData → Outcome

abbrev pub with_view : ViewData → View → ViewData
with_view vd v = record vd { view = v }

-- `_rbyte`, `_rshort` and `_rlong` move `oms_pos` on.
unfoldable pub rbyte : Bytes → ViewData → Out (ℕ × ViewData)
rbyte oms vd = do
  b ← or_fault read_past_end (get_elem? oms vd.oms_pos)
  ok (b, record vd { oms_pos = vd.oms_pos + 1 })

unfoldable pub rshort : Bytes → ViewData → Out (ℕ × ViewData)
rshort oms vd = do n ← short_at oms vd.oms_pos; ok (n, record vd { oms_pos = vd.oms_pos + 2 })

unfoldable pub rlong : Bytes → ViewData → Out (ℕ × ViewData)
rlong oms vd = do
  hi ← short_at oms vd.oms_pos
  lo ← short_at oms (vd.oms_pos + 2)
  ok (hi * 65536 + lo, record vd { oms_pos = vd.oms_pos + 4 })
