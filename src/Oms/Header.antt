-- ===== src/Oms/Header.antt =====
-- The states of parse_oms.c in front of the first tag: the header and the address of the page.
use elfloader3_elfs_archive.Prelude.{
  ℕ, ◌+◌, ◌-◌, Bytes, ◌++◌, some, Out, ok, ◌>>=◌, ◌==◌, if◌then◌else◌,
}
use elfloader3_elfs_archive.Prelude.{[], ◌∷◌}
use elfloader3_elfs_archive.Encoding.Compare.{slice_at}
use elfloader3_elfs_archive.Encoding.Utf8.{utf82win}
use elfloader3_elfs_archive.Oms.State.{
  ParseState, blank_ref, ViewData, Env, Outcome, next, leave, zinit, with_view, rshort, rlong,
}
use elfloader3_elfs_archive.Oms.Items.{add_text_item, add_br_item}
use elfloader3_elfs_archive.Oms.Forms.{codes}

-- sizeof of the two packed headers (view.h)
abbrev pub sizeof_header_common : ℕ
sizeof_header_common = 6

abbrev pub sizeof_header_v2 : ℕ
sizeof_header_v2 = 35

-- A message in place of the rest of the page.
unfoldable pub give_up : ViewData → Bytes → Outcome
unfolding add_text_item add_br_item
give_up vd message = leave (record vd {
  parse_state = ParseState.stop;
  view = add_br_item (add_text_item vd.view message);
})

-- The kind of the page, by its magic number.
unfoldable pub hdr_common : Env → Bytes → ViewData → Out Outcome
unfolding give_up
hdr_common env oms vd0 = do
  let v = vd0.view
  (i, vd1) ← rshort oms (with_view vd0 (record v { work_ref = blank_ref; work_ref_z = blank_ref }))
  (sz, vd2) ← rlong oms vd1
  let vd = record vd2 {
    page_sz = sz;
    oms_wanted = vd2.oms_wanted + sizeof_header_v2;
    parse_state = ParseState.hdr;
  }
  ok (
      if i == 0x0D33
      then next (record vd { oms_wanted = vd.oms_wanted - 2 })
      else if i == 0x1833
      then next vd
      else if i == 0x0D31
      then next (record vd {
        oms_wanted = vd.oms_wanted - (sizeof_header_v2 - 10);
        parse_state = ParseState.gziphdr;
      })
      else if i == 0x1832
      then zinit vd
      else give_up vd (codes "Not supported type " ++ env.print_hex i ++ b'\n' ∷ []))

unfoldable pub gziphdr : ViewData → Outcome
gziphdr vd = zinit (record vd {
  oms_pos = vd.oms_wanted;
  oms_wanted = vd.oms_wanted + (sizeof_header_v2 - 2);
  parse_state = ParseState.hdr;
})

unfoldable pub hdr : ViewData → Outcome
hdr vd = next (record vd {
  oms_pos = vd.oms_wanted;
  oms_wanted = vd.oms_wanted + 2;
  parse_state = ParseState.pageurl_size;
})

unfoldable pub pageurl_size : Bytes → ViewData → Out Outcome
pageurl_size oms vd0 = do
  (n, vd) ← rshort oms vd0
  ok (next (record vd { oms_wanted = vd.oms_wanted + n; parse_state = ParseState.pageurl_data }))

-- A C string ends at its first zero.
unfoldable pub c_string : Bytes → Bytes
c_string [] = []
c_string (c ∷ s) = if c == 0 then [] else c ∷ c_string s

-- The address is kept in windows-1251, up to its first zero.
unfoldable pub pageurl_data : Bytes → ViewData → Out Outcome
unfolding c_string
pageurl_data oms vd = do
  raw ← slice_at oms vd.oms_pos (vd.oms_wanted - vd.oms_pos)
  ttt ← utf82win (c_string raw)
  ok (
      next (record vd {
        pageurl = some (c_string ttt);
        oms_pos = vd.oms_wanted;
        oms_wanted = vd.oms_wanted + 1;
        parse_state = ParseState.tag_name;
      }))
