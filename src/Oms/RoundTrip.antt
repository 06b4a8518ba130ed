-- ===== src/Oms/RoundTrip.antt =====
-- Pages of text for the parser of BalletMini/parse_oms.c, as a server writes them with the tags 'T', 'B',
-- 'V' and 'Q'.
pub mod Rounds
pub mod Pages
use elfloader3_elfs_archive.Prelude.{
  ℕ, suc, ◌+◌, ◌-◌, ◌*◌, ◌≤◌, ◌≡◌, refl, sym, ap, ◌∙◌, Bytes, List, [], ◌∷◌, ◌++◌, append_assoc,
  some, ok, length, length-append, get_elem?, get_elem?-append_length, get_elem?-lt,
  take-append_length, drop-append_length, leb, le→leb, true, arith,
}
use mathlib.Core.Path.{subst}
use elfloader3_elfs_archive.Encoding.Compare.{short_at, slice_at}
use elfloader3_elfs_archive.Oms.State.{ParseState, View, ViewData, Env, next, leave, rbyte, rshort}
use elfloader3_elfs_archive.Oms.Items.{add_text_item, add_br_item, add_p_item}
use elfloader3_elfs_archive.Oms.Tags.{tag_name, argument_size}
use elfloader3_elfs_archive.Oms.TagData.{tag_data, tag_data_text}
use elfloader3_elfs_archive.Oms.Stages.{tag_t_stage3}
use elfloader3_elfs_archive.Oms.Loop.{step, step_in, parse_loop, loop_fuel, returned}

-- An item of a page: a text with the two bytes of its length, a line break, or a paragraph.
pub data Item : Type 0 where
  text : ℕ → ℕ → Bytes → Item
  line_break : Item
  paragraph : Item

-- The bytes of an item, and what it is to put into the view.
unfoldable pub print : Item → Bytes
print (text hi lo s) = b'T' ∷ hi ∷ lo ∷ s
print line_break = b'B' ∷ []
print paragraph = b'V' ∷ []

unfoldable pub print_all : List Item → Bytes
unfolding print
print_all [] = []
print_all (i ∷ is) = print i ++ print_all is

unfoldable pub show : View → Item → View
show v (text hi lo s) = add_text_item v s
show v line_break = add_br_item v
show v paragraph = add_p_item v

unfoldable pub show_all : View → List Item → View
unfolding show
show_all v [] = v
show_all v (i ∷ is) = show_all (show v i) is

-- The length of each text is the one that is written in front of it.
unfoldable pub IsItem : Item → Type 0
IsItem (text hi lo s) = length s ≡ hi * 256 + lo
IsItem line_break = Unit
IsItem paragraph = Unit

unfoldable pub AreItems : List Item → Type 0
unfolding IsItem
AreItems [] = Unit
AreItems (i ∷ is) = IsItem i × AreItems is

-- The parser at `p`, with a title, in a state, with the bytes that it waits for.
abbrev pub placed : ViewData → Bytes → ParseState → ℕ → ℕ → View → ViewData
placed vd title s p wanted v = record vd {
  oms_pos = p;
  oms_wanted = wanted;
  parse_state = s;
  title = some title;
  view = v;
}

-- The parser in front of a tag.
abbrev pub at_tag : ViewData → Bytes → ℕ → View → ViewData
at_tag vd title p v = placed vd title ParseState.tag_name p (p + 1) v
