-- ===== src/Display/Chosen.antt =====
-- The links before and behind the chosen one.
use mathlib.Core.Path.{subst}
use elfloader3_elfs_archive.Prelude.{
  ℕ, ◌+◌, ◌≡◌, refl, sym, ap, ◌∙◌, false, List, [], ◌∷◌, ◌++◌, ◌==◌, if◌then◌else◌, if_true,
  if_false, if_intro, eq→==, arith,
}
use elfloader3_elfs_archive.Display.Rendering.{Seen, no_pos, begin_ref, end_ref}
use elfloader3_elfs_archive.Display.Marks.{Mark, link, link_end, noted, noted-append}

-- No link of these begins at the place.
pub data IsElsewhere (a : ℕ) : List Mark → Type 0 where
  nothing_left : IsElsewhere a []
  other_link :
      {p : ℕ} {ms : List Mark} → (a == p) ≡ false → IsElsewhere a ms → IsElsewhere a (link p ∷ ms)
  an_end : {ms : List Mark} → IsElsewhere a ms → IsElsewhere a (link_end ∷ ms)

-- No link begins here at all.
pub data AreEnds : List Mark → Type 0 where
  no_more : AreEnds []
  one_end : {ms : List Mark} → AreEnds ms → AreEnds (link_end ∷ ms)

-- The chosen link, and another one.
begin_ref_self : (a : ℕ) (x : Seen) → begin_ref a a x ≡ record x { flag = 1; ena_ref = 1 }
unfolding begin_ref
begin_ref_self a x = if_true (a == a) _ _ (eq→== a a refl)

abbrev other_at : ℕ → Seen → Seen
other_at p x = record x {
  pos_first_ref = if x.pos_first_ref == no_pos then p else x.pos_first_ref;
  pos_last_ref = p;
  pos_prev_ref = if x.flag == 0 then p else x.pos_prev_ref;
  pos_next_ref = if x.flag == 1 then p else x.pos_next_ref;
  flag = if x.flag == 1 then 2 else x.flag;
  ena_ref = if x.ena_ref == 0 then 0 else x.ena_ref + 1;
}

begin_ref_other : (cur p : ℕ) (x : Seen) → (cur == p) ≡ false → begin_ref cur p x ≡ other_at p x
unfolding begin_ref
begin_ref_other cur p x ne = if_false (cur == p) _ _ ne

begin_ref_prev :
    (cur p : ℕ) (x : Seen)
    → (x.flag == 0) ≡ false
    → ((begin_ref cur p x).pos_prev_ref ≡ x.pos_prev_ref)
      × (((begin_ref cur p x).flag == 0) ≡ false)
unfolding begin_ref
begin_ref_prev cur p x h =
    if_intro (λ (w : Seen). (w.pos_prev_ref ≡ x.pos_prev_ref) × ((w.flag == 0) ≡ false)) (cur == p)
      (refl, refl) (if_false (x.flag == 0) _ _ h, ground (arith, h))

-- With a flag that is not 0, the link before the chosen one stays.
prev_kept :
    (cur : ℕ) (ms : List Mark) (x : Seen)
    → (x.flag == 0) ≡ false
    → ((noted cur ms x).pos_prev_ref ≡ x.pos_prev_ref) × (((noted cur ms x).flag == 0) ≡ false)
unfolding end_ref
prev_kept cur [] x on = (refl, on)
prev_kept cur (link_end ∷ ms) x on = prev_kept cur ms (end_ref x) on
prev_kept cur (link p ∷ ms) x on =
    let (same, on') = begin_ref_prev cur p x on in
    let (more, on2) = prev_kept cur ms (begin_ref cur p x) on' in (more ∙ same, on2)

-- Behind the chosen link and the next one, the next one stays.
next_kept :
    (cur : ℕ) (ms : List Mark) (x : Seen)
    → IsElsewhere cur ms
    → x.flag ≡ 2
    → ((noted cur ms x).pos_next_ref ≡ x.pos_next_ref) × ((noted cur ms x).flag ≡ 2)
unfolding end_ref
next_kept cur [] x nothing_left two = (refl, two)
next_kept cur (link_end ∷ ms) x (an_end h) two = next_kept cur ms (end_ref x) h two
next_kept cur (link p ∷ ms) x (other_link ne h) two =
    let (same, two') = next_kept cur ms (other_at p x) h (ground (arith, two)) in
    subst
      (λ (u : Seen). ((noted cur ms u).pos_next_ref ≡ x.pos_next_ref) × ((noted cur ms u).flag ≡ 2))
      (sym (begin_ref_other cur p x ne))
      (same ∙ if_false (x.flag == 1) _ _ (ground (arith, two)), two')

-- Before the chosen link the flag is 0.
flag_kept :
    (cur : ℕ) (ms : List Mark) (x : Seen)
    → IsElsewhere cur ms
    → x.flag ≡ 0
    → (noted cur ms x).flag ≡ 0
unfolding end_ref
flag_kept cur [] x nothing_left off = off
flag_kept cur (link_end ∷ ms) x (an_end h) off = flag_kept cur ms (end_ref x) h off
flag_kept cur (link p ∷ ms) x (other_link ne h) off =
    subst (λ (u : Seen). (noted cur ms u).flag ≡ 0) (sym (begin_ref_other cur p x ne))
      (flag_kept cur ms (other_at p x) h (ground (arith, off)))

-- The links on the screen: `a`, and `b` behind it.
abbrev pub screen_marks : List Mark → ℕ → List Mark → ℕ → List Mark → List Mark
screen_marks front a mid b rest = front ++ link a ∷ (mid ++ link b ∷ rest)

noted-screen_marks :
    (cur : ℕ) (front : List Mark) (a : ℕ) (mid : List Mark) (b : ℕ) (rest : List Mark) (x : Seen)
    → noted cur (screen_marks front a mid b rest) x
      ≡ noted cur rest (begin_ref cur b (noted cur mid (begin_ref cur a (noted cur front x))))
noted-screen_marks cur front a mid b rest x =
    noted-append cur front (link a ∷ (mid ++ link b ∷ rest)) x
    ∙ noted-append cur mid (link b ∷ rest) (begin_ref cur a (noted cur front x))

-- Only ends of links: nothing of the two keys changes.
ends_kept :
    (cur : ℕ) (ms : List Mark) (x : Seen)
    → AreEnds ms
    → ((noted cur ms x).pos_prev_ref ≡ x.pos_prev_ref) × ((noted cur ms x).flag ≡ x.flag)
unfolding end_ref
ends_kept cur [] x no_more = (refl, refl)
ends_kept cur (link p ∷ ms) x h = elim h [ ]
ends_kept cur (link_end ∷ ms) x (one_end h) = ends_kept cur ms (end_ref x) h

-- With `a` chosen, `b` is next.
pub noted_next :
    (front : List Mark) (a : ℕ) (mid : List Mark) (b : ℕ) (rest : List Mark) (x : Seen)
    → AreEnds mid
    → (a == b) ≡ false
    → IsElsewhere a rest
    → let y = noted a (screen_marks front a mid b rest) x in (y.pos_next_ref ≡ b) × (y.flag ≡ 2)
noted_next front a mid b rest x ends ne elsewhere =
    let x1 = noted a front x in
    let x2 : Seen = record x1 { flag = 1; ena_ref = 1 } in
    let x3 = noted a mid x2 in
    let one = (ends_kept a mid x2 ends).1 in
    let (next, two) = next_kept a rest (other_at b x3) elsewhere (ground (arith, one)) in
    let same : noted a (screen_marks front a mid b rest) x ≡ noted a rest (other_at b x3) =
      noted-screen_marks a front a mid b rest x
      ∙ (ap (λ (u : Seen). noted a rest (begin_ref a b (noted a mid u))) (begin_ref_self a x1)
          ∙ ap (noted a rest) (begin_ref_other a b x3 ne)) in
    (
      ap (λ (u : Seen). u.pos_next_ref) same
          ∙ (next ∙ if_true (x3.flag == 1) _ _ (ground (arith, one))),
      ap (λ (u : Seen). u.flag) same ∙ two,
    )

-- With `b` chosen, `a` is before it.
pub noted_prev :
    (front : List Mark) (a : ℕ) (mid : List Mark) (b : ℕ) (rest : List Mark) (x : Seen)
    → x.flag ≡ 0
    → IsElsewhere b front
    → AreEnds mid
    → (b == a) ≡ false
    → let y = noted b (screen_marks front a mid b rest) x in
      (y.pos_prev_ref ≡ a) × ((y.flag == 0) ≡ false)
noted_prev front a mid b rest x off elsewhere ends ne =
    let x1 = noted b front x in
    let off1 = flag_kept b front x elsewhere off in
    let x3 = noted b mid (other_at a x1) in
    let x4 : Seen = record x3 { flag = 1; ena_ref = 1 } in
    let (prev, on) = prev_kept b rest x4 refl in
    let same : noted b (screen_marks front a mid b rest) x ≡ noted b rest x4 =
      noted-screen_marks b front a mid b rest x
      ∙ (ap (λ (u : Seen). noted b rest (begin_ref b b (noted b mid u))) (begin_ref_other b a x1 ne)
          ∙ ap (noted b rest) (begin_ref_self b x3)) in
    (
      ap (λ (u : Seen). u.pos_prev_ref) same
          ∙ (prev
              ∙ ((ends_kept b mid (other_at a x1) ends).0
                  ∙ if_true (x1.flag == 0) _ _ (ground (arith, off1)))),
      ap (λ (u : Seen). u.flag == 0) same ∙ on,
    )
