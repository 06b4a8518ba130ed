-- ===== src/Oms/Pictures/Queue.antt =====
-- The queue of pictures: `AddToDPngQueue` of BalletMini/additems.c.
use elfloader3_elfs_archive.Prelude.{
  ℕ, zero, suc, ◌+◌, ◌<◌, ◌≤◌, ◌≡◌, ◌≢◌, refl, sym, ◌∙◌, inl, inr, ap, if_true, ◌⊎◌, true, false,
  List, [], ◌∷◌, ◌++◌, Option, none, some, ok, length, ◌==◌, if◌then◌else◌, Bool-cases, ==→eq,
  arith,
}
use elfloader3_elfs_archive.Oms.State.{View, Image, Picture, PicIndex, Env, numbered}
use elfloader3_elfs_archive.Oms.Pictures.{
  has_icon, is_numbered, count_numbered, free_wchar, extend_queue, add_to_dpng_queue, last_icon,
  fit_width, first_ucs2_user_bitmap,
}

-- The icon that stands for none.
abbrev pub no_icon : ℕ
no_icon = 0xFFFF

-- The phone gives different characters different icons, or none.
abbrev pub HasOwnIcons : Env → Type 0
HasOwnIcons env = (a b : ℕ) → env.pic_n a ≡ env.pic_n b → env.pic_n a ≢ no_icon → a ≡ b

abbrev remove : ℕ → List Picture → List Picture
remove icon [] = []
remove icon (p ∷ ps) = if icon == p.icon then remove icon ps else p ∷ remove icon ps

has_icon-remove :
    (icon x : ℕ) (ps : List Picture) → icon ≢ x → has_icon (remove icon ps) x ≡ has_icon ps x
has_icon-remove icon x [] h = refl
has_icon-remove icon x (p ∷ ps) h = elim (Bool-cases (icon == p.icon)) [
  | inl e ↦
      let other : (x == p.icon) ≡ false = ground (arith, ==→eq icon p.icon e, h) in
      rw (e, other) (has_icon-remove icon x ps h)
  | inr e ↦ rw (e, has_icon-remove icon x ps h) refl
]

length-remove_le : (icon : ℕ) (ps : List Picture) → length (remove icon ps) ≤ length ps
length-remove_le icon [] = omega arith
length-remove_le icon (p ∷ ps) = elim (Bool-cases (icon == p.icon)) [
  | inl e ↦ rw e (omega (arith, length-remove_le icon ps))
  | inr e ↦ rw e (omega (arith, length-remove_le icon ps))
]

length-remove :
    (icon : ℕ) (ps : List Picture) → has_icon ps icon ≡ true → length (remove icon ps) < length ps
length-remove icon [] h = cc
length-remove icon (p ∷ ps) h = elim (Bool-cases (icon == p.icon)) [
  | inl e ↦ rw e (omega (arith, length-remove_le icon ps))
  | inr e ↦
      let behind : has_icon ps icon ≡ true = (rw e at h) in
      rw e (omega (arith, length-remove icon ps behind))
]

-- The search does not see the pictures with an icon that no character from `wchar` on has.
free_wchar-remove :
    (env : Env) (icon k : ℕ) (ps : List Picture) (wchar : ℕ)
    → ((w : ℕ) → wchar ≤ w → icon ≢ env.pic_n w)
    → free_wchar env k (remove icon ps) wchar ≡ free_wchar env k ps wchar
unfolding free_wchar
free_wchar-remove env icon zero ps wchar h = refl
free_wchar-remove env icon (suc k) ps wchar h =
    rw
      (
        has_icon-remove icon (env.pic_n wchar) ps (h wchar (omega arith)),
        free_wchar-remove env icon k ps (wchar + 1) (λ w le. h w (omega (arith, le))),
      )
      refl

both_ways : ¬ (true ≡ false)
both_ways e = cc

-- As the program leaves the queue: where the last picture has an icon, all of them have.
abbrev pub EndsAtNone : List Picture → Type 0
EndsAtNone [] = Unit
EndsAtNone (p ∷ ps) = (last_icon p ps == no_icon) ≡ false → has_icon (p ∷ ps) no_icon ≡ false

-- With a round more than there are pictures, all with an icon, the search ends, at a character whose icon is free.
free_wchar-free :
    (env : Env)
    → HasOwnIcons env
    → (k : ℕ) (ps : List Picture) (wchar : ℕ) → has_icon ps no_icon ≡ false
    → length ps < k
    → (w : ℕ) × (free_wchar env k ps wchar ≡ ok w)
      × (wchar ≤ w)
      × (has_icon ps (env.pic_n w) ≡ false)
unfolding free_wchar
free_wchar-free env own zero ps wchar all h = absurd (omega (arith, h))
free_wchar-free env own (suc k) ps wchar all h = elim (Bool-cases (has_icon ps (env.pic_n wchar))) [
  | inr free ↦ (wchar, rw free refl, omega arith, free)
  | inl taken ↦
      let icon = env.pic_n wchar in
      let real : icon ≢ no_icon = λ e. both_ways (sym taken ∙ (ap (has_icon ps) e ∙ all)) in
      let shorter = length-remove icon ps taken in
      let all' = has_icon-remove icon no_icon ps real ∙ all in
      let (w, run, le, free) =
        free_wchar-free env own k (remove icon ps) (wchar + 1) all' (omega (arith, shorter, h)) in
      let apart : (u : ℕ) → wchar + 1 ≤ u → icon ≢ env.pic_n u =
        λ u le' e. omega (arith, own wchar u e real, le') in
      (
        w,
        if_true _ _ _ taken ∙ (sym (free_wchar-remove env icon k ps (wchar + 1) apart) ∙ run),
        omega (arith, le),
        sym (has_icon-remove icon (env.pic_n w) ps (apart w le)) ∙ free,
      )
]

-- The last picture of the queue has no icon.
abbrev pub IsFull : List Picture → Type 0
IsFull [] = ⊥
IsFull (p ∷ ps) = (last_icon p ps == no_icon) ≡ true

-- The image is queued under a character whose icon no picture had, or the queue is full and as it was.
abbrev pub Queued : Env → Image → List Picture → Option ℕ → List Picture → Type 0
Queued env img ps wchar ps' =
    (IsFull ps × (wchar ≡ none) × (ps' ≡ ps))
    ⊎ ((w : ℕ) × (p : Picture) × (wchar ≡ some w)
        × (p.image ≡ img)
        × (ps' ≡ ps ++ p ∷ [])
        × (p.w_char ≡ w)
        × (p.icon ≡ env.pic_n w)
        × (has_icon ps p.icon ≡ false))

has_icon-append :
    (ps : List Picture) (p : Picture) (x : ℕ)
    → has_icon ps x ≡ false
    → (x == p.icon) ≡ false
    → has_icon (ps ++ p ∷ []) x ≡ false
has_icon-append [] p x h e = rw e refl
has_icon-append (q ∷ ps) p x h e = elim (Bool-cases (x == q.icon)) [
  | inl same ↦ absurd (both_ways (rw same at h))
  | inr other ↦
      let behind : has_icon ps x ≡ false = (rw other at h) in
      rw other (has_icon-append ps p x behind e)
]

last_icon-append :
    (p : Picture) (ps : List Picture) (q : Picture) → last_icon p (ps ++ q ∷ []) ≡ q.icon
last_icon-append p [] q = refl
last_icon-append p (r ∷ ps) q = last_icon-append r ps q

EndsAtNone-append :
    (ps : List Picture) (p : Picture) → has_icon ps no_icon ≡ false → EndsAtNone (ps ++ p ∷ [])
EndsAtNone-append [] p all = λ real. ground (arith, real)
EndsAtNone-append (q ∷ ps) p all =
    λ real. has_icon-append (q ∷ ps) p no_icon all (ground (arith, last_icon-append q ps p, real))

extend_queue-Queued :
    (env : Env)
    → HasOwnIcons env
    → (ps : List Picture) (img : Image) (slot : PicIndex) → EndsAtNone ps
    → (wchar : Option ℕ) × (ps' : List Picture) × (extend_queue env ps img slot ≡ ok (wchar, ps'))
      × Queued env img ps wchar ps'
      × EndsAtNone ps'
unfolding extend_queue
extend_queue-Queued env own [] img slot ends =
    let pic : Picture = record {
      image = img;
      icon = env.pic_n (first_ucs2_user_bitmap + 1);
      w_char = first_ucs2_user_bitmap + 1;
      index = if is_numbered slot then numbered 0 else slot;
    } in
    (
      some (first_ucs2_user_bitmap + 1),
      pic ∷ [],
      refl,
      inr (first_ucs2_user_bitmap + 1, pic, refl, refl, refl, refl, refl, refl),
      EndsAtNone-append [] pic refl,
    )
extend_queue-Queued env own (p ∷ ps) img slot ends = elim (Bool-cases (last_icon p ps == no_icon)) [
  | inl none_left ↦ (none, p ∷ ps, rw none_left refl, inl (none_left, refl, refl), ends)
  | inr more ↦
      let (w, run, le, free) =
        free_wchar-free env own (length (p ∷ ps) + 1) (p ∷ ps)
          (first_ucs2_user_bitmap + 1 + length (p ∷ ps)) (ends more) (omega arith) in
      let pic : Picture = record {
        image = img;
        icon = env.pic_n w;
        w_char = w;
        index = if is_numbered slot then numbered (count_numbered (p ∷ ps)) else slot;
      } in
      (
        some w,
        p ∷ ps ++ pic ∷ [],
        rw (more, run) refl,
        inr (w, pic, refl, refl, refl, refl, refl, free),
        EndsAtNone-append (p ∷ ps) pic (ends more),
      )
]

-- On a phone that gives different characters different icons, or the icon 0xFFFF that stands for none, and with a
-- queue in which no picture but the last has that icon: `AddToDPngQueue` never faults, and its search for a free
-- character ends. The image, fitted to the screen, is put at the end of the queue under a character whose icon no
-- picture in front of it has, and that character is the result; or the last picture has no icon, there is
-- no result, and the queue is as it was. In the queue afterwards no picture but the last has the icon 0xFFFF.
pub add_to_dpng_queue-Queued :
    (env : Env)
    → HasOwnIcons env
    → (v : View) (img : Image) (slot : PicIndex) → EndsAtNone v.dynpng_list
    → (wchar : Option ℕ) × (v' : View) × (add_to_dpng_queue env v img slot ≡ ok (wchar, v'))
      × Queued env (fit_width env img) v.dynpng_list wchar v'.dynpng_list
      × EndsAtNone v'.dynpng_list
unfolding add_to_dpng_queue
add_to_dpng_queue-Queued env own v img slot ends =
    let (wchar, ps', run, queued, ends') =
      extend_queue-Queued env own v.dynpng_list (fit_width env img) slot ends in
    (wchar, record v { dynpng_list = ps' }, rw run refl, queued, ends')
