-- ===== src/Net/Request/Fields.antt =====
-- That the fields of a request fit the buffer in which each of them is printed.
use elfloader3_elfs_archive.Prelude.{
  ℕ, ◌+◌, ◌*◌, ◌≤◌, ◌≡◌, refl, sym, ap, ◌∙◌, Bytes, List, [], ◌∷◌, ◌++◌, append_assoc, Option, none,
  some, ok, length, length-append, leb, le→leb, if_true, arith,
}
use elfloader3_elfs_archive.Oms.Forms.{codes}
use elfloader3_elfs_archive.Net.Request.{
  Settings, screen_field, from_field, base_fields, collect, header_of, url_length, quality_i,
  quality_j,
}

-- The bytes of the fields, each closed by a zero.
abbrev pub closed_fields : List Bytes → Bytes
closed_fields [] = []
closed_fields (f ∷ fs) = (f ++ 0 ∷ []) ++ closed_fields fs

pub data AllFit (room : ℕ) : List Bytes → Type 0 where
  fit_nil : AllFit room []
  fit_cons :
      {f : Bytes} {fs : List Bytes} → length f + 1 ≤ room → AllFit room fs → AllFit room (f ∷ fs)

-- What the settings may be: a language code of the language file, the lengths of `AUTH_CODE`,
-- `AUTH_PREFIX` and `OM_POST_HOST`, and `%d` of an int of 32 bits.
pub record IsShort (s : Settings) : Type 0 where
  pub short_lang : length s.lang_code ≤ 64
  pub short_code : length s.auth_code ≤ 127
  pub short_prefix : length s.auth_prefix ≤ 63
  pub short_host : length s.om_post_host ≤ 31
  pub short_dec : (n : ℕ) → length (s.print_dec n) ≤ 11

pub collect-closed_fields :
    (room : ℕ) (fs : List Bytes) → AllFit room fs → collect room fs ≡ ok (closed_fields fs)
unfolding collect
collect-closed_fields room [] fit_nil = refl
collect-closed_fields room (f ∷ fs) (fit_cons fit fits) =
    if_true (leb (length f + 1) room) _ _ (le→leb _ _ fit)
    ∙ rw (collect-closed_fields room fs fits) refl

pub closed_fields-append :
    (fs gs : List Bytes) → closed_fields (fs ++ gs) ≡ closed_fields fs ++ closed_fields gs
closed_fields-append [] gs = refl
closed_fields-append (f ∷ fs) gs =
    ap (λ l. (f ++ 0 ∷ []) ++ l) (closed_fields-append fs gs)
    ∙ sym (append_assoc (f ++ 0 ∷ []) (closed_fields fs) (closed_fields gs))

screen-fits : (s : Settings) → IsShort s → length (screen_field s) + 1 ≤ 1024
screen-fits s short =
    let l1 = length-append (s.print_dec s.view_w) in
    let l2 = length-append (s.print_dec s.screen_h) in
    let l3 = length-append (s.print_dec (s.java_heap_size * 1024)) in
    let l4 = length-append (s.print_dec (quality_i s.pic_quality)) in
    let l5 = length-append (s.print_dec (quality_j s.pic_quality)) in
    rw (l1, l2, l3, l4, l5)
      (omega (
        arith,
        short.short_dec s.view_w,
        short.short_dec s.screen_h,
        short.short_dec (s.java_heap_size * 1024),
        short.short_dec (quality_i s.pic_quality),
        short.short_dec (quality_j s.pic_quality),
      ))

tail-fits :
    {room : ℕ} (s : Settings) (last : List Bytes)
    → IsShort s
    → 1024 ≤ room
    → AllFit room last
    → AllFit room (
        codes "g=1"
        ∷ codes "b=mod2.04"
        ∷ (codes "y=" ++ s.lang_code)
        ∷ codes "t=-1"
        ∷ codes "w=1;1"
        ∷ codes "e=def"
        ∷ last)
tail-fits s last short room rest = fit_cons (omega (arith, room)) (
    fit_cons (omega (arith, room)) (
      fit_cons (omega (arith, room, short.short_lang)) (
        fit_cons (omega (arith, room))
          (fit_cons (omega (arith, room)) (fit_cons (omega (arith, room)) rest)))))

from-fits :
    {room : ℕ} (from : Option Bytes) {last : List Bytes}
    → 1024 + url_length from ≤ room
    → AllFit room last
    → AllFit room (from_field from ++ last)
from-fits none room rest = rest
from-fits (some f) room rest = fit_cons (omega (arith, room)) rest

pub base-fits :
    {room : ℕ} (s : Settings) (from : Option Bytes) (url : Bytes) (last : List Bytes)
    → IsShort s
    → 1024 + length url + url_length from ≤ room
    → AllFit room last
    → AllFit room (base_fields s from url last)
unfolding base_fields
base-fits {room} s from url last short enough rest =
    let room1 : 1024 ≤ room = omega (arith, enough) in
    let room2 : 1024 + url_length from ≤ room = omega (arith, enough) in
    let lang = short.short_lang in
    let agent : length (s.lang_code ++ codes "; U; ssr)") ≤ 80 =
      rw (length-append s.lang_code) (omega (arith, lang)) in
    fit_cons (omega (arith, room1)) (
      fit_cons (omega (arith, room1)) (
        fit_cons (omega (arith, enough)) (
          fit_cons (omega (arith, room1, lang)) (
            fit_cons (omega (arith, room1, lang)) (
              fit_cons (omega (arith, room1, agent)) (
                fit_cons (omega (arith, room1)) (
                  fit_cons (omega (arith, room1)) (
                    fit_cons (omega (arith, room1)) (
                      fit_cons (omega (arith, room1)) (
                        fit_cons (omega (arith, room1)) (
                          fit_cons (omega (arith, room1, lang)) (
                            fit_cons (omega (arith, room1)) (
                              fit_cons (omega (arith, room1, screen-fits s short)) (
                                fit_cons (omega (arith, room1, short.short_code)) (
                                  fit_cons (omega (arith, room1, short.short_prefix)) (
                                    from-fits from room2
                                      (tail-fits s last short room1 rest)))))))))))))))))

pub header-fits : (s : Settings) (n : ℕ) → IsShort s → length (header_of s n) + 1 ≤ 1024
header-fits s n short =
    let l1 = length-append (s.print_dec n) in
    let l2 = length-append s.om_post_host in
    let l3 = length-append (s.print_dec s.om_post_port) in
    rw (l1, l2, l3)
      (omega (arith, short.short_dec n, short.short_dec s.om_post_port, short.short_host))

-- The last field stands behind the others.
pub closed_fields-base :
    (s : Settings) (from : Option Bytes) (url : Bytes) (last : List Bytes)
    → closed_fields (base_fields s from url last)
      ≡ closed_fields (base_fields s from url []) ++ closed_fields last
unfolding base_fields
closed_fields-base s none url last = closed_fields-append (base_fields s none url []) last
closed_fields-base s (some f) url last = closed_fields-append (base_fields s (some f) url []) last
