-- ===== src/Net/Request.antt =====
-- `SendPost`: the request for a page.
pub mod Fields
pub mod Moving
pub mod Length
pub mod Posting
use elfloader3_elfs_archive.Prelude.{
  ℕ, ◌+◌, ◌-◌, ◌*◌, Bytes, List, [], ◌∷◌, ◌++◌, Option, none, some, Out, ok, fault, overflow,
  bad_index, bad_pointer, or_fault, ◌>>=◌, length, take, drop, leb, ◌==◌, ◌||◌, if◌then◌else◌,
}
use elfloader3_elfs_archive.Oms.Forms.{codes}
use elfloader3_elfs_archive.Net.State.{Net}
use elfloader3_elfs_archive.Net.Send.{Answer, bsend}

-- The settings, the phone's screen and `%d` of `sprintf`.
pub record Settings : Type 0 where
  pub lang_code : Bytes
  pub pic_quality : ℕ
  pub java_heap_size : ℕ
  pub view_w : ℕ
  pub screen_h : ℕ
  pub om_post_host : Bytes
  pub om_post_port : ℕ
  pub auth_code : Bytes
  pub auth_prefix : Bytes
  pub print_dec : ℕ → Bytes

-- `from_url` and `goto_params` of main.c. The second is a buffer: its text begins at 4096.
pub record Request : Type 0 where
  pub from_url : Option Bytes
  pub goto_params : Option Bytes

abbrev pub goto_params_offset : ℕ
goto_params_offset = 4096

-- `switch(PIC_QUALITY)`
abbrev pub quality_i : ℕ → ℕ
quality_i q = if q == 1 then 0 else if q == 2 || q == 3 then 1 else 2

abbrev pub quality_j : ℕ → ℕ
quality_j q = if q == 3 then 1 else 0

abbrev pub screen_field : Settings → Bytes
screen_field s =
    codes "d=w:"
    ++ (s.print_dec s.view_w
        ++ (codes ";h:"
            ++ (s.print_dec s.screen_h
                ++ (codes ";c:65536;m:"
                    ++ (s.print_dec (s.java_heap_size * 1024)
                        ++ (codes ";i:"
                            ++ (s.print_dec (quality_i s.pic_quality)
                                ++ (codes ";q:"
                                    ++ (s.print_dec (quality_j s.pic_quality)
                                        ++ codes ";f:0;j:0;l:256")))))))))

abbrev pub from_field : Option Bytes → List Bytes
from_field none = []
from_field (some url) = (codes "f=" ++ url) ∷ []

abbrev pub params_field : Option Bytes → List Bytes
params_field none = []
params_field (some b) = codes "j=opf=1" ∷ []

-- The fields of the request in their order, before the last one.
unfoldable pub base_fields : Settings → Option Bytes → Bytes → List Bytes → List Bytes
base_fields s from url last =
    codes "k=image/jpeg"
    ∷ codes "o=280"
    ∷ (codes "u=/obml/" ++ url)
    ∷ (codes "q=" ++ s.lang_code)
    ∷ (codes "v=Opera Mini/2.0.4509/hifi/woodland/" ++ s.lang_code)
    ∷ (codes "i=Opera/8.01 (J2ME/MIDP; Opera Mini/2.0.4509/1630; "
        ++ (s.lang_code ++ codes "; U; ssr)"))
    ∷ codes "s=-1"
    ∷ codes "n=1"
    ∷ codes "A=CLDC-1.1"
    ∷ codes "B=MIDP-2.0"
    ∷ codes "C=j2me"
    ∷ (codes "D=" ++ s.lang_code)
    ∷ codes "E=ISO-8859-1"
    ∷ screen_field s
    ∷ (codes "c=" ++ s.auth_code)
    ∷ (codes "h=" ++ s.auth_prefix)
    ∷ (from_field from
        ++ (codes "g=1"
            ∷ codes "b=mod2.04"
            ∷ (codes "y=" ++ s.lang_code)
            ∷ codes "t=-1"
            ∷ codes "w=1;1"
            ∷ codes "e=def"
            ∷ last))

unfoldable pub fields : Settings → Request → Bytes → List Bytes
unfolding base_fields
fields s r url = base_fields s r.from_url url (params_field r.goto_params)

-- `buf_max_sz`
abbrev pub url_length : Option Bytes → ℕ
url_length none = 0
url_length (some url) = length url

abbrev pub buf_max_sz : Request → Bytes → ℕ
buf_max_sz r url = 1024 + length url + url_length r.from_url

-- Each field goes through `buf` and is put behind the content with its closing zero.
unfoldable pub collect : ℕ → List Bytes → Out Bytes
collect room [] = ok []
collect room (f ∷ fs) =
    if leb (length f + 1) room
    then (do rest ← collect room fs; ok ((f ++ 0 ∷ []) ++ rest))
    else fault overflow

abbrev pub header_of : Settings → ℕ → Bytes
header_of s n =
    codes
      "POST / HTTP/1.1\r\nConnection: close\r\nContent-Type: application/xml\r\nContent-Length: "
    ++ (s.print_dec n
        ++ (codes "\r\nHost: "
            ++ (s.om_post_host ++ (codes ":" ++ (s.print_dec s.om_post_port ++ codes "\r\n\r\n")))))

-- The C string that begins at a place of a buffer.
unfoldable pub until_zero : Bytes → Out Bytes
until_zero [] = fault bad_index
until_zero (c ∷ s) = if c == 0 then ok [] else (do rest ← until_zero s; ok (c ∷ rest))

-- `memmove` of bytes to a place of a buffer.
abbrev pub write_at : ℕ → Bytes → Bytes → Bytes
write_at place moved b = take place b ++ (moved ++ drop (place + length moved) b)

-- The text with its zero is moved over the zero that ends the content.
unfoldable pub move_text : ℕ → Bytes → Out Bytes
unfolding until_zero
move_text place b = do
  text ← until_zero (drop goto_params_offset b)
  ok (write_at place (take (length text + 1) (drop goto_params_offset b)) b)

-- `memcpy(goto_params,req,l)`, and the move.
unfoldable pub join_params : Bytes → Bytes → Out Bytes
unfolding move_text
join_params req b =
    if leb (length req) (length b)
    then move_text (length req - 1) (req ++ drop (length req) b)
    else fault overflow

-- The text of the form, if there is one.
unfoldable pub params_text : Option Bytes → Out Bytes
unfolding until_zero
params_text none = ok []
params_text (some b) = until_zero (drop goto_params_offset b)

abbrev pub first_bytes : ℕ → Bytes → Out Bytes
first_bytes n b = if leb n (length b) then ok (take n b) else fault bad_index

unfoldable pub request_buffer : Bytes → Option Bytes → Out Bytes
unfolding join_params
request_buffer req none = ok req
request_buffer req (some b) = join_params req b

-- The header is printed into `buf`, and the content put behind it.
unfoldable pub assemble : Settings → ℕ → Bytes → ℕ → Option Bytes → Out Bytes
unfolding request_buffer
assemble s room content text_length params =
    let full = length content + text_length in
    let head = header_of s full in
    do
      buffer ←
          (if leb (length head + 1) room
            then request_buffer (head ++ content) params
            else fault overflow)
      first_bytes (full + length head) buffer

-- The bytes that are given to `bsend`.
unfoldable pub post_bytes : Settings → Request → Bytes → Out Bytes
unfolding fields collect params_text assemble
post_bytes s r url = do
  content ← collect (buf_max_sz r url) (fields s r url)
  text ← params_text r.goto_params
  assemble s (buf_max_sz r url) content (length text) r.goto_params

unfoldable pub send_post : Settings → List Answer → Request → Net → Out (Request × Net)
unfolding post_bytes bsend
send_post s answers r n = do
  url ← or_fault bad_pointer n.url
  p ← post_bytes s r url
  let n' = bsend answers (some p) n
  ok (record { from_url = none; goto_params = none }, record n' { url = none })
