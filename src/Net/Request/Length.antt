-- ===== src/Net/Request/Length.antt =====
-- `SendPost`: the length that the header promises is that of what follows it.
use elfloader3_elfs_archive.Prelude.{
  ℕ, ◌+◌, ◌≤◌, ◌≡◌, refl, sym, ap, ◌∙◌, Bytes, [], ◌∷◌, ◌++◌, append_assoc, append-nil, Option,
  none, some, ok, fault, overflow, ◌>>=◌, eq_bind, length, length-append, leb, le→leb,
  if◌then◌else◌, if_true, arith,
}
use mathlib.Core.Path.{subst}
use elfloader3_elfs_archive.Oms.Forms.{codes}
use elfloader3_elfs_archive.Net.Request.{
  Settings, Request, base_fields, fields, params_field, goto_params_offset, collect, header_of,
  until_zero, join_params, params_text, first_bytes, request_buffer, assemble, post_bytes,
  buf_max_sz,
}
use elfloader3_elfs_archive.Net.Request.Moving.{
  IsText, until_zero-text, first_bytes-all, drop-exact, join_params-text,
}
use elfloader3_elfs_archive.Net.Request.Fields.{
  closed_fields, AllFit, fit_nil, fit_cons, IsShort, collect-closed_fields, base-fits, header-fits,
  closed_fields-base,
}

-- The body of a request for an address, with the text of a form if there is one.
abbrev pub request_body : Settings → Option Bytes → Bytes → Option Bytes → Bytes
request_body s from url none = closed_fields (base_fields s from url [])
request_body s from url (some text) =
    closed_fields (base_fields s from url ((codes "j=opf=1" ++ text) ∷ []))

-- The whole request: its header promises the length of its body.
abbrev pub request : Settings → Option Bytes → Bytes → Option Bytes → Bytes
request s from url text =
    let body = request_body s from url text in header_of s (length body) ++ body

params-fit : {room : ℕ} (o : Option Bytes) → 9 ≤ room → AllFit room (params_field o)
params-fit none room = fit_nil
params-fit (some b) room = fit_cons (omega (arith, room)) fit_nil

collect-fields :
    (s : Settings) (r : Request) (url : Bytes)
    → IsShort s
    → collect (buf_max_sz r url) (fields s r url) ≡ ok (closed_fields (fields s r url))
unfolding fields
collect-fields s r url short =
    let last : AllFit (buf_max_sz r url) (params_field r.goto_params) =
      params-fit r.goto_params (omega arith) in
    collect-closed_fields (buf_max_sz r url)
      (base_fields s r.from_url url (params_field r.goto_params))
      (base-fits s r.from_url url (params_field r.goto_params) short (omega arith) last)

assemble-request :
    (s : Settings) (room : ℕ) (content body text : Bytes) (params : Option Bytes) (more : Bytes)
    → IsShort s
    → 1024 ≤ room
    → length body ≡ length content + length text
    → request_buffer (header_of s (length body) ++ content) params
      ≡ ok ((header_of s (length body) ++ body) ++ more)
    → assemble s room content (length text) params ≡ ok (header_of s (length body) ++ body)
unfolding assemble
assemble-request s room content body text params more short enough whole joined =
    let head = header_of s (length body) in
    let fits : length head + 1 ≤ room = omega (arith, header-fits s (length body) short, enough) in
    subst
      (λ n.
        ((if leb (length (header_of s n) + 1) room
            then request_buffer (header_of s n ++ content) params
            else fault overflow)
          >>= (λ b. first_bytes (n + length (header_of s n)) b))
        ≡ ok (head ++ body))
      whole
      (eq_bind (λ b. first_bytes (length body + length head) b)
          (if_true _ _ _ (le→leb _ _ fits) ∙ joined)
        ∙ first_bytes-all _ (head ++ body) more (omega (arith, length-append head body)))

post_bytes-assemble :
    (s : Settings) (r : Request) (url text : Bytes)
    → IsShort s
    → params_text r.goto_params ≡ ok text
    → post_bytes s r url
      ≡ assemble s (buf_max_sz r url) (closed_fields (fields s r url)) (length text) r.goto_params
unfolding post_bytes
post_bytes-assemble s r url text short given =
    eq_bind _ (collect-fields s r url short)
    ∙ eq_bind
        (λ (t : Bytes).
          assemble s (buf_max_sz r url) (closed_fields (fields s r url)) (length t) r.goto_params)
        given

pub post_bytes-request :
    (s : Settings) (from : Option Bytes) (url : Bytes)
    → IsShort s
    → post_bytes s (record { from_url = from; goto_params = none }) url
      ≡ ok (request s from url none)
unfolding fields params_text request_buffer
post_bytes-request s from url short =
    let body = request_body s from url none in
    let r : Request = record { from_url = from; goto_params = none } in
    post_bytes-assemble s r url [] short refl
    ∙ assemble-request s (buf_max_sz r url) body body [] none [] short (omega arith) (omega arith)
        (ap ok (sym (append-nil (header_of s (length body) ++ body))))

closed_field-last : (base key : Bytes) → base ++ closed_fields (key ∷ []) ≡ (base ++ key) ++ 0 ∷ []
closed_field-last base key =
    ap (λ l. base ++ l) (append-nil (key ++ 0 ∷ [])) ∙ sym (append_assoc base key (0 ∷ []))

closed_field-text :
    (base key text : Bytes)
    → base ++ closed_fields ((key ++ text) ∷ []) ≡ (base ++ key) ++ (text ++ 0 ∷ [])
closed_field-text base key text =
    closed_field-last base (key ++ text)
    ∙ (ap (λ l. l ++ 0 ∷ []) (sym (append_assoc base key text))
        ∙ append_assoc (base ++ key) text (0 ∷ []))

-- The text of a form goes over the zero that ends the content.
assemble-text :
    (s : Settings) (room : ℕ) (pre text junk rest : Bytes)
    → IsShort s
    → 1024 ≤ room
    → IsText text
    → length junk ≡ goto_params_offset
    → (let body = pre ++ (text ++ 0 ∷ []) in
        length (header_of s (length body) ++ body) ≤ goto_params_offset + length text)
    → (let body = pre ++ (text ++ 0 ∷ []) in
        assemble s room (pre ++ 0 ∷ []) (length text) (some (junk ++ (text ++ 0 ∷ rest)))
        ≡ ok (header_of s (length body) ++ body))
unfolding request_buffer
assemble-text s room pre text junk rest short enough t e fits =
    let zero_end : Bytes = text ++ 0 ∷ [] in
    let body : Bytes = pre ++ zero_end in
    let head : Bytes = header_of s (length body) in
    let l1 = length-append head body in
    let l2 = length-append pre zero_end in
    let l3 = length-append text (0 ∷ []) in
    let l4 = length-append head pre in
    let l5 = length-append pre (0 ∷ []) in
    let (more, joined) =
      join_params-text (head ++ pre) junk text rest e (omega (arith, l1, l2, l3, l4, fits)) t in
    assemble-request s room (pre ++ 0 ∷ []) body text (some (junk ++ (text ++ 0 ∷ rest))) more short
      enough (omega (arith, l2, l3, l5))
      (ap (λ q. join_params q (junk ++ (text ++ 0 ∷ rest))) (sym (append_assoc head pre (0 ∷ [])))
        ∙ (joined ∙ ap (λ q. ok (q ++ more)) (append_assoc head pre zero_end)))

-- With settings of the lengths that their buffers have, and with the text of a form at its place in the
-- buffer of parameters, `SendPost` for a page makes a whole request without a fault: the last field is
-- followed by the text, a zero closes it, and the header promises the length of all of it. What stands before
-- the text has to end before the place where the text was.
pub post_bytes-params :
    (s : Settings) (from : Option Bytes) (url junk text rest : Bytes)
    → IsShort s
    → IsText text
    → length junk ≡ goto_params_offset
    → length (request s from url (some text)) ≤ goto_params_offset + length text
    → post_bytes s (record { from_url = from; goto_params = some (junk ++ (text ++ 0 ∷ rest)) }) url
      ≡ ok (request s from url (some text))
unfolding fields params_text
post_bytes-params s from url junk text rest short t e room =
    let params : Option Bytes = some (junk ++ (text ++ 0 ∷ rest)) in
    let r : Request = record { from_url = from; goto_params = params } in
    let key : Bytes = codes "j=opf=1" in
    let base : Bytes = closed_fields (base_fields s from url []) in
    let content : closed_fields (fields s r url) ≡ (base ++ key) ++ 0 ∷ [] =
      closed_fields-base s from url (key ∷ []) ∙ closed_field-last base key in
    let body : request_body s from url (some text) ≡ (base ++ key) ++ (text ++ 0 ∷ []) =
      closed_fields-base s from url ((key ++ text) ∷ []) ∙ closed_field-text base key text in
    let given : params_text params ≡ ok text =
      ap until_zero (drop-exact goto_params_offset junk (text ++ 0 ∷ rest) (sym e))
      ∙ until_zero-text text rest t in
    let whole : Bytes → Bytes = λ b. header_of s (length b) ++ b in
    let fits : length (whole ((base ++ key) ++ (text ++ 0 ∷ [])))
        ≤ goto_params_offset + length text =
      subst (λ b. length (whole b) ≤ goto_params_offset + length text) body room in
    post_bytes-assemble s r url text short given
    ∙ (ap (λ c. assemble s (buf_max_sz r url) c (length text) params) content
        ∙ (assemble-text s (buf_max_sz r url) (base ++ key) text junk rest short (omega arith) t e
              fits
            ∙ ap (λ b. ok (whole b)) (sym body)))
