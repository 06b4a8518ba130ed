-- ===== src/Net/Request/Posting.antt =====
-- `SendPost` as a whole: the request behind what was sent before.
use elfloader3_elfs_archive.Prelude.{
  false, ◌≡◌, refl, ap, ◌∙◌, Bytes, List, ◌++◌, Option, none, some, Out, ok, eq_bind, or_fault,
  bad_pointer,
}
use elfloader3_elfs_archive.Net.State.{Net}
use elfloader3_elfs_archive.Net.Send.{Answer, is_below_connected, bsend}
use elfloader3_elfs_archive.Net.Send.Order.{stream, stream-bsend}
use elfloader3_elfs_archive.Net.Request.{Settings, Request, post_bytes, send_post}
use elfloader3_elfs_archive.Net.Request.Fields.{IsShort}
use elfloader3_elfs_archive.Net.Request.Length.{request, post_bytes-request}

send_post-post_bytes :
    (s : Settings) (answers : List Answer) (r : Request) (n : Net) (url p : Bytes)
    → n.url ≡ some url
    → post_bytes s r url ≡ ok p
    → send_post s answers r n
      ≡ ok (
        record { from_url = none; goto_params = none },
        record (bsend answers (some p) n) { url = none },
      )
unfolding send_post
send_post-post_bytes s answers r n url p given made =
    let sending : Bytes → Out (Request × Net) = λ q. ok (
      record { from_url = none; goto_params = none },
      record (bsend answers (some q) n) { url = none },
    ) in
    eq_bind _ (ap (or_fault bad_pointer) given) ∙ eq_bind sending made

-- On a connection, and with settings of the lengths that their buffers have, `SendPost` for a page
-- without a form does not fault: behind all that was sent or queued before there stands one whole request,
-- whose header promises the length of its body, however the network answers; and the address and the
-- page it came from are forgotten, so that they are not sent twice.
pub send_post-request :
    (s : Settings) (answers : List Answer) (from : Option Bytes) (n : Net) (url : Bytes)
    → IsShort s
    → is_below_connected n.connect_state ≡ false
    → n.url ≡ some url
    → (n' : Net) × (send_post s answers (record { from_url = from; goto_params = none }) n
        ≡ ok (record { from_url = none; goto_params = none }, n'))
      × (stream n' ≡ stream n ++ request s from url none)
      × (n'.url ≡ none)
send_post-request s answers from n url short up given =
    let p = request s from url none in
    (
      record (bsend answers (some p) n) { url = none },
      send_post-post_bytes s answers (record { from_url = from; goto_params = none }) n url p given
          (post_bytes-request s from url short),
      stream-bsend answers (some p) n up,
      refl,
    )
