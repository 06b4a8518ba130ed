-- ===== src/Upload/Fitting.antt =====
-- The buffer of the parameters holds all that is written into it, item by item.
use elfloader3_elfs_archive.Prelude.{
  ℕ, ◌+◌, ◌≤◌, ◌≡◌, sym, ◌∙◌, Bool, true, false, Bytes, List, [], ◌∷◌, ◌++◌, Option, Out, Fault, ok,
  fault, ◌>>=◌, length, length-append, if◌then◌else◌, if_true, if_false, arith,
}
use mathlib.Core.Path.{subst}
use elfloader3_elfs_archive.Encoding.Compare.{short_at}
use elfloader3_elfs_archive.Oms.State.{RefCache, View}
use elfloader3_elfs_archive.Upload.{
  Disk, text_at, web_of, wide_text, pair, count_select, count_button, count_submit,
}
use elfloader3_elfs_archive.Upload.Form.{
  Kind, select, button, submit, field, other, kind_of, has_file, count_file, write_file,
  count_field, write_field, is_clicked, keep_size, count_item, write_item,
}
use elfloader3_elfs_archive.Upload.Both.{
  Both, both, first_faults, second_faults, Both-bind, Both-if, IsCovered, text_at-IsCovered,
}
use elfloader3_elfs_archive.Upload.Files.{
  IsDisk, FileFits, file_fits, not_counted, get_file_data_len-FileFits,
}
use elfloader3_elfs_archive.Upload.Bounds.{
  Both-same, select-IsCovered, button-IsCovered, submit-IsCovered, keep-IsWithin, IsWithin,
  length-pair,
}

-- The items that send a file.
abbrev pub sends_file : Kind → RefCache → Bool
sends_file field r = has_file r
sends_file _ r = false

unfoldable pub file_items : List RefCache → ℕ
file_items [] = 0
file_items (r ∷ rs) =
    let more = file_items rs in if sends_file (kind_of r.tag) r then more + 1 else more

-- A count that leaves `filesize` alone.
pub data Keeps (filesize : ℕ) : Out (ℕ × ℕ) → Type 0 where
  kept : {n : ℕ} → Keeps filesize (ok (n, filesize))
  no_count : {f : Fault} → Keeps filesize (fault f)

keep_size-Keeps : (filesize : ℕ) (m : Out ℕ) → Keeps filesize (keep_size filesize m)
keep_size-Keeps filesize (ok n) = kept
keep_size-Keeps filesize (fault f) = no_count

-- What is written with the `filesize` that the count leaves fits the count.
pub data Covered (w : ℕ → Out Bytes) : Out (ℕ × ℕ) → Type 0 where
  covered :
      {n filesize : ℕ}
      → Both IsWithin (w filesize) (ok (n, filesize))
      → Covered w (ok (n, filesize))
  failed : {f : Fault} → Covered w (fault f)

pub always-Covered :
    (w : ℕ → Out Bytes) (m : Out (ℕ × ℕ))
    → ((filesize : ℕ) → Both IsWithin (w filesize) m)
    → Covered w m
always-Covered w (ok (n, filesize)) h = covered (h filesize)
always-Covered w (fault f) h = failed

no-file :
    (r : RefCache) (filesize : ℕ) (d : Disk)
    → has_file r ≡ false
    → count_file d r filesize ≡ ok (0, filesize)
unfolding count_file
no-file r filesize d e = if_false (has_file r) _ _ e

no_text :
    (r : RefCache) (filesize : ℕ) (d : Disk) → has_file r ≡ false → write_file d r filesize ≡ ok []
unfolding write_file
no_text r filesize d e = if_false (has_file r) _ _ e

bind-Keeps :
    {A : Type 0} (filesize : ℕ) (m : Out A) (f : A → Out (ℕ × ℕ))
    → ((a : A) → Keeps filesize (f a))
    → Keeps filesize (m >>= f)
bind-Keeps filesize (ok a) f h = h a
bind-Keeps filesize (fault e) f h = no_count

field-Keeps :
    (d : Disk) (oms : Bytes) (r : RefCache) (filesize : ℕ)
    → has_file r ≡ false
    → Keeps filesize (count_field d oms r filesize)
unfolding count_field
field-Keeps d oms r filesize e =
    bind-Keeps filesize (short_at oms r.id) _
      (λ l. bind-Keeps filesize (wide_text r.ref_data) _ (λ ws. rw (no-file r filesize d e) kept))

field-plain :
    (d : Disk) (oms : Bytes) (r : RefCache) (fs fs' : ℕ)
    → has_file r ≡ false
    → Both IsWithin (write_field d oms r fs) (count_field d oms r fs')
unfolding count_field write_field
field-plain d oms r fs fs' e = Both-bind (text_at-IsCovered oms r.id) (λ name l h.
    Both-same (wide_text r.ref_data) (λ ws.
      rw (no-file r fs' d e, no_text r fs d e)
        (both (
          omega
            (arith, length-append (pair name (web_of ws)) [], length-pair name (web_of ws), h)))))

-- An item without a file.
pub item-Keeps :
    (d : Disk) (oms : Bytes) (v : View) (rf : Option ℕ) (i : ℕ) (r : RefCache) (k : Kind) (fs : ℕ)
    → sends_file k r ≡ false
    → Keeps fs (count_item d oms v rf i r k fs)
unfolding count_item
item-Keeps d oms v rf i r select fs e = keep_size-Keeps fs (count_select oms r)
item-Keeps d oms v rf i r button fs e = keep_size-Keeps fs (count_button oms v r)
item-Keeps d oms v rf i r submit fs e =
    keep_size-Keeps fs (if is_clicked rf i then count_submit oms r else ok 0)
item-Keeps d oms v rf i r field fs e = field-Keeps d oms r fs e
item-Keeps d oms v rf i r other fs e = kept

pub item-IsWithin :
    (d : Disk) (oms : Bytes) (v : View) (rf : Option ℕ) (i : ℕ) (r : RefCache) (k : Kind)
    (fs fs' : ℕ)
    → sends_file k r ≡ false
    → Both IsWithin (write_item d oms v rf i r k fs) (count_item d oms v rf i r k fs')
unfolding count_item write_item
item-IsWithin d oms v rf i r select fs fs' e = keep-IsWithin fs' (select-IsCovered oms r)
item-IsWithin d oms v rf i r button fs fs' e = keep-IsWithin fs' (button-IsCovered oms v r)
item-IsWithin d oms v rf i r submit fs fs' e =
    keep-IsWithin fs' (Both-if (is_clicked rf i) (submit-IsCovered oms r) (both (omega arith)))
item-IsWithin d oms v rf i r field fs fs' e = field-plain d oms r fs fs' e
item-IsWithin d oms v rf i r other fs fs' e = both (omega arith)

-- A field with a file.
data WritesFile (d : Disk) (r : RefCache) : Out (ℕ × ℕ) → Type 0 where
  writes_file :
      {n filesize : ℕ} {text : Bytes}
      → write_file d r filesize ≡ ok text
      → length text ≤ n
      → WritesFile d r (ok (n, filesize))
  no_length : {f : Fault} → WritesFile d r (fault f)

file-WritesFile :
    (d : Disk) (r : RefCache) (m : Out (ℕ × ℕ))
    → has_file r ≡ true
    → FileFits d r.full_filename m
    → WritesFile d r m
unfolding write_file
file-WritesFile d r m e (file_fits written few) =
    writes_file (if_true (has_file r) _ _ e ∙ written) few
file-WritesFile d r m e not_counted = no_length

count_file-WritesFile :
    (d : Disk) (r : RefCache) (fs : ℕ)
    → IsDisk d
    → has_file r ≡ true
    → WritesFile d r (count_file d r fs)
unfolding count_file
count_file-WritesFile d r fs disk e =
    subst (WritesFile d r) (sym (if_true (has_file r) _ _ e))
      (file-WritesFile d r _ e (get_file_data_len-FileFits d r.full_filename fs disk))

field-parts :
    (d : Disk) (r : RefCache) (m : Out Bytes) (n : Out ℕ) (wt : Out (List ℕ)) (x : Out (ℕ × ℕ))
    → Both IsCovered m n
    → WritesFile d r x
    → Covered
        (λ fs. m >>= (λ name.
          wt >>= (λ ws. write_file d r fs >>= (λ file. ok (pair name (web_of ws) ++ file)))))
        (n >>= (λ l. wt >>= (λ ws. x >>= (λ q. ok (l + 2 + length (web_of ws) + q.0, q.1)))))
field-parts d r (ok name) (ok l) (ok ws) x (both h) (writes_file {text} e few) = covered (
    rw e (
      both (
        omega (
          arith,
          length-append (pair name (web_of ws)) text,
          length-pair name (web_of ws),
          h,
          few,
        ))))
field-parts d r (ok name) (ok l) (ok ws) x (both h) no_length = failed
field-parts d r (ok name) (ok l) (fault f) x (both h) w = failed
field-parts d r m n wt x first_faults w = always-Covered _ _ (λ fs. first_faults)
field-parts d r m n wt x second_faults w = failed

pub item-Covered :
    (d : Disk) (oms : Bytes) (v : View) (rf : Option ℕ) (i : ℕ) (r : RefCache) (k : Kind) (fs : ℕ)
    → IsDisk d
    → sends_file k r ≡ true
    → Covered (write_item d oms v rf i r k) (count_item d oms v rf i r k fs)
unfolding count_item write_item count_field write_field
item-Covered d oms v rf i r select fs disk e = cc
item-Covered d oms v rf i r button fs disk e = cc
item-Covered d oms v rf i r submit fs disk e = cc
item-Covered d oms v rf i r field fs disk e =
    field-parts d r (text_at oms r.id) (short_at oms r.id) (wide_text r.ref_data)
      (count_file d r fs) (text_at-IsCovered oms r.id) (count_file-WritesFile d r fs disk e)
item-Covered d oms v rf i r other fs disk e = cc
