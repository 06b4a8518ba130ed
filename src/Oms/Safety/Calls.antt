-- ===== src/Oms/Safety/Calls.antt =====
-- The items of pictures and forms read the page nowhere, or only where they are told to.
use elfloader3_elfs_archive.Prelude.{
  picture_past_end, leb, ltb, ◌*◌, ℕ, zero, suc, ◌+◌, inl, inr, Bytes, List, [], ◌∷◌, Option, none,
  some, Out, ok, Fault, Avoids, returns, faults, Avoids-bind, out_of_fuel, bad_index, bad_pointer,
  overflow, Bool, true, false, ◌>>=◌, if◌then◌else◌, Bool-cases, Option-cases, ◌==◌, or_fault,
  length,
}
use elfloader3_elfs_archive.Oms.State.{
  Decoded, View, Image, Picture, PicIndex, numbered, no_index, is_frame, Env,
}
use elfloader3_elfs_archive.Oms.Shape.{IsPageFault}
use elfloader3_elfs_archive.Oms.Pictures.{
  create_frame, create_delimiter, read_image, read_pngimg, read_jpgimg, colour_of, skip_three,
  convert_pixels, convert_rgba_to_rgb8, free_wchar, has_icon, add_to_dpng_queue, queue_image,
  add_picture_item, add_picture_item_rgba, add_picture_item_frame, add_picture_item_hr,
  add_picture_item_file, last_icon, find_oms_frame_by_size, extend_queue, fit_width, hr_wchar,
  keep_hr,
}

-- The run reads nothing of the page, whatever it returns.
abbrev pub NoRead {ℓ} : {A : Type ℓ} → Out A → Type ℓ
NoRead = Avoids IsPageFault (λ _. Unit)

pub fuel_benign : ¬ (IsPageFault out_of_fuel)
fuel_benign h = h

pub index_benign : ¬ (IsPageFault bad_index)
index_benign h = h

pub pointer_benign : ¬ (IsPageFault bad_pointer)
pointer_benign h = h

pub overflow_benign : ¬ (IsPageFault overflow)
overflow_benign h = h

pub picture_benign : ¬ (IsPageFault picture_past_end)
picture_benign h = h

-- One rule for each way to write a run.
pub NoRead-ok {ℓ} : {A : Type ℓ} {a : A} → NoRead (ok a)
NoRead-ok = returns tt

pub NoRead-bind {ℓ κ} :
    {A : Type ℓ} {B : Type κ} {m : Out A} {f : A → Out B}
    → NoRead m
    → ((a : A) → NoRead (f a))
    → NoRead (m >>= f)
NoRead-bind m next = Avoids-bind m λ a _. next a

pub NoRead-if {ℓ} :
    {A : Type ℓ} (b : Bool) {x y : Out A} → NoRead x → NoRead y → NoRead (if b then x else y)
NoRead-if true x y = x
NoRead-if false x y = y

pub NoRead-or_fault {ℓ} :
    {A : Type ℓ} (e : Fault) (o : Option A) → ¬ (IsPageFault e) → NoRead (or_fault e o)
NoRead-or_fault e none h = faults h
NoRead-or_fault e (some a) h = returns tt

-- The image readers fault for themselves.
read_image-NoRead : (decoder : Bytes → Decoded) (buf : Bytes) → NoRead (read_image decoder buf)
unfolding read_image
read_image-NoRead decoder buf =
    NoRead-if (leb (decoder buf).asked (length buf)) NoRead-ok (faults picture_benign)

convert_pixels-NoRead : (k : ℕ) (buf : Bytes) → NoRead (convert_pixels k buf)
unfolding convert_pixels
convert_pixels-NoRead zero buf = NoRead-ok
convert_pixels-NoRead (suc k) [] = faults picture_benign
convert_pixels-NoRead (suc k) (a ∷ buf) =
    NoRead-bind
      (NoRead-if (ltb a 255) NoRead-ok
        (NoRead-or_fault picture_past_end (colour_of buf) picture_benign))
      λ c. NoRead-bind (convert_pixels-NoRead k (skip_three buf)) λ rest. NoRead-ok

module _ (env : Env) where
  free_wchar-NoRead : (k : ℕ) (queue : List Picture) (w : ℕ) → NoRead (free_wchar env k queue w)
  unfolding free_wchar
  free_wchar-NoRead zero queue w = faults fuel_benign
  free_wchar-NoRead (suc k) queue w = elim (Bool-cases (has_icon queue (env.pic_n w))) [
    | inl e ↦ rw e (free_wchar-NoRead k queue (w + 1))
    | inr e ↦ rw e (returns tt)
  ]

  extend_queue-NoRead :
      (queue : List Picture) (img : Image) (slot : PicIndex)
      → NoRead (extend_queue env queue img slot)
  unfolding extend_queue
  extend_queue-NoRead [] img slot = returns tt
  extend_queue-NoRead (p ∷ ps) img slot = elim (Bool-cases (last_icon p ps == 0xFFFF)) [
    | inl e ↦ rw e (returns tt)
    | inr e ↦ rw e (
        Avoids-bind
          (free_wchar-NoRead (length (p ∷ ps) + 1) (p ∷ ps) (0xE100 + 1 + length (p ∷ ps)))
          λ a _. returns tt)
  ]

  add_to_dpng_queue-NoRead :
      (v : View) (img : Image) (slot : PicIndex) → NoRead (add_to_dpng_queue env v img slot)
  unfolding add_to_dpng_queue
  add_to_dpng_queue-NoRead v img slot =
      Avoids-bind (extend_queue-NoRead v.dynpng_list (fit_width env img) slot) λ a _. returns tt

  pub queue_image-NoRead :
      (v : View) (img : Option Image) (slot : PicIndex) → NoRead (queue_image env v img slot)
  unfolding queue_image
  queue_image-NoRead v none slot = returns tt
  queue_image-NoRead v (some img) slot =
      Avoids-bind (add_to_dpng_queue-NoRead v img slot) λ a _. returns tt

  pub add_picture_item-NoRead :
      (v : View) (picture : Bytes) → NoRead (add_picture_item env v picture)
  unfolding add_picture_item read_pngimg read_jpgimg
  add_picture_item-NoRead v picture = NoRead-bind (read_image-NoRead env.png_decoder picture) λ png.
      NoRead-bind (next_reader png)
        λ img. NoRead-bind (queue_image-NoRead v img (numbered 0)) λ a. NoRead-ok
    where
      next_reader :
          (png : Option Image)
          → NoRead (elim png [ none ↦ read_jpgimg env picture | some i ↦ ok (some i) ])
      next_reader none = read_image-NoRead env.jpg_decoder picture
      next_reader (some i) = NoRead-ok

  pub add_picture_item_rgba-NoRead :
      (v : View) (picture : Bytes) (width height : ℕ)
      → NoRead (add_picture_item_rgba env v picture width height)
  unfolding add_picture_item_rgba convert_rgba_to_rgb8
  add_picture_item_rgba-NoRead v picture width height =
      NoRead-bind (NoRead-bind (convert_pixels-NoRead (width * height) picture) λ bitmap. NoRead-ok)
        λ img. NoRead-bind (queue_image-NoRead v img no_index) λ a. NoRead-ok

  pub add_picture_item_frame-NoRead :
      (v : View) (width height : ℕ) → NoRead (add_picture_item_frame env v width height)
  unfolding add_picture_item_frame
  add_picture_item_frame-NoRead v width height =
      elim (Option-cases (find_oms_frame_by_size v.dynpng_list width height)) [
        | inl e ↦
            rw (e, add_picture_item_frame)
              (Avoids-bind (queue_image-NoRead v (create_frame width height) is_frame)
                λ a _. returns tt)
        | inr (p, e) ↦ rw (e, add_picture_item_frame) (returns tt)
      ]

  hr_wchar-NoRead : (v : View) (img : Option Image) → NoRead (hr_wchar env v img)
  unfolding hr_wchar
  hr_wchar-NoRead v none = returns tt
  hr_wchar-NoRead v (some img) =
      Avoids-bind (add_to_dpng_queue-NoRead v img no_index) λ (w, v') _. kept w v'
    where
      kept : (w : Option ℕ) (v' : View) → NoRead (keep_hr w v')
      kept none v' = returns tt
      kept (some w) v' = returns tt

  pub add_picture_item_hr-NoRead : (v : View) → NoRead (add_picture_item_hr env v)
  unfolding add_picture_item_hr
  add_picture_item_hr-NoRead v = elim (Bool-cases (v.wchar_hr == 0)) [
    | inl e ↦ rw e (hr_wchar-NoRead v (create_delimiter env.text_w 3))
    | inr e ↦ rw e (returns tt)
  ]

  pub add_picture_item_file-NoRead :
      (v : View) (file : Bytes) → NoRead (add_picture_item_file env v file)
  unfolding add_picture_item_file
  add_picture_item_file-NoRead v file = queue_image-NoRead v (env.resource file) no_index
