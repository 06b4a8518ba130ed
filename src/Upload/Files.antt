-- ===== src/Upload/Files.antt =====
-- The bytes of a file fit what `GetFileDataLen` counts for them.
use elfloader3_elfs_archive.Prelude.{
  ℕ, zero, suc, ◌+◌, ◌*◌, ◌/◌, ◌^◌, ◌≤◌, ◌<◌, ◌≡◌, refl, ap, ◌∙◌, false, Bytes, [], ◌∷◌, ◌++◌, none,
  some, Out, Fault, ok, fault, eq_bind, length, length-append, take, drop, leb, ==→eq, ◌==◌,
  if◌then◌else◌, if_intro, if_false, Bool-cases, Option-cases, inl, inr, arith,
}
use elfloader3_elfs_archive.Upload.{
  Disk, bufsize, file_data_signature, get_file_data_len, fill_loop, fill_opened, fill_file_data,
  has_room,
}

-- `Base64Encode` gives four characters for three bytes, and the size of a file is the number of its bytes; a
-- file that has no size cannot be opened.
pub record IsDisk (d : Disk) : Type 0 where
  pub encodes : (s : Bytes) → length (d.base64_encode s) ≤ (length s + 2) / 3 * 4
  pub sizes :
      (name size : ℕ) (bytes : Bytes)
      → d.file_size name ≡ some size
      → d.file_bytes name ≡ some bytes
      → length bytes ≡ size
  pub opens : (name : ℕ) → d.file_size name ≡ none → d.file_bytes name ≡ none

length-take-drop : (n : ℕ) (s : Bytes) → length (take n s) + length (drop n s) ≡ length s
length-take-drop zero s = omega arith
length-take-drop (suc n) [] = omega arith
length-take-drop (suc n) (c ∷ s) = omega (arith, length-take-drop n s)

length-take : (n : ℕ) (s : Bytes) → length (take n s) ≤ n
length-take zero s = omega arith
length-take (suc n) [] = omega arith
length-take (suc n) (c ∷ s) = omega (arith, length-take n s)

short-part : (n : ℕ) (s : Bytes) → (length (take n s) == n) ≡ false → length (take n s) ≡ length s
short-part zero s e = cc
short-part (suc n) [] e = refl
short-part (suc n) (c ∷ s) e = ap suc (short-part n s (ground (arith, e)))

-- Enough rounds: each takes a part off.
abbrev Fills : Disk → Bytes → Out Bytes → Type 0
Fills d rest m = (text : Bytes) × (m ≡ ok text) × (length text ≤ (length rest + 2) / 3 * 4)

fill_loop-Fills :
    (d : Disk) (fuel : ℕ) (rest : Bytes)
    → IsDisk d
    → length rest < fuel
    → Fills d rest (fill_loop d fuel rest)
unfolding fill_loop
fill_loop-Fills d zero rest disk lt = absurd (omega (arith, lt))
fill_loop-Fills d (suc fuel) rest disk lt =
    let part = take bufsize rest in
    let l = length-take-drop bufsize rest in
    let enc = disk.encodes part in
    elim (Bool-cases (length part == bufsize)) [
      | inl full ↦
          let n = ==→eq (length part) bufsize full in
          let (text, e, few) =
            fill_loop-Fills d fuel (drop bufsize rest) disk (omega (arith, lt, l, n)) in
          let la = length-append (d.base64_encode part) text in
          (d.base64_encode part ++ text, rw (full, e) refl, omega (arith, la, enc, few, l, n))
      | inr last ↦
          let n = short-part bufsize rest last in
          (d.base64_encode part, rw last refl, omega (arith, enc, n))
    ]

-- What is counted for a file covers what is written of it with the size that was noted.
pub data FileFits (d : Disk) (name : ℕ) : Out (ℕ × ℕ) → Type 0 where
  file_fits :
      {n filesize : ℕ} {text : Bytes}
      → fill_file_data d name filesize ≡ ok text
      → length text ≤ n
      → FileFits d name (ok (n, filesize))
  not_counted : {f : Fault} → FileFits d name (fault f)

fill-none :
    (d : Disk) (name filesize : ℕ)
    → d.file_bytes name ≡ none
    → fill_file_data d name filesize ≡ ok []
unfolding fill_file_data fill_opened
fill-none d name filesize e = rw e (if_intro (λ m. m ≡ ok []) (filesize == 0) refl refl)

fill-zero : (d : Disk) (name : ℕ) → fill_file_data d name 0 ≡ ok []
unfolding fill_file_data
fill-zero d name = refl

fill-some :
    (d : Disk) (name filesize : ℕ) (bytes text : Bytes)
    → (filesize == 0) ≡ false
    → d.file_bytes name ≡ some bytes
    → fill_loop d (length bytes + 1) bytes ≡ ok text
    → fill_file_data d name filesize ≡ ok (file_data_signature ++ text)
unfolding fill_file_data fill_opened
fill-some d name filesize bytes text nonzero e filled =
    if_false (filesize == 0) _ _ nonzero
    ∙ (ap (fill_opened d) e ∙ eq_bind (λ (t : Bytes). ok (file_data_signature ++ t)) filled)

calclen-covers : (size : ℕ) → (size + 2) / 3 * 4 + 5 ≤ size * 4 / 3 + 2 + 5 + 1
calclen-covers size = omega arith

sized-FileFits :
    (d : Disk) (name size maxlen : ℕ)
    → IsDisk d
    → d.file_size name ≡ some size
    → (size == 0) ≡ false
    → maxlen ≡ size * 4 / 3 + 2 + 5 + 1
    → FileFits d name (if has_room d.free_ram maxlen then ok (maxlen, size) else ok (0, 0))
sized-FileFits d name size maxlen disk e nonzero covered =
    if_intro (FileFits d name) (has_room d.free_ram maxlen)
      (elim (Option-cases (d.file_bytes name)) [
        | inl missing ↦ file_fits (fill-none d name size missing) (omega arith)
        | inr (bytes, there) ↦
            let (text, filled, few) =
              fill_loop-Fills d (length bytes + 1) bytes disk (omega arith) in
            let same = disk.sizes name size bytes e there in
            file_fits (fill-some d name size bytes text nonzero there filled)
              (omega (arith, covered, few, same, calclen-covers size))
      ])
      (file_fits (fill-zero d name) (omega arith))

pub get_file_data_len-FileFits :
    (d : Disk) (name filesize : ℕ) → IsDisk d → FileFits d name (get_file_data_len d name filesize)
unfolding get_file_data_len
get_file_data_len-FileFits d name filesize disk = elim (Option-cases (d.file_size name)) [
  | inl missing ↦
      rw (get_file_data_len, missing)
        (file_fits (fill-none d name filesize (disk.opens name missing)) (omega arith))
  | inr (size, e) ↦ elim (Bool-cases (size == 0)) [
    | inl empty ↦
        rw (get_file_data_len, e, empty)
          (file_fits (ap (fill_file_data d name) (==→eq size 0 empty) ∙ fill-zero d name)
            (omega arith))
    | inr nonzero ↦ elim (Bool-cases (leb (2 ^ 31) (size * 4))) [
      | inl huge ↦ rw (get_file_data_len, e, nonzero, huge) not_counted
      | inr small ↦
          rw (get_file_data_len, e, nonzero, small)
            (sized-FileFits d name size _ disk e nonzero refl)
    ]
  ]
]
