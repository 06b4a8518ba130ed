-- ===== src/FileManager/Order.antt =====
-- The order of the entries in the list.
use mathlib.Core.Path.{subst}
use mathlib.Core.List.{Perm, perm_middle}
use mathlib.Core.List.Perm
use elfloader3_elfs_archive.Prelude.{
  sym, ℕ, suc, ◌+◌, ◌≡◌, refl, ap, ◌∙◌, true, false, Bytes, List, [], ◌∷◌, ◌++◌, ok, fault,
  overflow, bind-ok, ok-injective, length, map, leb, ◌==◌, ◌||◌, sub_ℕ, Bool, if◌then◌else◌,
  if_true, if_false, if_cases, if_intro, inl, inr, Bool-cases, arith,
}
use elfloader3_elfs_archive.Encoding.Compare.{strcmp_nocase, fold_case}
use elfloader3_elfs_archive.FileManager.{
  Entry, is_file, is_folder, below_zero, is_less, add_to_flist_fm, parent, back_entry, DirEntry,
  dir_entry, add_all, find_files_fm,
}

-- No entry comes after one whose name is behind its own.
pub data IsSorted : List Entry → Type 0 where
  sorted_none : IsSorted []
  sorted_one : (e : Entry) → IsSorted (e ∷ [])
  sorted_more :
      {e f : Entry} {es : List Entry}
      → is_less f.name e.name ≡ false
      → IsSorted (f ∷ es)
      → IsSorted (e ∷ f ∷ es)

sub-asym : (a b : ℕ) → below_zero (sub_ℕ a b) ≡ true → below_zero (sub_ℕ b a) ≡ false
sub-asym a b h = ground arith

==-comm : (a b : ℕ) → (a == b) ≡ (b == a)
==-comm a b = ground arith

strcmp_nocase-same :
    (c d : ℕ) (s t : Bytes)
    → (fold_case c == fold_case d) ≡ true
    → strcmp_nocase (c ∷ s) (d ∷ t) ≡ strcmp_nocase s t
unfolding strcmp_nocase
strcmp_nocase-same c d s t same = if_true _ _ _ same

strcmp_nocase-other :
    (c d : ℕ) (s t : Bytes)
    → (fold_case c == fold_case d) ≡ false
    → strcmp_nocase (c ∷ s) (d ∷ t) ≡ sub_ℕ (fold_case c) (fold_case d)
unfolding strcmp_nocase
strcmp_nocase-other c d s t other = if_false _ _ _ other

strcmp_nocase-asym :
    (s t : Bytes) → below_zero (strcmp_nocase s t) ≡ true → below_zero (strcmp_nocase t s) ≡ false
unfolding strcmp_nocase
strcmp_nocase-asym [] [] h = cc
strcmp_nocase-asym [] (d ∷ t) h = refl
strcmp_nocase-asym (c ∷ s) [] h = cc
strcmp_nocase-asym (c ∷ s) (d ∷ t) h =
    let swap = ==-comm (fold_case d) (fold_case c) in
    elim (Bool-cases (fold_case c == fold_case d)) [
      | inl same ↦
          ap below_zero (strcmp_nocase-same d c t s (swap ∙ same))
          ∙ strcmp_nocase-asym s t (sym (ap below_zero (strcmp_nocase-same c d s t same)) ∙ h)
      | inr other ↦
          ap below_zero (strcmp_nocase-other d c t s (swap ∙ other))
          ∙ sub-asym (fold_case c) (fold_case d)
              (sym (ap below_zero (strcmp_nocase-other c d s t other)) ∙ h)
    ]

is_less-asym : (s t : Bytes) → is_less s t ≡ true → is_less t s ≡ false
unfolding is_less
is_less-asym s t h = strcmp_nocase-asym s t h

add-before :
    (e f : Entry) (fs : List Entry)
    → is_less f.name e.name ≡ false
    → add_to_flist_fm e (f ∷ fs) ≡ e ∷ f ∷ fs
unfolding add_to_flist_fm
add-before e f fs h = if_false _ _ _ h

add-behind :
    (e f : Entry) (fs : List Entry)
    → is_less f.name e.name ≡ true
    → add_to_flist_fm e (f ∷ fs) ≡ f ∷ add_to_flist_fm e fs
unfolding add_to_flist_fm
add-behind e f fs h = if_true _ _ _ h

add-empty : (e : Entry) → add_to_flist_fm e [] ≡ e ∷ []
unfolding add_to_flist_fm
add-empty e = refl

IsSorted-tail : {e : Entry} {es : List Entry} → IsSorted (e ∷ es) → IsSorted es
IsSorted-tail (sorted_one e) = sorted_none
IsSorted-tail (sorted_more h s) = s

-- An entry that goes behind `f` is put there in front of what stands behind `f`, or further on.
IsSorted-behind :
    (f e : Entry) (fs : List Entry)
    → is_less f.name e.name ≡ true
    → IsSorted (f ∷ fs)
    → IsSorted (f ∷ add_to_flist_fm e fs)
IsSorted-behind f e [] h s =
    subst (λ l. IsSorted (f ∷ l)) (sym (add-empty e))
      (sorted_more (is_less-asym _ _ h) (sorted_one e))
IsSorted-behind f e (g ∷ gs) h (sorted_more order s) = elim (Bool-cases (is_less g.name e.name)) [
  | inl behind ↦
      subst (λ l. IsSorted (f ∷ l)) (sym (add-behind e g gs behind))
        (sorted_more order (IsSorted-behind g e gs behind s))
  | inr before ↦
      subst (λ l. IsSorted (f ∷ l)) (sym (add-before e g gs before))
        (sorted_more (is_less-asym _ _ h) (sorted_more before s))
]

add_to_flist_fm-IsSorted :
    (e : Entry) (es : List Entry) → IsSorted es → IsSorted (add_to_flist_fm e es)
add_to_flist_fm-IsSorted e [] s = subst IsSorted (sym (add-empty e)) (sorted_one e)
add_to_flist_fm-IsSorted e (f ∷ fs) s = elim (Bool-cases (is_less f.name e.name)) [
  | inl behind ↦ subst IsSorted (sym (add-behind e f fs behind)) (IsSorted-behind f e fs behind s)
  | inr before ↦ subst IsSorted (sym (add-before e f fs before)) (sorted_more before s)
]

length-add_to_flist_fm :
    (e : Entry) (es : List Entry) → length (add_to_flist_fm e es) ≡ length es + 1
unfolding add_to_flist_fm
length-add_to_flist_fm e [] = refl
length-add_to_flist_fm e (f ∷ fs) =
    let behind : length (f ∷ add_to_flist_fm e fs) ≡ length (f ∷ fs) + 1 =
      omega (arith, length-add_to_flist_fm e fs) in
    let before : length (e ∷ f ∷ fs) ≡ length (f ∷ fs) + 1 = omega arith in
    if_intro (λ (l : List Entry). length l ≡ length (f ∷ fs) + 1) (is_less f.name e.name) behind
      before

-- A list in its order, with the number of its entries.
pub record IsListed (r : List Entry × ℕ) : Type 0 where
  pub ordered : IsSorted r.0
  pub counted : r.1 ≡ length r.0

pub add-IsListed :
    (e : Entry) (r : List Entry × ℕ) → IsListed r → IsListed (add_to_flist_fm e r.0, r.1 + 1)
add-IsListed e r l = record {
  ordered = add_to_flist_fm-IsSorted e r.0 l.ordered;
  counted = omega (arith, l.counted, length-add_to_flist_fm e r.0);
}

add_to_flist_fm-Perm : (e : Entry) (es : List Entry) → Perm (add_to_flist_fm e es) (e ∷ es)
add_to_flist_fm-Perm e [] = subst (λ l. Perm l (e ∷ [])) (sym (add-empty e)) (Perm.refl (e ∷ []))
add_to_flist_fm-Perm e (f ∷ fs) = elim (Bool-cases (is_less f.name e.name)) [
  | inl behind ↦
      subst (λ l. Perm l (e ∷ f ∷ fs)) (sym (add-behind e f fs behind))
        (Perm.trans (Perm.cons f (add_to_flist_fm-Perm e fs)) (Perm.swap e f fs))
  | inr before ↦
      subst (λ l. Perm l (e ∷ f ∷ fs)) (sym (add-before e f fs before)) (Perm.refl (e ∷ f ∷ fs))
]

-- What the list shows of an entry of the folder: a folder's name has a `\` in front of it, and its path one
-- behind it.
abbrev pub entry_of : DirEntry → Entry
entry_of d =
    if d.is_directory
    then record {
      kind = is_folder;
      fullname = d.folder_name ++ (92 ∷ d.file_name) ++ 92 ∷ [];
      name = 92 ∷ d.file_name;
    }
    else record {
      kind = is_file;
      fullname = d.folder_name ++ (92 ∷ d.file_name);
      name = d.file_name;
    }

-- An entry that was made is that of a folder or that of a file.
made_as :
    (long is_directory long' : Bool) (folder file e : Entry)
    → (if long
        then fault overflow
        else if is_directory
        then if long' then fault overflow else ok folder
        else ok file)
      ≡ ok e
    → e ≡ (if is_directory then folder else file)
made_as true b long' folder file e h = cc
made_as false true true folder file e h = cc
made_as false true false folder file e h = cc
made_as false false long' folder file e h = cc

dir_entry-entry_of : (d : DirEntry) (e : Entry) → dir_entry d ≡ ok e → e ≡ entry_of d
unfolding dir_entry
dir_entry-entry_of d e h =
    made_as _ d.is_directory
      (leb 255 (length (d.folder_name ++ (92 ∷ d.file_name))) || leb 127 (length d.file_name)) _ _ e
      h

add_all-Perm :
    (ds : List DirEntry) (r r' : List Entry × ℕ)
    → add_all ds r ≡ ok r'
    → Perm r'.0 (map entry_of ds ++ r.0)
unfolding add_all
add_all-Perm [] r r' h = subst (λ q. Perm q.0 r.0) (ok-injective h) (Perm.refl r.0)
add_all-Perm (d ∷ ds) r r' h =
    let (e, made, h') = bind-ok (dir_entry d) _ h in
    let further = add_all-Perm ds (add_to_flist_fm e r.0, r.1 + 1) r' h' in
    subst (λ f. Perm r'.0 (f ∷ map entry_of ds ++ r.0)) (dir_entry-entry_of d e made)
      (Perm.trans further (
        Perm.trans (Perm.append_left (map entry_of ds) (add_to_flist_fm-Perm e r.0))
          (perm_middle (map entry_of ds) r.0)))

plus_zero : (n : ℕ) → n ≡ n + 0
plus_zero n = omega arith

plus_suc : (n m : ℕ) → n + 1 + m ≡ n + suc m
plus_suc n m = omega arith

add_all-IsListed :
    (ds : List DirEntry) (r r' : List Entry × ℕ)
    → IsListed r
    → add_all ds r ≡ ok r'
    → IsListed r' × (r'.1 ≡ r.1 + length ds)
unfolding add_all
add_all-IsListed [] r r' l h =
    let same = ok-injective h in (subst IsListed same l, ap (λ r. r.1) (sym same) ∙ plus_zero r.1)
add_all-IsListed (d ∷ ds) r r' l h =
    let (e, made, h') = bind-ok (dir_entry d) _ h in
    let (l', n) = add_all-IsListed ds (add_to_flist_fm e r.0, r.1 + 1) r' (add-IsListed e r l) h' in
    (l', n ∙ plus_suc r.1 (length ds))

fault-ok : {r : List Entry × ℕ} → ¬ (fault overflow ≡ ok r)
fault-ok h = cc

first-IsListed :
    (root str : Bytes) → IsListed (add_to_flist_fm (back_entry root (parent str)) [], 1)
first-IsListed root str =
    let e = back_entry root (parent str) in
    record {
      ordered = add_to_flist_fm-IsSorted e [] sorted_none;
      counted = sym (length-add_to_flist_fm e []);
    }

-- The way back and the entries of the folder.
abbrev pub shown_in : (Bytes → List DirEntry) → Bytes → Bytes → List Entry
shown_in dir root str = map entry_of (dir (str ++ 42 ∷ [])) ++ back_entry root (parent str) ∷ []

-- If no name is too long for its buffer, the list of a folder has exactly the way back and the folder's
-- entries, each under its name and its path, as many as `FindFilesFM` returns, and no two neighbours whose names
-- are in the wrong order.
pub find_files_fm-IsListed :
    (dir : Bytes → List DirEntry) (root str : Bytes) (r : List Entry × ℕ)
    → find_files_fm dir root str ≡ ok r
    → IsListed r × (r.1 ≡ 1 + length (dir (str ++ 42 ∷ []))) × Perm r.0 (shown_in dir root str)
unfolding find_files_fm
find_files_fm-IsListed dir root str r =
    let back = back_entry root (parent str) in
    let ds = dir (str ++ 42 ∷ []) in
    if_cases (λ o. o ≡ ok r → IsListed r × (r.1 ≡ 1 + length ds) × Perm r.0 (shown_in dir root str))
      (leb 255 (length str) || leb 129 (length str)) (λ long h. absurd (fault-ok h))
      (λ short h.
        let (listed, counted) = add_all-IsListed ds _ r (first-IsListed root str) h in
        (
          listed,
          counted,
          Perm.trans (add_all-Perm ds _ r h)
              (Perm.append_left (map entry_of ds) (add_to_flist_fm-Perm back [])),
        ))
