-- ===== src/Bookmarks/Order.antt =====
-- The order of the bookmarks in the list.
use mathlib.Core.Path.{subst}
use elfloader3_elfs_archive.Prelude.{
  ℕ, ◌+◌, ◌≡◌, refl, Bytes, List, [], ◌∷◌, ◌++◌, Option, none, some, ok, fault, overflow, ◌>>=◌,
  bind-ok, ok-injective, length, leb, if_cases,
}
use elfloader3_elfs_archive.Startup.Address.{same_nocase}
use elfloader3_elfs_archive.FileManager.{Entry, DirEntry, parent}
use elfloader3_elfs_archive.FileManager.Order.{IsListed, sorted_none, add-IsListed}
use elfloader3_elfs_archive.Bookmarks.{
  add_to_flist, above, first_entry, mark_entry, add_marks, Marks, Phone, find_files,
}

fault-ok {ℓ} : {A : Type ℓ} {a : A} → ¬ (fault overflow ≡ ok a)
fault-ok h = cc

empty-IsListed : IsListed ([], 0)
empty-IsListed = record { ordered = sorted_none; counted = refl }

add_to_flist-IsListed :
    (e : Entry) (r : List Entry × ℕ) → IsListed r → IsListed (add_to_flist e r.0, r.1 + 1)
unfolding add_to_flist
add_to_flist-IsListed e r l = add-IsListed e r l

above-IsListed :
    (str : Bytes) (o : Option Bytes) (r : List Entry × ℕ) → above str o ≡ ok r → IsListed r
above-IsListed str none r h = cc
above-IsListed str (some path) r h =
    subst IsListed (ok-injective h) (add_to_flist-IsListed _ ([], 0) empty-IsListed)

first_entry-IsListed :
    (path str : Bytes) (r : List Entry × ℕ) → first_entry path str ≡ ok r → IsListed r
unfolding first_entry
first_entry-IsListed path str r =
    if_cases (λ o. o ≡ ok r → IsListed r) (same_nocase str path)
      (λ same h. subst IsListed (ok-injective h) empty-IsListed)
      (λ other.
        if_cases (λ o. o ≡ ok r → IsListed r) (leb 129 (length str)) (λ long h. absurd (fault-ok h))
          (λ short. above-IsListed str (parent str) r))

add_marks-IsListed :
    (ds : List DirEntry) (r r' : List Entry × ℕ) → IsListed r → add_marks ds r ≡ ok r' → IsListed r'
unfolding add_marks
add_marks-IsListed [] r r' l h = subst IsListed (ok-injective h) l
add_marks-IsListed (d ∷ ds) r r' l h =
    let (e, made, h') = bind-ok (mark_entry d) _ h in
    add_marks-IsListed ds (add_to_flist e r.0, r.1 + 1) r' (add_to_flist-IsListed e r l) h'

find_files-ok :
    (p : Phone) (str : Bytes) (m m' : Marks)
    → (do
      r0 ← first_entry p.bookmarks_path str
      r ← add_marks (p.dir (str ++ 42 ∷ [])) r0
      ok (record m { entries = r.0; items = r.1; current_folder = some str }))
      ≡ ok m'
    → IsListed (m'.entries, m'.items)
find_files-ok p str m m' h =
    let (r0, e0, h0) = bind-ok (first_entry p.bookmarks_path str) _ h in
    let (r, e, h1) = bind-ok (add_marks (p.dir (str ++ 42 ∷ [])) r0) _ h0 in
    subst (λ m. IsListed (m.entries, m.items)) (ok-injective h1)
      (add_marks-IsListed _ r0 r (first_entry-IsListed _ str r0 e0) e)

-- The window of the bookmarks has as many items as its list has entries, and no two neighbours there
-- have their names in the wrong order.
pub find_files-IsListed :
    (p : Phone) (str : Bytes) (m m' : Marks)
    → find_files p str m ≡ ok m'
    → IsListed (m'.entries, m'.items)
unfolding find_files
find_files-IsListed p str m m' =
    if_cases (λ o. o ≡ ok m' → IsListed (m'.entries, m'.items)) (leb 255 (length str))
      (λ long h. absurd (fault-ok h)) (λ short h. find_files-ok p str m m' h)
