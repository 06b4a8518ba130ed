-- ===== src/FileManager/Menu.antt =====
-- Which entry stands at a place of the window.
use elfloader3_elfs_archive.Prelude.{
  ℕ, zero, suc, ◌-◌, ◌≡◌, refl, sym, ap, ◌∙◌, Bool, true, false, List, [], ◌∷◌, ◌++◌, Option, none,
  some, get_elem?, ◌==◌, ◌&&◌, if◌then◌else◌, if_false, arith,
}
use elfloader3_elfs_archive.FileManager.{
  Kind, is_back, is_folder, is_file, same_kind, Entry, find_flist_by_ns, find_flist_by_n, found,
}

-- The entries of a kind, in their order.
abbrev pub of_kind : Kind → List Entry → List Entry
of_kind k [] = []
of_kind k (e ∷ es) = if same_kind e.kind k then e ∷ of_kind k es else of_kind k es

-- The window: the way back, the folders, the files.
abbrev pub menu_of : List Entry → List Entry
menu_of es = of_kind is_back es ++ (of_kind is_folder es ++ of_kind is_file es)

-- What a search finds in the list of its kind.
abbrev looked_up : List Entry → ℕ → Option Entry × ℕ
looked_up [] i = (none, i)
looked_up (e ∷ es) zero = (some e, 0)
looked_up (e ∷ es) (suc i) = looked_up es i

pred : (i : ℕ) → suc i - 1 ≡ i
pred i = omega arith

suc_nonzero : (i : ℕ) → (suc i == 0) ≡ false
suc_nonzero i = ground arith

-- A step of the search, at an entry of the kind or not.
find-step :
    (b : Bool) (k : Kind) (i : ℕ) (e : Entry) (es : List Entry)
    → ((j : ℕ) → find_flist_by_ns k j es ≡ looked_up (of_kind k es) j)
    → (if b && i == 0 then (some e, i) else find_flist_by_ns k (if b then i - 1 else i) es)
      ≡ looked_up (if b then e ∷ of_kind k es else of_kind k es) i
find-step true k zero e es h = refl
find-step true k (suc i) e es h =
    if_false (suc i == 0) _ _ (suc_nonzero i) ∙ ap (λ j. find_flist_by_ns k j es) (pred i) ∙ h i
find-step false k i e es h = h i

find_flist_by_ns-of_kind :
    (k : Kind) (i : ℕ) (es : List Entry) → find_flist_by_ns k i es ≡ looked_up (of_kind k es) i
unfolding find_flist_by_ns
find_flist_by_ns-of_kind k i [] = refl
find_flist_by_ns-of_kind k i (e ∷ es) =
    find-step (same_kind e.kind k) k i e es (λ j. find_flist_by_ns-of_kind k j es)

-- Where nothing is found, the number that is left is that in the lists behind.
looked_up-append :
    (xs ys : List Entry) (i : ℕ)
    → get_elem? (xs ++ ys) i
      ≡ (if found (looked_up xs i) then (looked_up xs i).0 else get_elem? ys (looked_up xs i).1)
looked_up-append [] ys i = refl
looked_up-append (x ∷ xs) ys zero = refl
looked_up-append (x ∷ xs) ys (suc i) = looked_up-append xs ys i

looked_up-get_elem? : (xs : List Entry) (i : ℕ) → (looked_up xs i).0 ≡ get_elem? xs i
looked_up-get_elem? [] i = refl
looked_up-get_elem? (x ∷ xs) zero = refl
looked_up-get_elem? (x ∷ xs) (suc i) = looked_up-get_elem? xs i

-- The search finds the entry at a place of the window: the ways back first, then the folders, then the
-- files, each in the order of the list; and nothing behind the last.
pub find_flist_by_n-menu_of :
    (n : ℕ) (es : List Entry) → find_flist_by_n n es ≡ get_elem? (menu_of es) n
unfolding find_flist_by_n
find_flist_by_n-menu_of n es =
    let backs = of_kind is_back es in
    let folders = of_kind is_folder es in
    let files = of_kind is_file es in
    let i = (looked_up backs n).1 in
    let j = (looked_up folders i).1 in
    rw
      (
        find_flist_by_ns-of_kind is_back n es,
        find_flist_by_ns-of_kind is_folder i es,
        find_flist_by_ns-of_kind is_file j es,
        looked_up-get_elem? files j,
      )
      (sym (
        looked_up-append backs (folders ++ files) n
        ∙ ap (λ o. if found (looked_up backs n) then (looked_up backs n).0 else o)
            (looked_up-append folders files i)))
