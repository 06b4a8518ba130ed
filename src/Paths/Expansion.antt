-- ===== src/Paths/Expansion.antt =====
-- What a name with words behind `$` stands for.
use elfloader3_elfs_archive.Prelude.{
  ℕ, suc, ◌+◌, ◌≤◌, ◌<◌, ◌≡◌, refl, sym, ap, ◌∙◌, false, Bytes, List, [], ◌∷◌, ◌++◌, append_assoc,
  append-nil, some, ok, ◌>>=◌, eq_bind, length, length-append, take, le→leb, ltb, ◌==◌, if_true,
  if_false, arith,
}
use elfloader3_elfs_archive.Oms.Forms.{codes}
use elfloader3_elfs_archive.Paths.{
  Place, Macro, ballet, bookmarks, pages, date, omscache, resources, root, search, urlcache, time,
  macro_at, skip_of, strcpy_at, memcpy_at, but_last, back, below, expand_macro, expand_byte, expand,
  folders, make_dirs, get_symbolic_path,
}

pub data Piece : Type 0 where
  plain : (c : ℕ) → (c == 36) ≡ false → Piece
  word : Macro → Piece

abbrev pub name_of : Macro → Bytes
name_of ballet = codes "ballet"
name_of bookmarks = codes "bookmarks"
name_of pages = codes "pages"
name_of date = codes "date"
name_of omscache = codes "omscache"
name_of resources = codes "resources"
name_of root = codes "root"
name_of search = codes "search"
name_of urlcache = codes "urlcache"
name_of time = codes "time"

-- The name as it is written.
abbrev pub spelled : List Piece → Bytes
spelled [] = []
spelled (plain c h ∷ ps) = c ∷ spelled ps
spelled (word m ∷ ps) = 36 ∷ (name_of m ++ spelled ps)

-- What the words stand for. The folder of the program is named without its last byte, a `\`.
abbrev pub means : Place → Macro → Bytes
means p ballet = but_last p.ballet_path
means p bookmarks = p.ballet_path ++ codes "Bookmarks"
means p pages = p.ballet_path ++ codes "Bookmarks\\oms_pages"
means p date = p.date
means p omscache = p.ballet_path ++ codes "OmsCache"
means p resources = p.ballet_path ++ codes "img"
means p root = take 2 (p.ballet_path ++ 0 ∷ 0 ∷ [])
means p search = p.ballet_path ++ codes "Search"
means p urlcache = p.ballet_path ++ codes "UrlCache"
means p time = p.time

abbrev pub meaning : Place → List Piece → Bytes
meaning p [] = []
meaning p (plain c h ∷ ps) = c ∷ meaning p ps
meaning p (word m ∷ ps) = means p m ++ meaning p ps

-- The words are told apart by their first letters, and passed over whole.
macro_at-name_of : (m : Macro) (rest : Bytes) → macro_at (name_of m ++ rest) ≡ some m
macro_at-name_of ballet rest = refl
macro_at-name_of bookmarks rest = refl
macro_at-name_of pages rest = refl
macro_at-name_of date rest = refl
macro_at-name_of omscache rest = refl
macro_at-name_of resources rest = refl
macro_at-name_of root rest = refl
macro_at-name_of search rest = refl
macro_at-name_of urlcache rest = refl
macro_at-name_of time rest = refl

skip_of-length : (m : Macro) → skip_of m ≡ length (name_of m)
skip_of-length ballet = refl
skip_of-length bookmarks = refl
skip_of-length pages = refl
skip_of-length date = refl
skip_of-length omscache = refl
skip_of-length resources = refl
skip_of-length root = refl
skip_of-length search = refl
skip_of-length urlcache = refl
skip_of-length time = refl

strcpy_at-fits :
    (cap : ℕ) (out text : Bytes)
    → length out + length text < cap
    → strcpy_at cap out text ≡ ok (out ++ text)
strcpy_at-fits cap out text fits =
    if_true _ _ _ (le→leb (length out + length text + 1) cap (omega (arith, fits)))

memcpy_at-fits :
    (cap : ℕ) (out text : Bytes)
    → length out + length text ≤ cap
    → memcpy_at cap out text ≡ ok (out ++ text)
memcpy_at-fits cap out text fits = if_true _ _ _ (le→leb _ _ fits)

below-fits :
    (p : Place) (cap : ℕ) (name out : Bytes)
    → length out + length (p.ballet_path ++ name) < cap
    → below p cap name out ≡ ok (out ++ (p.ballet_path ++ name))
below-fits p cap name out fits =
    let inner = length-append p.ballet_path name in
    let outer = length-append out p.ballet_path in
    eq_bind _ (strcpy_at-fits cap out p.ballet_path (omega (arith, fits, inner)))
    ∙ (strcpy_at-fits cap (out ++ p.ballet_path) name (omega (arith, fits, inner, outer))
        ∙ ap ok (append_assoc out p.ballet_path name))

length-but_last : (c : ℕ) (s : Bytes) → length (but_last (c ∷ s)) ≡ length s
length-but_last c [] = refl
length-but_last c (d ∷ s) = ap suc (length-but_last d s)

length-but_last_suc : (s : Bytes) → 0 < length s → length s ≡ length (but_last s) + 1
length-but_last_suc [] nonempty = elim nonempty [ ]
length-but_last_suc (c ∷ s) nonempty = omega (arith, length-but_last c s)

back-append : (out s : Bytes) → 0 < length s → back (out ++ s) ≡ ok (out ++ but_last s)
back-append out [] nonempty = elim nonempty [ ]
back-append [] (c ∷ s) nonempty = refl
back-append (x ∷ []) (c ∷ s) nonempty = refl
back-append (x ∷ y ∷ out) (c ∷ s) nonempty =
    ap (λ r. r >>= λ l. ok (x ∷ l)) (back-append (y ∷ out) (c ∷ s) nonempty)

module _ (p : Place) (cap : ℕ) (nonempty : 0 < length p.ballet_path) where
  expand_macro-means :
      (m : Macro) (out : Bytes)
      → length out + length (means p m) + 1 < cap
      → expand_macro p cap m out ≡ ok (out ++ means p m)
  unfolding expand_macro
  expand_macro-means ballet out fits =
      eq_bind _ (
        strcpy_at-fits cap out p.ballet_path
          (omega (arith, fits, length-but_last_suc p.ballet_path nonempty)))
      ∙ back-append out p.ballet_path nonempty
  expand_macro-means bookmarks out fits = below-fits p cap _ out (omega (arith, fits))
  expand_macro-means pages out fits = below-fits p cap _ out (omega (arith, fits))
  expand_macro-means date out fits = strcpy_at-fits cap out p.date (omega (arith, fits))
  expand_macro-means omscache out fits = below-fits p cap _ out (omega (arith, fits))
  expand_macro-means resources out fits = below-fits p cap _ out (omega (arith, fits))
  expand_macro-means root out fits = memcpy_at-fits cap out _ (omega (arith, fits))
  expand_macro-means search out fits = below-fits p cap _ out (omega (arith, fits))
  expand_macro-means urlcache out fits = below-fits p cap _ out (omega (arith, fits))
  expand_macro-means time out fits = strcpy_at-fits cap out p.time (omega (arith, fits))

  expand-skip :
      (passed rest out : Bytes)
      → expand p cap (length passed) (passed ++ rest) out ≡ expand p cap 0 rest out
  unfolding expand
  expand-skip [] rest out = refl
  expand-skip (c ∷ passed) rest out = expand-skip passed rest out

  expand-plain :
      (c : ℕ) (rest out : Bytes)
      → (c == 36) ≡ false
      → length out < cap
      → expand p cap 0 (c ∷ rest) out ≡ expand p cap 0 rest (out ++ c ∷ [])
  unfolding expand expand_byte
  expand-plain c rest out other fits =
      eq_bind _
        (if_false _ _ _ other ∙ eq_bind _ (memcpy_at-fits cap out (c ∷ []) (omega (arith, fits))))

  expand_byte-word :
      (m : Macro) (rest out : Bytes)
      → length out + length (means p m) + 1 < cap
      → expand_byte p cap 36 (name_of m ++ rest) out ≡ ok (out ++ means p m, skip_of m)
  unfolding expand_byte
  expand_byte-word m rest out fits =
      rw (macro_at-name_of m rest) (eq_bind _ (expand_macro-means m out fits))

  expand-word :
      (m : Macro) (rest out : Bytes)
      → length out + length (means p m) + 1 < cap
      → expand p cap 0 (36 ∷ (name_of m ++ rest)) out ≡ expand p cap 0 rest (out ++ means p m)
  unfolding expand
  expand-word m rest out fits =
      eq_bind _ (expand_byte-word m rest out fits)
      ∙ (ap (λ n. expand p cap n (name_of m ++ rest) (out ++ means p m)) (skip_of-length m)
          ∙ expand-skip (name_of m) rest (out ++ means p m))

  expand-end : (out : Bytes) → length out < cap → expand p cap 0 [] out ≡ ok out
  unfolding expand
  expand-end out fits = if_true (ltb (length out) cap) _ _ (ground (arith, fits))

  expand-spelled :
      (ps : List Piece) (out : Bytes)
      → length out + length (meaning p ps) + 1 < cap
      → expand p cap 0 (spelled ps) out ≡ ok (out ++ meaning p ps)
  expand-spelled [] out fits = expand-end out (omega (arith, fits)) ∙ ap ok (sym (append-nil out))
  expand-spelled (plain c other ∷ ps) out fits =
      expand-plain c (spelled ps) out other (omega (arith, fits))
      ∙ (expand-spelled ps (out ++ c ∷ []) (omega (arith, fits, length-append out (c ∷ [])))
          ∙ ap ok (append_assoc out (c ∷ []) (meaning p ps)))
  expand-spelled (word m ∷ ps) out fits =
      let whole = length-append (means p m) (meaning p ps) in
      expand-word m (spelled ps) out (omega (arith, fits, whole))
      ∙ (expand-spelled ps (out ++ means p m)
            (omega (arith, fits, whole, length-append out (means p m)))
          ∙ ap ok (append_assoc out (means p m) (meaning p ps)))

make_dirs-short :
    (mkdir : Bytes → ℕ) (path : Bytes)
    → length path < 256
    → (n : ℕ) × (make_dirs mkdir path ≡ ok (folders path, n))
unfolding make_dirs
make_dirs-short mkdir path short = (_, if_true (ltb (length path) 256) _ _ (ground (arith, short)))

-- A name of plain bytes and of words behind `$`, with the path of the program set: if what the name
-- stands for is shorter than the copy that the folders are made from, and shorter by two than the
-- path's buffer, then it is the path, and the folders made are those that it goes through.
pub get_symbolic_path-spelled :
    (mkdir : Bytes → ℕ) (p : Place) (ps : List Piece)
    → 0 < length p.ballet_path
    → length (meaning p ps) < 256
    → length (meaning p ps) < length p.ballet_path + length (spelled ps) + 31
    → get_symbolic_path mkdir p (spelled ps) ≡ ok (meaning p ps, folders (meaning p ps))
unfolding get_symbolic_path
get_symbolic_path-spelled mkdir p ps nonempty short fits =
    let (n, made) = make_dirs-short mkdir (meaning p ps) short in
    eq_bind _ (expand-spelled p _ nonempty ps [] (omega (arith, fits))) ∙ eq_bind _ made
