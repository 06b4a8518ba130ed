-- ===== src/Paths.antt =====
-- BalletMini/file_works.c: names of files in which `$` and a word stand for a folder or the time.
pub mod Expansion
mod Examples
use elfloader3_elfs_archive.Prelude.{
  ℕ, zero, suc, ◌+◌, Bool, Bytes, List, [], ◌∷◌, ◌++◌, Option, none, some, Out, ok, fault, overflow,
  bad_index, ◌>>=◌, length, take, map, leb, ltb, ◌==◌, if◌then◌else◌,
}
use elfloader3_elfs_archive.Oms.Forms.{codes}

-- `BALLET_PATH`, the folder of the program, and what `sprintf` makes of the date and of the time.
pub record Place : Type 0 where
  pub ballet_path : Bytes
  pub date : Bytes
  pub time : Bytes

-- What can stand behind a `$`, by the cases of the switch.
pub data Macro : Type 0 where
  ballet bookmarks pages date omscache resources root search urlcache time : Macro

-- The byte at an index, and the zero behind the last.
abbrev pub byte_at : Bytes → ℕ → ℕ
byte_at [] i = 0
byte_at (c ∷ s) zero = c
byte_at (c ∷ s) (suc i) = byte_at s i

-- Only the first letter, or the first two, are looked at; `b` and `r` fall through to the next case.
abbrev pub macro_at : Bytes → Option Macro
macro_at s =
    let c = byte_at s 0 in
    let d = byte_at s 1 in
    if c == 98
    then if d == 97 then some ballet else if d == 111 then some bookmarks else some pages
    else if c == 112
    then some pages
    else if c == 100
    then some date
    else if c == 111
    then some omscache
    else if c == 114
    then if d == 101 then some resources else if d == 111 then some root else some search
    else if c == 115
    then some search
    else if c == 117
    then some urlcache
    else if c == 116
    then some time
    else none

-- What `ps` moves on by.
abbrev pub skip_of : Macro → ℕ
skip_of ballet = 6
skip_of bookmarks = 9
skip_of pages = 5
skip_of date = 4
skip_of omscache = 8
skip_of resources = 9
skip_of root = 4
skip_of search = 6
skip_of urlcache = 8
skip_of time = 4

-- `path` has `cap` bytes, of which `out` are written. `strcpy` needs a byte more for its zero.
abbrev pub strcpy_at : ℕ → Bytes → Bytes → Out Bytes
strcpy_at cap out text =
    if leb (length out + length text + 1) cap then ok (out ++ text) else fault overflow

abbrev pub memcpy_at : ℕ → Bytes → Bytes → Out Bytes
memcpy_at cap out text =
    if leb (length out + length text) cap then ok (out ++ text) else fault overflow

abbrev pub but_last : Bytes → Bytes
but_last [] = []
but_last (c ∷ []) = []
but_last (c ∷ d ∷ s) = c ∷ but_last (d ∷ s)

-- One step back in the bytes that are written.
abbrev pub back : Bytes → Out Bytes
back [] = fault bad_index
back (c ∷ s) = ok (but_last (c ∷ s))

module _ (p : Place) (cap : ℕ) where
  -- A folder below that of the program: `strcpy` of the one, and behind it of the other.
  abbrev pub below : Bytes → Bytes → Out Bytes
  below name out = do path ← strcpy_at cap out p.ballet_path; strcpy_at cap path name

  unfoldable pub expand_macro : Macro → Bytes → Out Bytes
  expand_macro ballet out = do path ← strcpy_at cap out p.ballet_path; back path
  expand_macro bookmarks out = below (codes "Bookmarks") out
  expand_macro pages out = below (codes "Bookmarks\\oms_pages") out
  expand_macro date out = strcpy_at cap out p.date
  expand_macro omscache out = below (codes "OmsCache") out
  expand_macro resources out = below (codes "img") out
  expand_macro root out = memcpy_at cap out (take 2 (p.ballet_path ++ 0 ∷ 0 ∷ []))
  expand_macro search out = below (codes "Search") out
  expand_macro urlcache out = below (codes "UrlCache") out
  expand_macro time out = strcpy_at cap out p.time

  -- A byte of the name: what is written after it, and how many of the next bytes are passed over.
  unfoldable pub expand_byte : ℕ → Bytes → Bytes → Out (Bytes × ℕ)
  expand_byte c rest out =
      if c == 36
      then elim (macro_at rest) [
        | none ↦ (do path ← memcpy_at cap out (36 ∷ []); ok (path, 0))
        | some m ↦ (do path ← expand_macro m out; ok (path, skip_of m))
      ]
      else (do path ← memcpy_at cap out (c ∷ []); ok (path, 0))

  -- The loop over the name, the first bytes of which may have been passed over.
  unfoldable pub expand : ℕ → Bytes → Bytes → Out Bytes
  expand n [] out = if ltb (length out) cap then ok out else fault overflow
  expand (suc n) (c ∷ rest) out = expand n rest out
  expand zero (c ∷ rest) out = do r ← expand_byte c rest out; expand r.1 rest r.0

abbrev pub onto : ℕ → List Bytes → List Bytes
onto c = map (λ s. c ∷ s)

-- The folders that a path goes through: what it has up to each `\`.
unfoldable pub folders : Bytes → List Bytes
folders [] = []
folders (c ∷ s) = let deeper = onto c (folders s) in if c == 92 then (c ∷ []) ∷ deeper else deeper

abbrev pub sum : List ℕ → ℕ
sum [] = 0
sum (n ∷ ns) = n + sum ns

-- The calls of `_mkdir`, each with what it answers, and the sum of the answers.
unfoldable pub make_dirs : (Bytes → ℕ) → Bytes → Out (List Bytes × ℕ)
make_dirs mkdir path =
    if ltb (length path) 256
    then ok (folders path, sum (map mkdir (folders path)))
    else fault overflow

-- The path, and the folders that were made for it.
unfoldable pub get_symbolic_path : (Bytes → ℕ) → Place → Bytes → Out (Bytes × List Bytes)
get_symbolic_path mkdir p name = do
  path ← expand p (length p.ballet_path + length name + 32) 0 name []
  made ← make_dirs mkdir path
  ok (path, made.0)

-- `exists` is `GetFileStats`: whether there is such a file.
unfoldable pub ballet_fexists : (Bytes → ℕ) → (Bytes → Bool) → Place → Bytes → Out Bool
ballet_fexists mkdir exists p name = do r ← get_symbolic_path mkdir p name; ok (exists r.0)
