-- ===== src/Upload/Bounds.antt =====
-- What is written for an item of a form is no longer than what is counted for it.
use elfloader3_elfs_archive.Prelude.{
  ℕ, zero, suc, ◌+◌, ◌≤◌, ◌≡◌, Bytes, List, [], ◌∷◌, Option, none, some, Out, ok, fault, ◌>>=◌,
  length, length-append, ◌==◌, arith,
}
use elfloader3_elfs_archive.Encoding.Compare.{short_at}
use elfloader3_elfs_archive.Encoding.Utf8.{oms2ws}
use elfloader3_elfs_archive.Oms.State.{RefCache, View}
use elfloader3_elfs_archive.Upload.{
  text_at, web_of, selection, pair, is_on, count_options, write_options, count_select, write_select,
  count_button, write_button, count_submit, write_submit,
}
use elfloader3_elfs_archive.Upload.Form.{keep_size}
use elfloader3_elfs_archive.Upload.Both.{
  Both, both, first_faults, second_faults, Both-bind, Both-if, IsCovered, text_at-IsCovered,
}

-- The same run on both sides, with its result.
pub Both-same :
    {A C D : Type 0} {S : C → D → Type 0} (m : Out A) {f : A → Out C} {g : A → Out D}
    → ((a : A) → Both S (f a) (g a))
    → Both S (m >>= f) (m >>= g)
Both-same (ok a) next = next a
Both-same (fault e) next = first_faults

pub length-pair : (name text : Bytes) → length (pair name text) ≡ length name + length text + 2
length-pair name text = omega (arith, length-append name (61 ∷ text))

pair-IsCovered :
    (oms : Bytes) (a b : ℕ)
    → Both IsCovered
        (text_at oms a >>= (λ name. text_at oms b >>= (λ text. ok (pair name text))))
        (short_at oms a >>= (λ l. short_at oms b >>= (λ k. ok (l + k + 2))))
pair-IsCovered oms a b = Both-bind (text_at-IsCovered oms a) (λ name l h.
    Both-bind (text_at-IsCovered oms b)
      (λ text k h'. both (omega (arith, length-pair name text, h, h'))))

pair-IsCovered' :
    (oms : Bytes) (a b : ℕ)
    → Both IsCovered
        (text_at oms a >>= (λ name. text_at oms b >>= (λ text. ok (pair name text))))
        (short_at oms a >>= (λ l. short_at oms b >>= (λ k. ok (l + 1 + k + 1))))
pair-IsCovered' oms a b = Both-bind (text_at-IsCovered oms a) (λ name l h.
    Both-bind (text_at-IsCovered oms b)
      (λ text k h'. both (omega (arith, length-pair name text, h, h'))))

options-IsCovered :
    (oms : Bytes) (id n : ℕ) (chosen : List (Option ℕ)) (start : ℕ)
    → Both IsCovered (write_options oms id n chosen start) (count_options oms id n chosen start)
unfolding write_options count_options
options-IsCovered oms id zero chosen start = both (omega arith)
options-IsCovered oms id (suc n) [] start = first_faults
options-IsCovered oms id (suc n) (none ∷ chosen) start = first_faults
options-IsCovered oms id (suc n) (some b ∷ chosen) start = Both-same (short_at oms start) (λ p.
    Both-bind (Both-if (b == 0) (both (omega arith)) (pair-IsCovered oms id (start + 2 + p)))
      (λ written counted h. Both-same (short_at oms (start + 2 + p)) (λ q.
        Both-bind (options-IsCovered oms id n chosen (start + 2 + p + 2 + q + 2))
          (λ more more' h'. both (omega (arith, length-append written more, h, h'))))))

pub select-IsCovered :
    (oms : Bytes) (r : RefCache) → Both IsCovered (write_select oms r) (count_select oms r)
unfolding write_select count_select
select-IsCovered oms r = Both-if (r.multiselect == 0) (pair-IsCovered' oms r.id r.id2) (
    Both-same (short_at oms r.id) (λ p.
      Both-same (selection r.ref_data)
        (λ chosen. options-IsCovered oms r.id r.size chosen (r.id + 2 + p + 3 + 1))))

pub button-IsCovered :
    (oms : Bytes) (v : View) (r : RefCache)
    → Both IsCovered (write_button oms v r) (count_button oms v r)
unfolding write_button count_button
button-IsCovered oms v r =
    Both-same (is_on v r) (λ on. Both-if on (pair-IsCovered' oms r.id r.value) (both (omega arith)))

pub submit-IsCovered :
    (oms : Bytes) (r : RefCache) → Both IsCovered (write_submit oms r) (count_submit oms r)
unfolding write_submit count_submit
submit-IsCovered oms r = Both-bind (text_at-IsCovered oms r.id) (λ name l h.
    Both-same (text_at oms r.value)
      (λ c. both (omega (arith, length-pair name (web_of (oms2ws c)), h))))

-- What is counted, and `filesize`.
abbrev pub IsWithin : Bytes → ℕ × ℕ → Type 0
IsWithin text q = length text ≤ q.0

pub keep-IsWithin :
    {m : Out Bytes} {n : Out ℕ} (filesize : ℕ)
    → Both IsCovered m n
    → Both IsWithin m (keep_size filesize n)
keep-IsWithin filesize (both h) = both h
keep-IsWithin filesize first_faults = first_faults
keep-IsWithin filesize second_faults = second_faults
