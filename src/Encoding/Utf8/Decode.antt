-- ===== src/Encoding/Utf8/Decode.antt =====
-- `oms2ws` reads what a standard UTF-8 encoder writes.
use elfloader3_elfs_archive.Prelude.{
  ℕ, ◌+◌, ◌*◌, ◌/◌, ◌%◌, ◌<◌, ◌≡◌, refl, ap, ◌∙◌, Bool, true, false, Bytes, List, [], ◌∷◌, ◌++◌,
  ltb, ◌==◌, if◌then◌else◌, ◌&&◌, not, ltb→lt, arith, all_below, all_below_sound, ==→eq, Bool-cases,
  inl, inr, and_left, and_right, not-true,
}
use mathlib.Core.Path.{subst}
use elfloader3_elfs_archive.Encoding.Utf8.{join2, join3, is_lead2, is_lead3, oms2ws}

-- The UTF-8 form of a unit below 0x10000.
unfoldable pub utf8 : ℕ → Bytes
utf8 c =
    if ltb c 0x80
    then c ∷ []
    else if ltb c 0x800
    then (0xC0 + c / 64) ∷ (0x80 + c % 64) ∷ []
    else (0xE0 + c / 4096) ∷ (0x80 + c / 64 % 64) ∷ (0x80 + c % 64) ∷ []

unfoldable pub utf8_text : List ℕ → Bytes
unfolding utf8
utf8_text [] = []
utf8_text (c ∷ ws) = utf8 c ++ utf8_text ws

abbrev lead2_join : ℕ → Bool
lead2_join c = is_lead2 (0xC0 + c / 64) && (join2 (0xC0 + c / 64) (0x80 + c % 64) == c)

lead2_table : all_below 0x800 lead2_join ≡ true
unfolding join2
lead2_table = refl

abbrev lead3_join : ℕ → Bool
lead3_join c =
    (is_lead3 (0xE0 + c / 4096) && not (is_lead2 (0xE0 + c / 4096)))
    && (join3 (0xE0 + c / 4096) (0x80 + c / 64 % 64) (0x80 + c % 64) == c)

abbrev lead3_block : ℕ → Bool
lead3_block k = all_below 256 (λ d. lead3_join (256 * k + d))

lead3_table : all_below 256 lead3_block ≡ true
unfolding join3
lead3_table = refl

lead3 : (c : ℕ) → c < 0x10000 → lead3_join c ≡ true
lead3 c h =
    let whole : 256 * (c / 256) + c % 256 ≡ c = omega arith in
    let row = all_below_sound 256 lead3_block (c / 256) lead3_table (omega (arith, h)) in
    let cell =
      all_below_sound 256 (λ d. lead3_join (256 * (c / 256) + d)) (c % 256) row (omega arith) in
    subst (λ n. lead3_join n ≡ true) whole cell

abbrev not_lead : ℕ → Bool
not_lead c = not (is_lead2 c) && not (is_lead3 c)

ascii_table : all_below 0x80 not_lead ≡ true
ascii_table = refl

-- The three forms, each followed by any text.
oms2ws-ascii :
    (c : ℕ) (s : Bytes) → is_lead2 c ≡ false → is_lead3 c ≡ false → oms2ws (c ∷ s) ≡ c ∷ oms2ws s
unfolding oms2ws
oms2ws-ascii c [] h k = refl
oms2ws-ascii c (d ∷ []) h k = rw h refl
oms2ws-ascii c (d ∷ e ∷ s) h k = rw (h, k) refl

oms2ws-two : (c d : ℕ) (s : Bytes) → is_lead2 c ≡ true → oms2ws (c ∷ d ∷ s) ≡ join2 c d ∷ oms2ws s
unfolding oms2ws
oms2ws-two c d [] h = rw h refl
oms2ws-two c d (e ∷ s) h = rw h refl

oms2ws-three :
    (c d e : ℕ) (s : Bytes)
    → is_lead2 c ≡ false
    → is_lead3 c ≡ true
    → oms2ws (c ∷ d ∷ e ∷ s) ≡ join3 c d e ∷ oms2ws s
unfolding oms2ws
oms2ws-three c d e s h k = rw (h, k) refl

oms2ws-utf8 : (c : ℕ) (s : Bytes) → c < 0x10000 → oms2ws (utf8 c ++ s) ≡ c ∷ oms2ws s
unfolding utf8
oms2ws-utf8 c s bound = elim (Bool-cases (ltb c 0x80)) [
  | inl small ↦
      let plain = all_below_sound 0x80 not_lead c ascii_table (ltb→lt c 0x80 small) in
      rw small
        (oms2ws-ascii c s (not-true _ (and_left _ _ plain)) (not-true _ (and_right _ _ plain)))
  | inr large ↦ elim (Bool-cases (ltb c 0x800)) [
    | inl small ↦
        let two = all_below_sound 0x800 lead2_join c lead2_table (ltb→lt c 0x800 small) in
        rw (large, small)
          (oms2ws-two (0xC0 + c / 64) (0x80 + c % 64) s (and_left _ _ two)
            ∙ ap (λ x. x ∷ oms2ws s) (==→eq _ c (and_right _ _ two)))
    | inr large' ↦
        let three = lead3 c bound in
        rw (large, large')
          (oms2ws-three (0xE0 + c / 4096) (0x80 + c / 64 % 64) (0x80 + c % 64) s
              (not-true _ (and_right _ _ (and_left _ _ three))) (and_left _ _ (and_left _ _ three))
            ∙ ap (λ x. x ∷ oms2ws s) (==→eq _ c (and_right _ _ three)))
  ]
]

unfoldable pub Units : List ℕ → Type 0
Units [] = Unit
Units (c ∷ ws) = (c < 0x10000) × Units ws

-- Text of units below 0x10000, written in UTF-8 by the standard's one, two and three byte forms, is read
-- back by `oms2ws` unit by unit.
pub oms2ws-utf8_text : (ws : List ℕ) → Units ws → oms2ws (utf8_text ws) ≡ ws
unfolding utf8_text Units oms2ws
oms2ws-utf8_text [] h = refl
oms2ws-utf8_text (c ∷ ws) (lt, h) =
    oms2ws-utf8 c (utf8_text ws) lt ∙ ap (λ l. c ∷ l) (oms2ws-utf8_text ws h)
