-- ===== src/Startup/Created.antt =====
-- The identity that a first start makes for itself.
use elfloader3_elfs_archive.Prelude.{
  ℕ, zero, suc, ◌*◌, ◌≤◌, ◌≡◌, refl, ◌∙◌, true, false, Bytes, [], ◌∷◌, ◌++◌, none, ok, eq_bind,
  length, length-append, replicate, if_true, arith,
}
use elfloader3_elfs_archive.Startup.Random.{mrandom, mrandom-le, msrand}
use elfloader3_elfs_archive.Startup.Auth.{
  Auth, AuthFile, load_auth_code, Format, hex_code, new_auth, Session, create_auth, start_auth,
}
use elfloader3_elfs_archive.Startup.Word.{IsField, field_end, field_byte, IsField-append}
use elfloader3_elfs_archive.Startup.Identity.{load_auth_code-save_auth_code}

-- Two digits, none of them a blank or a dot.
pub record IsDigits (s : Bytes) : Type 0 where
  pub two : length s ≡ 2
  pub digits : IsField 33 s

-- What the library's documentation says of `%02d` and `%02x`.
pub record IsFormat (fmt : Format) : Type 0 where
  pub decimal : (n : ℕ) → n ≤ 99 → IsDigits (fmt.two_dec n)
  pub hexadecimal : (n : ℕ) → n ≤ 255 → IsDigits (fmt.two_hex n)

IsField-weaken : (s : Bytes) → IsField 33 s → IsField 32 s
IsField-weaken [] field_end = field_end
IsField-weaken (c ∷ s) (field_byte h hs) = field_byte (ground (arith, h)) (IsField-weaken s hs)

module _ (fmt : Format) (f : IsFormat fmt) where
  hex_code-IsField : (n lo : ℕ) → IsField 33 (hex_code fmt n lo)
  unfolding hex_code
  hex_code-IsField zero lo = field_end
  hex_code-IsField (suc n) lo =
      IsField-append (fmt.two_hex (mrandom 255 lo).1) (hex_code fmt n (mrandom 255 lo).0)
        (f.hexadecimal _ (mrandom-le 255 lo)).digits (hex_code-IsField n (mrandom 255 lo).0)

  length-hex_code : (n lo : ℕ) → length (hex_code fmt n lo) ≡ 2 * n
  unfolding hex_code
  length-hex_code zero lo = refl
  length-hex_code (suc n) lo = omega (
    arith,
    length-append (fmt.two_hex (mrandom 255 lo).1) (hex_code fmt n (mrandom 255 lo).0),
    (f.hexadecimal _ (mrandom-le 255 lo)).two,
    length-hex_code n (mrandom 255 lo).0,
  )

  module _ (age : ℕ) where
    new_auth-prefix : (length (new_auth fmt age).0 ≡ 6) × IsField 32 (new_auth fmt age).0
    unfolding new_auth
    new_auth-prefix =
        let p1 = mrandom 15 (msrand age) in
        let p2 = mrandom 15 p1.0 in
        let first = f.decimal p1.1 (omega (arith, mrandom-le 15 (msrand age))) in
        let second = f.decimal p2.1 (omega (arith, mrandom-le 15 p1.0)) in
        (
          omega (
            arith,
            length-append (fmt.two_dec p1.1) (45 ∷ fmt.two_dec p2.1),
            first.two,
            second.two,
          ),
          field_byte refl (
              IsField-append (fmt.two_dec p1.1) (45 ∷ fmt.two_dec p2.1)
                (IsField-weaken _ first.digits) (field_byte refl (IsField-weaken _ second.digits))),
        )

    new_auth-code : (length (new_auth fmt age).1 ≡ 64) × IsField 33 (new_auth fmt age).1
    unfolding new_auth
    new_auth-code =
        let lo = (mrandom 15 (mrandom 15 (msrand age)).0).0 in
        (length-hex_code 32 lo, hex_code-IsField 32 lo)

-- The arrays as the program finds them when it is loaded.
abbrev pub blank : Auth
blank = record { auth_prefix = replicate 64 0; auth_code = replicate 128 0 }

-- `auth` behind which the arrays are zero.
abbrev pub filled : Bytes × Bytes → Auth
filled new = record { auth_prefix = new.0 ++ replicate 58 0; auth_code = new.1 ++ replicate 64 0 }

create_auth-new_auth :
    (fmt : Format) (s : Session)
    → IsFormat fmt
    → s.creates ≡ true
    → 72 ≤ s.room
    → create_auth fmt s blank ≡ ok (filled (new_auth fmt s.age), true)
unfolding create_auth
create_auth-new_auth fmt s f creates fits =
    let prefix = new_auth-prefix fmt f s.age in
    let code = new_auth-code fmt f s.age in
    if_true _ _ _ creates
    ∙ load_auth_code-save_auth_code s.room (new_auth fmt s.age).0 (new_auth fmt s.age).1
        (replicate 6 0) (replicate 58 0) (replicate 64 0) (replicate 64 0) fits prefix.1 code.1
        prefix.0 code.0 refl refl

load_auth_code-missing :
    (file : AuthFile) (a : Auth) → file.size ≡ none → load_auth_code file a ≡ ok (a, false)
unfolding load_auth_code
load_auth_code-missing file a missing = rw missing refl

-- A first start, without a file, with the setting that asks for a new identity, on a drive where the
-- file can be created and has room, with the formats of numbers as documented: whatever the age of the
-- session, the browser starts, and the prefix and the code in its arrays are those that were made from
-- the age, with zeros behind them.
pub start_auth-new_auth :
    (fmt : Format) (s : Session) (file : AuthFile)
    → IsFormat fmt
    → file.size ≡ none
    → s.authcode_create_new ≡ true
    → s.creates ≡ true
    → 72 ≤ s.room
    → start_auth fmt s file blank ≡ ok (filled (new_auth fmt s.age), true)
unfolding start_auth
start_auth-new_auth fmt s file f missing asks creates fits =
    eq_bind _ (load_auth_code-missing file blank missing)
    ∙ (if_true _ _ _ asks ∙ create_auth-new_auth fmt s f creates fits)
