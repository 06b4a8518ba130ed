-- ===== src/Startup/Identity.antt =====
-- That an identity which is written to its file is read back from there.
use elfloader3_elfs_archive.Prelude.{
  ℕ, ◌≤◌, ◌<◌, ◌≡◌, refl, sym, ap, ◌∙◌, true, false, Bytes, [], ◌∷◌, ◌++◌, append_assoc, some, ok,
  eq_bind, length, length-append, take, take_all, ltb, ◌==◌, ◌||◌, if_false, arith,
}
use elfloader3_elfs_archive.Startup.Auth.{
  Auth, read_field, skip_control, read_code, parse_auth, load_auth_code, save_auth_code,
}
use elfloader3_elfs_archive.Startup.Word.{IsField, field_byte, read_field-IsField}

-- The text of the file.
abbrev saved_text : Bytes → Bytes → Bytes
saved_text prefix code = prefix ++ (46 ∷ (code ++ 46 ∷ []))

length-saved_text :
    (prefix code : Bytes)
    → length prefix ≡ 6
    → length code ≡ 64
    → length (saved_text prefix code) ≡ 72
length-saved_text prefix code p6 c64 =
    omega
      (arith, p6, c64, length-append prefix (46 ∷ (code ++ 46 ∷ [])), length-append code (46 ∷ []))

save_auth_code-fits :
    (room : ℕ) (prefix code : Bytes)
    → length prefix ≡ 6
    → length code ≡ 64
    → 72 ≤ room
    → save_auth_code room prefix code
      ≡ record { size = some 72; bytes = some (saved_text prefix code) }
unfolding save_auth_code
save_auth_code-fits room prefix code p6 c64 fits =
    let whole = length-saved_text prefix code p6 c64 in
    ap (λ s. record { size = some (length s); bytes = some s })
      (ap (λ p. take room (p ++ (46 ∷ (take 64 code ++ 46 ∷ []))))
          (take_all 6 prefix (omega (arith, p6)))
        ∙ (ap (λ c. take room (saved_text prefix c)) (take_all 64 code (omega (arith, c64)))
            ∙ take_all room (saved_text prefix code) (omega (arith, whole, fits))))
    ∙ ap (λ n. record { size = some n; bytes = some (saved_text prefix code) }) whole

skip_control-byte :
    (c : ℕ) (s : Bytes) → (ltb c 33 || c == 46) ≡ false → skip_control (c ∷ s) ≡ ok (some (c ∷ s))
unfolding skip_control
skip_control-byte c s h = if_false (ltb c 32) _ _ (ground (arith, h))

skip_control-IsField :
    (code rest : Bytes)
    → IsField 33 code
    → 0 < length code
    → skip_control (code ++ rest) ≡ ok (some (code ++ rest))
skip_control-IsField [] rest h nonempty = elim nonempty [ ]
skip_control-IsField (c ∷ code) rest (field_byte on h) nonempty =
    skip_control-byte c (code ++ rest) on

read_code-IsField :
    (a : Auth) (code oldc tailc : Bytes)
    → IsField 33 code
    → length code ≡ 64
    → length oldc ≡ 64
    → a.auth_code ≡ oldc ++ tailc
    → read_code a (some (code ++ (46 ∷ 0 ∷ []))) ≡ ok (record a { auth_code = code ++ tailc }, true)
unfolding read_code
read_code-IsField a code oldc tailc h c64 o64 e = eq_bind _ (
    ap (read_field 33 127 (code ++ (46 ∷ 0 ∷ [])) 0) e
    ∙ read_field-IsField 33 127 code (0 ∷ []) [] oldc tailc h (o64 ∙ sym c64) (omega (arith, c64)))

parse_auth-saved_text :
    (prefix code oldp tailp oldc tailc : Bytes)
    → IsField 32 prefix
    → IsField 33 code
    → length prefix ≡ 6
    → length code ≡ 64
    → length oldp ≡ 6
    → length oldc ≡ 64
    → parse_auth
        (prefix ++ (46 ∷ (code ++ (46 ∷ 0 ∷ []))))
        (record { auth_prefix = oldp ++ tailp; auth_code = oldc ++ tailc })
      ≡ ok (record { auth_prefix = prefix ++ tailp; auth_code = code ++ tailc }, true)
unfolding parse_auth
parse_auth-saved_text prefix code oldp tailp oldc tailc hp hc p6 c64 op oc =
    eq_bind _ (
      read_field-IsField 32 63 prefix (code ++ (46 ∷ 0 ∷ [])) [] oldp tailp hp (op ∙ sym p6)
        (omega (arith, p6)))
    ∙ (eq_bind _ (skip_control-IsField code (46 ∷ 0 ∷ []) hc (omega (arith, c64)))
        ∙ read_code-IsField (record { auth_prefix = prefix ++ tailp; auth_code = oldc ++ tailc })
            code oldc tailc hc c64 oc refl)

ended :
    (prefix code : Bytes)
    → saved_text prefix code ++ 0 ∷ [] ≡ prefix ++ (46 ∷ (code ++ (46 ∷ 0 ∷ [])))
ended prefix code =
    append_assoc prefix (46 ∷ (code ++ 46 ∷ [])) (0 ∷ [])
    ∙ ap (λ s. prefix ++ (46 ∷ s)) (append_assoc code (46 ∷ []) (0 ∷ []))

-- A prefix of six bytes and a code of 64, none of them a dot or a byte that ends its field, written to
-- a drive with room for them: they are read back over the first bytes of the two arrays, and what the
-- arrays held behind those stays.
pub load_auth_code-save_auth_code :
    (room : ℕ) (prefix code oldp tailp oldc tailc : Bytes)
    → 72 ≤ room
    → IsField 32 prefix
    → IsField 33 code
    → length prefix ≡ 6
    → length code ≡ 64
    → length oldp ≡ 6
    → length oldc ≡ 64
    → load_auth_code
        (save_auth_code room prefix code)
        (record { auth_prefix = oldp ++ tailp; auth_code = oldc ++ tailc })
      ≡ ok (record { auth_prefix = prefix ++ tailp; auth_code = code ++ tailc }, true)
unfolding load_auth_code
load_auth_code-save_auth_code room prefix code oldp tailp oldc tailc fits hp hc p6 c64 op oc =
    let a : Auth = record { auth_prefix = oldp ++ tailp; auth_code = oldc ++ tailc } in
    ap (λ file. load_auth_code file a) (save_auth_code-fits room prefix code p6 c64 fits)
    ∙ (ap (λ s. parse_auth (s ++ 0 ∷ []) a)
          (take_all 72 (saved_text prefix code)
            (omega (arith, length-saved_text prefix code p6 c64)))
        ∙ (ap (λ s. parse_auth s a) (ended prefix code)
            ∙ parse_auth-saved_text prefix code oldp tailp oldc tailc hp hc p6 c64 op oc))
