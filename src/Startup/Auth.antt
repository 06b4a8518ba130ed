-- ===== src/Startup/Auth.antt =====
-- The identity that the server knows the phone by, and its file: the end of BalletMini/main.c.
use elfloader3_elfs_archive.Prelude.{
  ℕ, zero, suc, ◌+◌, Bool, true, false, Bytes, [], ◌∷◌, ◌++◌, Option, none, some, Out, ok, fault,
  bad_index, ◌>>=◌, length, take, set, ltb, ◌==◌, ◌||◌, if◌then◌else◌,
}
use elfloader3_elfs_archive.Startup.Random.{mrandom, msrand}

-- `AUTH_PREFIX`, of 64 bytes, and `AUTH_CODE`, of 128.
pub record Auth : Type 0 where
  pub auth_prefix : Bytes
  pub auth_code : Bytes

-- The file: its size if it is there, and its bytes if it can be opened.
pub record AuthFile : Type 0 where
  pub size : Option ℕ
  pub bytes : Option Bytes

-- Where a loop over the text has stopped: the last byte it took, the text behind that, the array.
pub record Field : Type 0 where
  pub stop : ℕ
  pub rest : Bytes
  pub array : Bytes

-- The loops that read a field up to a dot or a byte below `least`. `f` is the next index of the array.
unfoldable pub read_field : ℕ → ℕ → Bytes → ℕ → Bytes → Out Field
read_field least limit [] f array = fault bad_index
read_field least limit (c ∷ s) f array =
    let fits = ltb f limit in
    let further =
      read_field least limit s (if fits then f + 1 else f)
        (if fits then set array f c else array) in
    if ltb c least || c == 46 then ok (record { stop = c; rest = s; array = array }) else further

-- The loop between the fields; `none` is the jump to `LEND`.
unfoldable pub skip_control : Bytes → Out (Option Bytes)
skip_control [] = fault bad_index
skip_control (c ∷ s) =
    let further = skip_control s in
    if ltb c 32 then if c == 0 then ok none else further else ok (some (c ∷ s))

unfoldable pub read_code : Auth → Option Bytes → Out (Auth × Bool)
read_code a none = ok (a, false)
read_code a (some s) = do
  field ← read_field 33 127 s 0 a.auth_code
  ok (record a { auth_code = field.array }, true)

-- `buf` with the zero that is put behind what was read.
unfoldable pub parse_auth : Bytes → Auth → Out (Auth × Bool)
parse_auth buf a = do
  field ← read_field 32 63 buf 0 a.auth_prefix
  let a' = record a { auth_prefix = field.array }
  if field.stop == 0 then ok (a', false) else (do rest ← skip_control field.rest; read_code a' rest)

abbrev pub parse_opened : ℕ → Option Bytes → Auth → Out (Auth × Bool)
parse_opened size none a = ok (a, false)
parse_opened size (some bytes) a = parse_auth (take size bytes ++ 0 ∷ []) a

unfoldable pub load_auth_code : AuthFile → Auth → Out (Auth × Bool)
load_auth_code file a = elim file.size [
  | none ↦ ok (a, false)
  | some size ↦ if size == 0 then ok (a, false) else parse_opened size file.bytes a
]

-- The four writes, of which the drive may have room for no more than the first bytes.
unfoldable pub save_auth_code : ℕ → Bytes → Bytes → AuthFile
save_auth_code room prefix code =
    let written = take room (take 6 prefix ++ (46 ∷ (take 64 code ++ 46 ∷ []))) in
    record { size = some (length written); bytes = some written }

-- `snprintf` of a number with `%02d` and with `%02x`.
pub record Format : Type 0 where
  pub two_dec : ℕ → Bytes
  pub two_hex : ℕ → Bytes

module _ (fmt : Format) where
  -- So many numbers up to 255 in hexadecimal.
  unfoldable pub hex_code : ℕ → ℕ → Bytes
  hex_code zero lo = []
  hex_code (suc n) lo = let r = mrandom 255 lo in fmt.two_hex r.1 ++ hex_code n r.0

  -- The prefix and the code that `main` makes from the age of the session.
  unfoldable pub new_auth : ℕ → Bytes × Bytes
  new_auth age =
      let p1 = mrandom 15 (msrand age) in
      let p2 = mrandom 15 p1.0 in
      (112 ∷ (fmt.two_dec p1.1 ++ (45 ∷ fmt.two_dec p2.1)), hex_code 32 p2.0)

-- What the start depends on: the setting, the age of the session, whether the file can be created, and
-- the room that there is for it.
pub record Session : Type 0 where
  pub authcode_create_new : Bool
  pub age : ℕ
  pub creates : Bool
  pub room : ℕ

unfoldable pub create_auth : Format → Session → Auth → Out (Auth × Bool)
create_auth fmt s a =
    if s.creates
    then (let new = new_auth fmt s.age in load_auth_code (save_auth_code s.room new.0 new.1) a)
    else ok (a, false)

-- `main` up to the first address; the result is false where it ends with a message.
unfoldable pub start_auth : Format → Session → AuthFile → Auth → Out (Auth × Bool)
start_auth fmt s file a = do
  r ← load_auth_code file a
  if r.1 then ok r else if s.authcode_create_new then create_auth fmt s r.0 else ok (r.0, true)
