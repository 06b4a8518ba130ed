-- ===== src/Startup/Random.antt =====
-- BalletMini/rand.c: the generator of random numbers. Its state is `Seed.lo`, a word of 32 bits.
use elfloader3_elfs_archive.Prelude.{ℕ, ◌+◌, ◌*◌, ◌/◌, ◌%◌, ◌^◌, ◌≤◌, ◌<◌, arith}

-- The next state, and the number.
unfoldable pub mrand : ℕ → ℕ × ℕ
mrand lo = let next = (0x015a4e35 * lo + 1) % 2 ^ 32 in (next, next / 2 ^ 16 % 2 ^ 15)

-- The first number is thrown away.
unfoldable pub msrand : ℕ → ℕ
msrand seed = (mrand seed).0

unfoldable pub mrandom : ℕ → ℕ → ℕ × ℕ
mrandom max lo = let r = mrand lo in (r.0, r.1 % (max + 1))

pub mrand-lt : (lo : ℕ) → (mrand lo).1 < 2 ^ 15
unfolding mrand
mrand-lt lo = omega arith

pub mrandom-le : (max lo : ℕ) → (mrandom max lo).1 ≤ max
unfolding mrandom
mrandom-le max lo = grind arith
