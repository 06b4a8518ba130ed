-- ===== src/Upload/Whole.antt =====
-- The buffer of the parameters holds all that is written into it, with one file at most.
use elfloader3_elfs_archive.Prelude.{ℕ, ◌+◌, Bytes, ◌++◌, Out, ok, ◌>>=◌}
use elfloader3_elfs_archive.Upload.Both.{Both}

-- The text of an item and that of the items behind it.
abbrev joined : Out Bytes → Out Bytes → Out Bytes
joined m n = m >>= (λ t. n >>= (λ u. ok (t ++ u)))

abbrev counted : Out (ℕ × ℕ) → (ℕ → Out (ℕ × ℕ)) → Out (ℕ × ℕ)
counted m c = m >>= (λ q. c q.1 >>= (λ q'. ok (q.0 + q'.0, q'.1)))
