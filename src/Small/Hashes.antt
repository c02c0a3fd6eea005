-- ===== src/Small/Hashes.antt =====
-- test_hash/31hash.c, test_hash/33hash.c, and `hash` of test_hash/jump_consistent_hash.c.
use recycle_bin.Prelude.{ℕ, ◌+◌, ◌*◌, ◌%◌, ◌^◌, [], ◌∷◌, ◌==◌, if◌then◌else◌, Run, ok, fault, ◌>>=◌}
use recycle_bin.Prelude.Chars.{Bytes}
use recycle_bin.Prelude.Int.{ℤ, schar, unsigned32}

-- `while (*p) hash_val = hash_val * factor + *p++;`, in an `unsigned`.
unfoldable pub hash_loop : (factor hash_val : ℕ) → Bytes → Run ℕ
hash_loop factor hash_val [] = fault
hash_loop factor hash_val (c ∷ p) =
    let rest = hash_loop factor ((hash_val * factor + unsigned32 (schar c)) % 2 ^ 32) p in
    if c == 0 then ok hash_val else rest

-- `hash_val % num_buckets`
unfoldable pub bucket : (hash_val : ℕ) → (num_buckets : ℤ) → Run ℕ
bucket hash_val num_buckets =
    let n = unsigned32 num_buckets in if n == 0 then fault else ok (hash_val % n)

unfoldable pub hash_31 : Bytes → ℤ → Run ℕ
hash_31 s num_buckets = do h ← hash_loop 31 0 s; bucket h num_buckets

unfoldable pub hash_33 : Bytes → ℤ → Run ℕ
hash_33 s num_buckets = do h ← hash_loop 33 0 s; bucket h num_buckets

unfoldable pub jump_hash : Bytes → Run ℕ
jump_hash s = hash_loop 31 0 s
