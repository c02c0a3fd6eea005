-- ===== src/HoString/Examples.antt =====
-- The theorems about libc/ho_string at concrete strings.
use recycle_bin.Prelude.{
  ◌≤◌, ◌<◌, ◌≡◌, ◌↔◌, [], ◌∷◌, ◌++◌, arith, length, take, drop, replicate, ok, fault, Returns,
}
use recycle_bin.Prelude.Chars.{Bytes, cstr}
use recycle_bin.Prelude.Int.{pos}
use recycle_bin.HoString.Compare.{ho_memcmp, memcmp-overrun}
use recycle_bin.HoString.Copy.{ho_memset, ho_strncat, memset-replicate}
use recycle_bin.HoString.Copy.Appends.{strncat-append}

abbrev abca : Bytes
abca = b'a' ∷ b'b' ∷ b'c' ∷ b'a' ∷ []

abbrev bc : Bytes
bc = b'b' ∷ b'c' ∷ []

memcmp-overrun_example :
    (2 < length bc
      → 2 < length bc
      → Returns (λ c. (c ≡ pos 0) ↔ (take 3 bc ≡ take 3 bc)) (ho_memcmp bc bc 2))
    × (length bc ≡ 2 → bc ≡ bc → ho_memcmp bc bc 2 ≡ fault)
memcmp-overrun_example = memcmp-overrun 2 bc bc (omega arith) (omega arith)

memset-replicate_example :
    (3 ≤ length abca → ho_memset abca (pos 0) 3 ≡ ok (replicate 3 0 ++ drop 3 abca))
    × (length abca < 3 → ho_memset abca (pos 0) 3 ≡ fault)
memset-replicate_example = memset-replicate abca (pos 0) 3

strncat-append_example :
    (3 ≤ length bc
      → 3 ≤ length abca
      → ho_strncat (cstr bc abca) (cstr bc []) 3 ≡ ok (bc ++ (take 3 bc ++ 0 ∷ drop 3 abca)))
    × (length bc < 3
        → length bc < length abca
        → ho_strncat (cstr bc abca) (cstr bc []) 3 ≡ ok (bc ++ (bc ++ 0 ∷ 0 ∷ drop 3 abca)))
    × (length bc < 3 → length bc ≡ length abca → ho_strncat (cstr bc abca) (cstr bc []) 3 ≡ fault)
strncat-append_example = strncat-append bc abca bc [] 3 (omega arith) (omega arith)
