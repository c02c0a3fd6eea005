-- ===== src/Match/Bits.antt =====
-- char_engine/str_match.c: the set of characters of a `%[…]`, 32 bytes of 8 bits.
use recycle_bin.Prelude.{
  ℕ, zero, suc, ◌+◌, ◌-◌, ◌/◌, ◌%◌, ◌^◌, Bool, false, not, [], ◌∷◌, ◌==◌, if◌then◌else◌, replicate,
}
use recycle_bin.Prelude.Chars.{Bytes}

unfoldable pub bit_of : (byte k : ℕ) → Bool
bit_of byte k = not ((byte / 2 ^ k) % 2 == 0)

-- `byte |= 1 << k`
unfoldable pub set_bit : (byte k : ℕ) → ℕ
set_bit byte k = if bit_of byte k then byte else byte + 2 ^ k

unfoldable pub set_at : Bytes → (i k : ℕ) → Bytes
set_at [] i k = []
set_at (b ∷ bs) zero k = set_bit b k ∷ bs
set_at (b ∷ bs) (suc i) k = b ∷ set_at bs i k

-- `c` is the byte that the conversion to `unsigned char` gives.
unfoldable pub bit_set : Bytes → (c : ℕ) → Bytes
bit_set bit c = set_at bit (c / 8) (c % 8)

unfoldable pub bit_zero : Bytes
bit_zero = replicate 32 0

unfoldable pub isset_at : Bytes → (i k : ℕ) → Bool
isset_at [] i k = false
isset_at (b ∷ bs) zero k = bit_of b k
isset_at (b ∷ bs) (suc i) k = isset_at bs i k

unfoldable pub bit_isset : Bytes → (c : ℕ) → Bool
bit_isset bit c = isset_at bit (c / 8) (c % 8)

-- Of the words of 32 bits the complement is that of each of their bytes.
unfoldable pub bit_rev : Bytes → Bytes
bit_rev [] = []
bit_rev (b ∷ bs) = (255 - b) ∷ bit_rev bs
