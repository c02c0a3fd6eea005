-- ===== src/Corecode/Zero/Words.antt =====
-- corecode/ant_string.c: looking at four bytes at a time gives what looking at each gives.
use recycle_bin.Prelude.{
  ℕ, zero, suc, ◌+◌, ◌*◌, ◌%◌, ◌^◌, ◌≤◌, ◌<◌, ◌≡◌, refl, sym, inl, inr, false, ◌&&◌, [], ◌∷◌, arith,
  ◌==◌, if◌then◌else◌, Bool-cases, length, All, ok,
}
use recycle_bin.Prelude.Chars.{Bytes}
use recycle_bin.Prelude.Int.{pos}
use recycle_bin.Corecode.Zero.{word, bytes_all, words_all, count, ant_iszero, isallc}

abbrev pub AreBytes : Bytes → Type 0
AreBytes cs = All (λ b. b < 256) cs

-- Four times the byte.
repeated : ℕ → ℕ
repeated c = c + 256 * (c + 256 * (c + 256 * c))

word-test :
    (c a b d e : ℕ)
    → c < 256
    → a < 256
    → b < 256
    → d < 256
    → e < 256
    → ((a + 256 * (b + 256 * (d + 256 * e))) == repeated c)
      ≡ ((a == c) && ((b == c) && ((d == c) && (e == c))))
unfolding repeated
word-test c a b d e hc ha hb hd he = ground arith

four_bytes :
    (c cnt a b d e : ℕ) (m : Bytes)
    → bytes_all c (suc (suc (suc (suc cnt)))) (a ∷ b ∷ d ∷ e ∷ m)
      ≡ (if (a == c) && ((b == c) && ((d == c) && (e == c))) then bytes_all c cnt m else ok false)
unfolding bytes_all
four_bytes c cnt a b d e m = elim (Bool-cases (a == c)) [
  | inr p ↦ rw p refl
  | inl p ↦ elim (Bool-cases (b == c)) [
    | inr q ↦ rw (p, q) refl
    | inl q ↦ elim (Bool-cases (d == c)) [ inr r ↦ rw (p, q, r) refl | inl r ↦ rw (p, q, r) refl ]
  ]
]

words-bytes :
    (c cnt : ℕ) (m : Bytes)
    → c < 256
    → AreBytes m
    → cnt ≤ length m
    → words_all (repeated c) c cnt m ≡ bytes_all c cnt m
unfolding words_all word
words-bytes c zero m hc h le = refl
words-bytes c (suc zero) m hc h le = refl
words-bytes c (suc (suc zero)) m hc h le = refl
words-bytes c (suc (suc (suc zero))) m hc h le = refl
words-bytes c (suc (suc (suc (suc cnt)))) [] hc h le = absurd (omega arith)
words-bytes c (suc (suc (suc (suc cnt)))) (a ∷ []) hc h le = absurd (omega arith)
words-bytes c (suc (suc (suc (suc cnt)))) (a ∷ b ∷ []) hc h le = absurd (omega arith)
words-bytes c (suc (suc (suc (suc cnt)))) (a ∷ b ∷ d ∷ []) hc h le = absurd (omega arith)
words-bytes c (suc (suc (suc (suc cnt)))) (a ∷ b ∷ d ∷ e ∷ m) hc (ha, (hb, (hd, (he, h)))) le =
    rw (word-test c a b d e hc ha hb hd he, words-bytes c cnt m hc h (omega arith))
      (sym (four_bytes c cnt a b d e m))

count-small : (n : ℕ) → n < 2 ^ 31 → count n ≡ n
unfolding count
count-small n h = ground arith

-- On an object of at least `n` bytes, `n` below 2 ^ 31, `isallc` and `ant_iszero` return what comparing the
-- first `n` bytes one by one gives.
pub isallc-bytes_all :
    (c n : ℕ) (s : Bytes)
    → c < 256
    → n < 2 ^ 31
    → AreBytes s
    → n ≤ length s
    → (isallc s (pos c) n ≡ bytes_all c n s) × (ant_iszero s n ≡ bytes_all 0 n s)
unfolding isallc ant_iszero repeated
isallc-bytes_all c n s hc small h le =
    let same : c % 256 ≡ c = omega arith in
    (
      rw (same, count-small n small) (words-bytes c n s hc h le),
      rw (count-small n small) (words-bytes 0 n s (omega arith) h le),
    )
