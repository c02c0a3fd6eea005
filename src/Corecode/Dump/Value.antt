-- ===== src/Corecode/Dump/Value.antt =====
-- corecode/ant_string.c: the value of what `ant_itoa` writes.
use recycle_bin.Prelude.{
  ℕ, zero, suc, ◌+◌, ◌-◌, ◌*◌, ◌/◌, ◌%◌, ◌^◌, ◌<◌, ◌≡◌, refl, sym, ap, ◌∙◌, ◌≤◌, ◌≢◌, All, ◌⊎◌, inl,
  inr, true, false, [], ◌∷◌, arith, ltb, ◌==◌, ltb→lt, ==_iff, Bool-cases, ok, Returns,
}
use recycle_bin.Prelude.Chars.{Bytes}
use recycle_bin.Prelude.Int.{ℤ, pos, negsuc, neg, ltb_ℤ, signed32}
use recycle_bin.Corecode.Dump.{hex_at, itoa_loop, itoa_unsigned, ant_itoa}

-- The value of decimal digits, read from the left with what came before them.
unfoldable pub decimal : (before : ℕ) → Bytes → ℕ
decimal before [] = before
decimal before (c ∷ cs) = decimal (before * 10 + (c - 48)) cs

hex_at-digit : (d : ℕ) → d < 10 → hex_at d ≡ ok (d + 48)
unfolding hex_at
hex_at-digit zero h = refl
hex_at-digit (suc zero) h = refl
hex_at-digit (suc (suc zero)) h = refl
hex_at-digit (suc (suc (suc zero))) h = refl
hex_at-digit (suc (suc (suc (suc zero)))) h = refl
hex_at-digit (suc (suc (suc (suc (suc zero))))) h = refl
hex_at-digit (suc (suc (suc (suc (suc (suc zero)))))) h = refl
hex_at-digit (suc (suc (suc (suc (suc (suc (suc zero))))))) h = refl
hex_at-digit (suc (suc (suc (suc (suc (suc (suc (suc zero)))))))) h = refl
hex_at-digit (suc (suc (suc (suc (suc (suc (suc (suc (suc zero))))))))) h = refl
hex_at-digit (suc (suc (suc (suc (suc (suc (suc (suc (suc (suc d)))))))))) h = absurd (omega arith)

-- Ten to the power.
pow10 : ℕ → ℕ
pow10 zero = 1
pow10 (suc n) = 10 * pow10 n

one_digit : (m : ℕ) (str : Bytes) → m / 10 ≡ 0 → decimal 0 ((m % 10 + 48) ∷ str) ≡ decimal m str
unfolding decimal
one_digit m str h = ap (λ n. decimal n str) (omega arith)

next_digit : (m : ℕ) (str : Bytes) → decimal (m / 10) ((m % 10 + 48) ∷ str) ≡ decimal m str
unfolding decimal
next_digit m str = ap (λ n. decimal n str) (omega arith)

-- One digit or more, and nothing else.
pub AreDigits : Bytes → Type 0
AreDigits str = (str ≢ []) × All (λ c. (48 ≤ c) × (c < 58)) str

digits_more :
    (m : ℕ) (str : Bytes) → All (λ c. (48 ≤ c) × (c < 58)) str → AreDigits ((m % 10 + 48) ∷ str)
unfolding AreDigits
digits_more m str ds = (λ e. cc, ((omega arith, omega arith), ds))

loop-decimal :
    (room m : ℕ) (str : Bytes)
    → m < pow10 (suc room)
    → All (λ c. (48 ≤ c) × (c < 58)) str
    → Returns
        (λ r. (decimal 0 r.1 ≡ decimal m str) × (0 < r.0) × AreDigits r.1)
        (itoa_loop (suc (suc room)) m 10 str)
unfolding pow10 itoa_loop AreDigits
loop-decimal zero m str h ds =
    let digit = hex_at-digit (m % 10) (omega arith) in
    let last : m / 10 ≡ 0 = omega arith in
    (
      (1, (m % 10 + 48) ∷ str),
      rw (digit, last) refl,
      (one_digit m str last, omega arith, digits_more m str ds),
    )
loop-decimal (suc room) m str h ds =
    let digit = hex_at-digit (m % 10) (omega arith) in
    elim (Bool-cases (m / 10 == 0)) [
      | inl e ↦ (
        (suc (suc room), (m % 10 + 48) ∷ str),
        rw (digit, e) refl,
        (one_digit m str ((==_iff _ _).0 e), omega arith, digits_more m str ds),
      )
      | inr e ↦
          let (r, run, (value, left, all)) =
            loop-decimal room (m / 10) ((m % 10 + 48) ∷ str) (omega arith)
              ((omega arith, omega arith), ds) in
          (r, rw (digit, e) run, (value ∙ next_digit m str, left, all))
    ]

-- The text is a decimal number of the value `n`, of digits, with `-` in front where `n` is below zero.
pub IsDecimal : ℤ → Bytes → Type 0
IsDecimal n str =
    (AreDigits str × (n ≡ pos (decimal 0 str)))
    ⊎ ((ds : Bytes) × AreDigits ds
        × (str ≡ 45 ∷ ds)
        × (0 < decimal 0 ds)
        × (n ≡ neg (pos (decimal 0 ds))))

room_enough : (m : ℕ) → m < 2 ^ 32 → m < pow10 31
unfolding pow10
room_enough m h = omega arith

unsigned-pos : (w : ℕ) → w < 2 ^ 31 → itoa_unsigned (pos w) 10 ≡ w
unfolding itoa_unsigned
unsigned-pos w h = ground arith

unsigned-negsuc : (n : ℕ) → n < 2 ^ 31 → itoa_unsigned (negsuc n) 10 ≡ n + 1
unfolding itoa_unsigned
unsigned-negsuc n h = ground arith

neg_suc : (n : ℕ) → negsuc n ≡ neg (pos (n + 1))
neg_suc n = ground arith

-- Every `int` is written by `ant_itoa` to base ten as a decimal number of its value, INT_MIN included.
pub ant_itoa-IsDecimal :
    (w : ℕ) → w < 2 ^ 32 → Returns (IsDecimal (signed32 w)) (ant_itoa (signed32 w) 10)
unfolding ant_itoa IsDecimal AreDigits decimal
ant_itoa-IsDecimal w h = elim (Bool-cases (ltb w (2 ^ 31))) [
  | inl small ↦
      let lt = ltb→lt w (2 ^ 31) small in
      let ((room, str), run, (value, left, all)) = loop-decimal 30 w [] (room_enough w h) tt in
      let up : ltb_ℤ (pos w) (pos 0) ≡ false = ground arith in
      (str, rw (small, unsigned-pos w lt, run, up) refl, inl (all, rw small (ap pos (sym value))))
  | inr big ↦
      let n = 2 ^ 32 - w - 1 in
      let lt : n < 2 ^ 31 = ground arith in
      let ((room, str), run, (value, left, all)) =
        loop-decimal 30 (n + 1) [] (room_enough (n + 1) (omega arith)) tt in
      let down : ltb_ℤ (negsuc n) (pos 0) ≡ true = ground arith in
      let more : (room == 0) ≡ false = ground (arith, left) in
      (
        45 ∷ str,
        rw (big, unsigned-negsuc n lt, run, down, more) refl,
        inr (
          str,
          all,
          refl,
          omega (arith, value),
          rw big (neg_suc n ∙ ap (λ d. neg (pos d)) (sym value)),
        ),
      )
]
