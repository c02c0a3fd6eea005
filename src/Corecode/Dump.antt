-- ===== src/Corecode/Dump.antt =====
-- corecode/ant_string.c: `ant_dump_num` and `ant_itoa`. The text that they write to `dst`, which is taken to
-- be large enough, is the result.
pub mod Value
use recycle_bin.Prelude.{
  ℕ, zero, suc, ◌+◌, ◌-◌, ◌*◌, ◌/◌, ◌%◌, ◌^◌, ◌≤◌, ◌<◌, ◌≡◌, refl, sym, ap, ◌∙◌, ◌≢◌, ◌↔◌, ◌⊎◌, inl,
  inr, Bool, true, false, not, ◌&&◌, ◌||◌, Option, none, some, List, [], ◌∷◌, ◌++◌, map,
  append_assoc, append-nil, arith, ltb, leb, ◌==◌, if◌then◌else◌, ltb→lt, lt→ltb, leb→le, le→leb,
  tests, ==_iff, Bool-cases, Option-cases, length, get_elem?, set, take, drop, replicate,
  length-append, length-set, length-take, length-drop, length-replicate, get_elem?-lt,
  get_elem?-set_self, get_elem?-set_ne, take-length-append, drop-length-append, take-length, All,
  Run, ok, fault, ◌>>=◌, ◌>>◌, assert, from_option, Returns, bind_ok, bind_regroup,
}
use recycle_bin.Prelude.Chars.{Bytes, IsText, cstr, is_space, is_digit, to_lower}
use recycle_bin.Prelude.Int.{
  ℤ, pos, negsuc, eq_ℤ, eq_ℤ_iff, schar, uchar, neg, ◌-ℤ◌, ltb_ℤ, signed32, unsigned32, pos_part,
  neg_part, schar-injective,
}

-- "0123456789abcdef"
abbrev pub hex : Bytes
hex = 48 ∷ 49 ∷ 50 ∷ 51 ∷ 52 ∷ 53 ∷ 54 ∷ 55 ∷ 56 ∷ 57 ∷ 97 ∷ 98 ∷ 99 ∷ 100 ∷ 101 ∷ 102 ∷ []

-- The string of the digits with its NUL.
unfoldable pub hex_at : ℕ → Run ℕ
hex_at i = from_option (get_elem? (hex ++ 0 ∷ []) i)

-- `while (n--)`
unfoldable pub dump_bits : (n ui : ℕ) → Run Bytes
dump_bits zero ui = ok []
dump_bits (suc n) ui = do d ← hex_at ((ui / 2 ^ n) % 2); ds ← dump_bits n ui; ok (d ∷ ds)

-- `do { n -= 4; … } while (n);`, of `k` turns
unfoldable pub dump_nibbles : (k ui : ℕ) → Run Bytes
dump_nibbles zero ui = ok []
dump_nibbles (suc k) ui = do d ← hex_at ((ui / 16 ^ k) % 16); ds ← dump_nibbles k ui; ok (d ∷ ds)

unfoldable pub ant_dump_num : (ui base : ℕ) → Run Bytes
ant_dump_num ui base =
    if base == 2 then dump_bits 32 ui else if base == 16 then dump_nibbles 8 ui else ok []

-- `do *--p = …[m % base]; while (m /= base);`, with room for so many characters in `str`, and what
-- stands from `p` on.
unfoldable pub itoa_loop : (room m base : ℕ) → Bytes → Run (ℕ × Bytes)
itoa_loop zero m base str = fault
itoa_loop (suc room) m base str = if base == 0 then fault else do
  d ← hex_at (m % base)
  let rest = itoa_loop room (m / base) base (d ∷ str)
  if m / base == 0 then ok (room, d ∷ str) else rest

-- The value whose digits are written.
unfoldable pub itoa_unsigned : ℤ → (base : ℕ) → ℕ
itoa_unsigned n base =
    if eq_ℤ n (signed32 (2 ^ 31))
    then unsigned32 n
    else if ltb_ℤ n (pos 0) && (base == 10)
    then unsigned32 (neg n)
    else unsigned32 n

unfoldable pub ant_itoa : ℤ → (base : ℕ) → Run Bytes
ant_itoa n base = do
  (room, str) ← itoa_loop 32 (itoa_unsigned n base) base []
  if ltb_ℤ n (pos 0) && (base == 10) then (if room == 0 then fault else ok (45 ∷ str)) else ok str
