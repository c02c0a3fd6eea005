-- ===== src/Buffers.antt =====
-- The buffers that grow: mini_ant/src/ant_buf.c, `add_buf` of corecode/ant_string.c and `mem_read` and
-- `mem_write` of corecode/ho_mem.c. An allocator is a function of the size; `none` is its failure.
pub mod AntBuf
pub mod Mem
pub mod Contents
pub mod Append
pub mod Examples
use recycle_bin.Prelude.{
  ℕ, zero, suc, ◌+◌, ◌-◌, ◌*◌, ◌/◌, ◌%◌, ◌^◌, ◌≤◌, ◌<◌, ◌≡◌, refl, sym, ap, ◌∙◌, ◌≢◌, ◌↔◌, ◌⊎◌, inl,
  inr, Bool, true, false, not, ◌&&◌, ◌||◌, Option, none, some, List, [], ◌∷◌, ◌++◌, map,
  append_assoc, append-nil, arith, ltb, leb, ◌==◌, if◌then◌else◌, ltb→lt, lt→ltb, leb→le, le→leb,
  tests, ==_iff, Bool-cases, Option-cases, length, get_elem?, set, take, drop, replicate,
  length-append, length-set, length-take, length-drop, length-replicate, get_elem?-lt,
  get_elem?-set_self, get_elem?-set_ne, take-length-append, drop-length-append, take-length, All,
  Run, ok, fault, ◌>>=◌, ◌>>◌, assert, from_option, Returns, bind_ok, bind_regroup,
}
use recycle_bin.Prelude.Chars.{Bytes, IsText, cstr, is_space, is_digit, to_lower}
use recycle_bin.Prelude.Int.{
  ℤ, pos, negsuc, eq_ℤ, eq_ℤ_iff, schar, uchar, neg, ◌-ℤ◌, ltb_ℤ, signed32, unsigned32, pos_part,
  neg_part, schar-injective,
}

-- A size as an `int`. Above INT_MAX the sum overflows, or the size goes on as a negative number: a fault.
unfoldable pub int : ℕ → Run ℕ
int n = if ltb n (2 ^ 31) then ok n else fault

unfoldable pub nonneg : ℤ → Run ℕ
nonneg (pos n) = ok n
nonneg (negsuc n) = fault

-- The bytes that `memcpy` reads.
unfoldable pub read_bytes : ℕ → Bytes → Run Bytes
read_bytes n src = if leb n (length src) then ok (take n src) else fault

-- `memcpy(object + off, bytes, …)`
unfoldable pub store : Bytes → ℕ → Bytes → Run Bytes
store object off bytes =
    if leb (off + length bytes) (length object)
    then ok (take off object ++ bytes ++ drop (off + length bytes) object)
    else fault

-- `if (needed < 2 * size) needed = 2 * size;`
unfoldable pub at_least_double : (needed size : ℕ) → Run ℕ
at_least_double needed size = do
  double ← int (2 * size)
  ok (if ltb needed double then double else needed)

unfoldable pub is_null : {A : Type 0} → Option A → Bool
is_null none = true
is_null (some a) = false
