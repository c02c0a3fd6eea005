-- ===== src/Small.antt =====
-- The small programs: GAS, leetcode, test_hash, the tools of the root folder, libs, a stack and a buffer for text.
pub mod Digits
pub mod Leetcode
pub mod Strings
pub mod Stacks
pub mod Words
pub mod Deletes
mod Examples
pub mod Hashes
use recycle_bin.Prelude.{
  ℕ, zero, suc, ◌+◌, ◌-◌, ◌*◌, ◌/◌, ◌%◌, ◌^◌, ◌≤◌, ◌<◌, ◌≡◌, refl, sym, ap, ◌∙◌, ◌≢◌, ◌↔◌, ◌⊎◌, inl,
  inr, Bool, true, false, not, ◌&&◌, ◌||◌, Option, none, some, List, [], ◌∷◌, ◌++◌, map,
  append_assoc, append-nil, arith, ltb, leb, ◌==◌, if◌then◌else◌, ltb→lt, lt→ltb, leb→le, le→leb,
  tests, ==_iff, Bool-cases, Option-cases, length, get_elem?, set, take, drop, replicate,
  length-append, length-set, length-take, length-drop, length-replicate, get_elem?-lt,
  get_elem?-set_self, get_elem?-set_ne, take-length-append, drop-length-append, take-length, All,
  Run, ok, fault, ◌>>=◌, ◌>>◌, assert, from_option, Returns, bind_ok, bind_regroup,
}
use recycle_bin.Prelude.Chars.{Bytes, IsText, cstr, is_space, is_digit, to_lower}
use recycle_bin.Prelude.Int.{
  ℤ, pos, negsuc, eq_ℤ, eq_ℤ_iff, schar, uchar, neg, ◌-ℤ◌, ltb_ℤ, signed32, unsigned32, pos_part,
  neg_part, schar-injective,
}

-- A signed sum or product as an `int`; an overflow is a fault.
unfoldable pub int_ℤ : ℤ → Run ℤ
int_ℤ (pos n) = if ltb n (2 ^ 31) then ok (pos n) else fault
int_ℤ (negsuc n) = if ltb n (2 ^ 31) then ok (negsuc n) else fault

unfoldable pub add_ℤ : ℤ → ℤ → ℤ
add_ℤ a b = a -ℤ neg b

-- `rv * base`, of a base that is not below zero.
unfoldable pub scale : ℤ → ℕ → ℤ
scale (pos n) b = pos (n * b)
scale (negsuc n) b = neg (pos (suc n * b))

-- `rv * base + d` in an `int`.
unfoldable pub push_digit : ℤ → ℕ → ℤ → Run ℤ
push_digit rv base d = do r ← int_ℤ (scale rv base); int_ℤ (add_ℤ r d)

-- `*p`
unfoldable pub head_of : Bytes → Run ℕ
head_of [] = fault
head_of (c ∷ m) = ok c

-- `while (*p && isspace(*p)) p++;`
unfoldable pub skip_space : Bytes → Run Bytes
skip_space [] = fault
skip_space (c ∷ m) = let rest = skip_space m in if is_space c then rest else ok (c ∷ m)
