-- ===== src/Match.antt =====
-- char_engine/str_match.c: does a text match a format of literals and of `%d`, `%[…]`, `%f`, `%{…|…}`.
-- A pointer is what memory holds from there on; a loop runs on fuel, where `none` is a run out of it.
pub mod Bits
pub mod Scan
pub mod Format
pub mod Literal
pub mod Examples
use recycle_bin.Prelude.{
  ℕ, zero, suc, ◌+◌, ◌-◌, ◌*◌, ◌/◌, ◌%◌, ◌^◌, ◌≤◌, ◌<◌, ◌≡◌, refl, sym, ap, ◌∙◌, ◌≢◌, ◌↔◌, ◌⊎◌, inl,
  inr, Bool, true, false, not, ◌&&◌, ◌||◌, Option, none, some, List, [], ◌∷◌, ◌++◌, map,
  append_assoc, append-nil, arith, ltb, leb, ◌==◌, if◌then◌else◌, ltb→lt, lt→ltb, leb→le, le→leb,
  tests, ==_iff, Bool-cases, Option-cases, length, get_elem?, set, take, drop, replicate,
  length-append, length-set, length-take, length-drop, length-replicate, get_elem?-lt,
  get_elem?-set_self, get_elem?-set_ne, take-length-append, drop-length-append, take-length, All,
  Run, ok, fault, ◌>>=◌, ◌>>◌, assert, from_option, Returns, bind_ok, bind_regroup,
}
use recycle_bin.Prelude.Chars.{Bytes, IsText, cstr, is_space, is_digit, to_lower}
use recycle_bin.Prelude.Int.{
  ℤ, pos, negsuc, eq_ℤ, eq_ℤ_iff, schar, uchar, neg, ◌-ℤ◌, ltb_ℤ, signed32, unsigned32, pos_part,
  neg_part, schar-injective,
}
use mathlib.Core.Option

-- A loop that may run out of fuel, in a run that may go wrong.
abbrev pub Loop {ℓ} : Type ℓ → Type ℓ
Loop A = Option (Run A)

-- `*p`
unfoldable pub head_of : Bytes → Run ℕ
head_of [] = fault
head_of (c ∷ m) = ok c

-- `p[i]`
unfoldable pub at_index : Bytes → ℕ → Run ℕ
at_index m i = from_option (get_elem? m i)

-- A step of a loop: a fault ends it.
unfoldable pub step {ℓ κ} : {A : Type ℓ} {B : Type κ} → Run A → (A → Loop B) → Loop B
step (ok a) next = next a
step fault next = some fault
