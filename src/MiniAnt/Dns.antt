-- ===== src/MiniAnt/Dns.antt =====
-- mini_ant/src/ant_dns.c and ant_dns.h: the question that is sent to a name server, and its answer. Numbers
-- of 16 bits are in network order, the higher byte first.
pub mod Query
pub mod Reply
pub mod Names
pub mod Answers
pub mod Question
pub mod Transfer
mod Examples
use recycle_bin.Prelude.{
  ℕ, zero, suc, ◌+◌, ◌-◌, ◌*◌, ◌/◌, ◌%◌, ◌^◌, ◌≤◌, ◌<◌, ◌≡◌, refl, sym, ap, ◌∙◌, ◌≢◌, ◌↔◌, ◌⊎◌, inl,
  inr, Bool, true, false, not, ◌&&◌, ◌||◌, Option, none, some, List, [], ◌∷◌, ◌++◌, map,
  append_assoc, append-nil, arith, ltb, leb, ◌==◌, if◌then◌else◌, ltb→lt, lt→ltb, leb→le, le→leb,
  tests, ==_iff, Bool-cases, Option-cases, length, get_elem?, set, take, drop, replicate,
  length-append, length-set, length-take, length-drop, length-replicate, get_elem?-lt,
  get_elem?-set_self, get_elem?-set_ne, take-length-append, drop-length-append, take-length, All,
  Run, ok, fault, ◌>>=◌, ◌>>◌, assert, from_option, Returns, bind_ok, bind_regroup,
}
use recycle_bin.Prelude.Chars.{Bytes, IsText, cstr, is_space, is_digit, to_lower}
use recycle_bin.Prelude.Int.{
  ℤ, pos, negsuc, eq_ℤ, eq_ℤ_iff, schar, uchar, neg, ◌-ℤ◌, ltb_ℤ, signed32, unsigned32, pos_part,
  neg_part, schar-injective,
}

unfoldable pub u16_bytes : ℕ → Bytes
u16_bytes n = ((n / 256) % 256) ∷ (n % 256) ∷ []

-- `ntohs(*(uint16_t*)bp)`, and what is behind.
unfoldable pub read_u16 : Bytes → Run (ℕ × Bytes)
read_u16 [] = fault
read_u16 (a ∷ []) = fault
read_u16 (a ∷ b ∷ m) = ok (a * 256 + b, m)

-- `bp += n`: a pointer behind the end of the object is a fault.
unfoldable pub skip : ℕ → Bytes → Run Bytes
skip n m = if leb n (length m) then ok (drop n m) else fault

pub record DnsHeader : Type 0 where
  pub id : ℕ
  pub flags : ℕ
  pub answers_rrs : ℕ

-- `ip` holds `IP_LEN` addresses, each as the four bytes of it read as a number in the machine's order.
pub record DnsResponse : Type 0 where
  pub host_name : Bytes
  pub ip : List ℕ
  pub flags : ℕ

abbrev pub ip_len : ℕ
ip_len = 4
