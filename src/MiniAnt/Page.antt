-- ===== src/MiniAnt/Page.antt =====
-- mini_ant/src/ant_page.c: the links of a page, and the name of its character set.
pub mod Ends
use recycle_bin.Prelude.{
  ℕ, zero, suc, ◌+◌, ◌-◌, ◌*◌, ◌/◌, ◌%◌, ◌^◌, ◌≤◌, ◌<◌, ◌≡◌, refl, sym, ap, ◌∙◌, ◌≢◌, ◌↔◌, ◌⊎◌, inl,
  inr, Bool, true, false, not, ◌&&◌, ◌||◌, Option, none, some, List, [], ◌∷◌, ◌++◌, map,
  append_assoc, append-nil, arith, ltb, leb, ◌==◌, if◌then◌else◌, ltb→lt, lt→ltb, leb→le, le→leb,
  tests, ==_iff, Bool-cases, Option-cases, if-keeps, length, get_elem?, set, take, drop, replicate,
  length-append, length-set, length-take, length-drop, length-replicate, get_elem?-lt,
  get_elem?-set_self, get_elem?-set_ne, take-length-append, drop-length-append, take-length, All,
  Run, ok, fault, ◌>>=◌, ◌>>◌, assert, from_option, Returns, bind_ok, bind_regroup,
}
use recycle_bin.Prelude.Chars.{Bytes, IsText, cstr, is_space, is_digit, to_lower}
use recycle_bin.Prelude.Int.{
  ℤ, pos, negsuc, eq_ℤ, eq_ℤ_iff, schar, uchar, neg, ◌-ℤ◌, ltb_ℤ, signed32, unsigned32, pos_part,
  neg_part, schar-injective,
}
use recycle_bin.MiniAnt.Http.{strcasecmp, strncasecmp}

-- "http://", "href", "charset" and "</head>"
abbrev pub scheme : Bytes
scheme = 104 ∷ 116 ∷ 116 ∷ 112 ∷ 58 ∷ 47 ∷ 47 ∷ []

abbrev pub href : Bytes
href = 104 ∷ 114 ∷ 101 ∷ 102 ∷ []

abbrev pub charset : Bytes
charset = 99 ∷ 104 ∷ 97 ∷ 114 ∷ 115 ∷ 101 ∷ 116 ∷ []

abbrev pub end_head : Bytes
end_head = 60 ∷ 47 ∷ 104 ∷ 101 ∷ 97 ∷ 100 ∷ 62 ∷ []

-- ".js", and the suffixes of four characters: ".css", ".ico", ".xml", ".gif", ".jpg", ".png", ".exe", ".chm"
abbrev pub js : Bytes
js = 46 ∷ 106 ∷ 115 ∷ []

abbrev pub type_names : List Bytes
type_names =
    (46 ∷ 99 ∷ 115 ∷ 115 ∷ [])
    ∷ (46 ∷ 105 ∷ 99 ∷ 111 ∷ [])
    ∷ (46 ∷ 120 ∷ 109 ∷ 108 ∷ [])
    ∷ (46 ∷ 103 ∷ 105 ∷ 102 ∷ [])
    ∷ (46 ∷ 106 ∷ 112 ∷ 103 ∷ [])
    ∷ (46 ∷ 112 ∷ 110 ∷ 103 ∷ [])
    ∷ (46 ∷ 101 ∷ 120 ∷ 101 ∷ [])
    ∷ (46 ∷ 99 ∷ 104 ∷ 109 ∷ [])
    ∷ []

-- `strncasecmp(str + n - k, suffix, k) == 0`, for a suffix of `k` characters and a text of at least as many.
unfoldable pub ends_in : (suffix str : Bytes) → Bool
ends_in suffix str =
    leb (length suffix) (length str) && strncasecmp (drop (length str - length suffix) str) suffix

unfoldable pub ends_in_one : List Bytes → Bytes → Bool
ends_in_one [] str = false
ends_in_one (t ∷ ts) str = let rest = ends_in_one ts str in ends_in t str || rest

-- Whether the result is 0.
unfoldable pub filter_type_url : Bytes → Bool
filter_type_url str =
    if not (strncasecmp str scheme) || strcasecmp str scheme
    then false
    else not (ends_in js str) && not (ends_in_one type_names str)

-- Whether a character is in `[" \t\r\n=']`, and whether in `[^ \t'"<>)\r]`.
unfoldable pub before_link : ℕ → Bool
before_link c =
    (c == 34) || (c == 32) || (c == 9) || (c == 13) || (c == 10) || (c == 61) || (c == 39)

unfoldable pub in_link : ℕ → Bool
in_link c = not (
    (c == 32)
    || (c == 9)
    || (c == 39)
    || (c == 34)
    || (c == 60)
    || (c == 62)
    || (c == 41)
    || (c == 13))

-- `%n[…]` of `sscanf`, for text without its NUL: at most `n` characters that pass, and what is behind.
unfoldable pub scan_set : (p : ℕ → Bool) → (n : ℕ) → Bytes → Bytes × Bytes
scan_set p zero s = ([], s)
scan_set p (suc n) [] = ([], [])
scan_set p (suc n) (c ∷ s) =
    let rest = scan_set p n s in if p c then (c ∷ rest.0, rest.1) else ([], c ∷ s)

-- `sscanf(p, fmt, buf) == 1`: both sets must have a character. The `buf` of 4096 bytes has no room for the NUL behind
-- as many characters.
unfoldable pub scan_link : Bytes → Run (Option Bytes)
scan_link s =
    let (skipped, rest) = scan_set before_link (length s) s in
    let (link, _) = scan_set in_link 4096 rest in
    if (length skipped == 0) || (length link == 0)
    then ok none
    else if length link == 4096
    then fault
    else ok (some link)

-- `p++` of the loop, behind what the turn has stepped over: behind the NUL is a fault.
unfoldable pub step_on : (link : Option Bytes) → Bytes → Run (Option Bytes × Bytes)
step_on link [] = fault
step_on link (c ∷ p) = ok (link, p)

-- Behind `href`.
unfoldable pub take_link : Bytes → Option Bytes → Run (Option Bytes × Bytes)
take_link q none = step_on none q
take_link q (some link) =
    if filter_type_url link then step_on (some link) (drop (length link) q) else step_on none q

-- A turn of the loop at a character: the link for which `cb_func` is called, and what is left of the text.
unfoldable pub parse_turn : ℕ → Bytes → Run (Option Bytes × Bytes)
parse_turn c p =
    if strncasecmp (c ∷ p) href
    then (do link ← scan_link (drop 4 (c ∷ p)); take_link (drop 4 (c ∷ p)) link)
    else ok (none, p)

unfoldable pub with_link : Option Bytes → Option (Run (List Bytes)) → Option (Run (List Bytes))
with_link none links = links
with_link (some l) none = none
with_link (some l) (some links) = some (do ls ← links; ok (l ∷ ls))

-- The links of a page, in order. One unit of fuel for a turn.
unfoldable pub parse_loop : (fuel : ℕ) → Bytes → Option (Run (List Bytes))
parse_loop zero p = none
parse_loop (suc fuel) [] = some (ok [])
parse_loop (suc fuel) (c ∷ p) = elim (parse_turn c p) [
  | fault ↦ some fault
  | ok (link, p') ↦ with_link link (parse_loop fuel p')
]

-- What `parse_loop` does after a turn.
unfoldable pub after_turn : ℕ → Run (Option Bytes × Bytes) → Option (Run (List Bytes))
after_turn fuel t = elim t [
  | fault ↦ some fault
  | ok (link, p') ↦ with_link link (parse_loop fuel p')
]

unfoldable pub parse_page : Bytes → Option (Run (List Bytes))
parse_page mem = parse_loop (suc (length mem)) mem

-- `sscanf(p + 7, "%*[=\" ]%36[^\" ]", from_code)`: what is read, if anything is.
unfoldable pub scan_code : Bytes → Option Bytes
scan_code s =
    let (skipped, rest) = scan_set (λ c. (c == 61) || (c == 34) || (c == 32)) (length s) s in
    let (code, _) = scan_set (λ c. not ((c == 34) || (c == 32))) 36 rest in
    if (length skipped == 0) || (length code == 0) then none else some code

-- Whether the result is 0, and what is read into `from_code` then.
unfoldable pub extract_fromcode : Bytes → Bool × Option Bytes
extract_fromcode [] = (false, none)
extract_fromcode (c ∷ p) =
    let rest = extract_fromcode p in
    if strncasecmp (c ∷ p) charset
    then (true, scan_code (drop 7 (c ∷ p)))
    else if strncasecmp (c ∷ p) end_head
    then (false, none)
    else rest
