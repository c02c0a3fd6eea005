-- ===== src/MiniAnt/Url.antt =====
-- mini_ant/src/ant_url.c: the domain of a URL, and the URL made of a domain.
use recycle_bin.Prelude.{
  ℕ, suc, ◌-◌, ◌^◌, Bool, true, false, ◌||◌, Option, none, some, [], ◌∷◌, ◌++◌, ltb, ◌==◌,
  if◌then◌else◌, length, get_elem?, take, drop, Run, ok, fault, ◌>>=◌, from_option,
}
use recycle_bin.Prelude.Chars.{Bytes, is_space, to_lower}
use recycle_bin.Prelude.Int.{ℤ, pos, negsuc}
use Prim.Native.Nat.{min}

-- `strncasecmp(m, lower, …)` is zero, for a text in lower case of that length.
unfoldable pub starts_with : (lower m : Bytes) → Run Bool
starts_with [] m = ok true
starts_with (l ∷ lower) [] = fault
starts_with (l ∷ lower) (c ∷ m) =
    let rest = starts_with lower m in if to_lower c == l then rest else ok false

-- "http://" and "https://"
abbrev pub http : Bytes
http = 104 ∷ 116 ∷ 116 ∷ 112 ∷ 58 ∷ 47 ∷ 47 ∷ []

abbrev pub https : Bytes
https = 104 ∷ 116 ∷ 116 ∷ 112 ∷ 115 ∷ 58 ∷ 47 ∷ 47 ∷ []

unfoldable pub has_scheme : Bytes → Run Bool
has_scheme url = do a ← starts_with http url; if a then ok true else starts_with https url

-- `start[4] == 's' ? 8 : 7`
unfoldable pub scheme_length : Bytes → Run ℕ
scheme_length url = do c ← from_option (get_elem? url 4); ok (if c == 115 then 8 else 7)

-- `while (isspace(*start)) start++;`
unfoldable pub skip_space : Bytes → Run Bytes
skip_space [] = fault
skip_space (c ∷ m) = let rest = skip_space m in if is_space c then rest else ok (c ∷ m)

-- One of the characters "/:?#;".
unfoldable pub ends_domain : ℕ → Bool
ends_domain c = (c == 47) || (c == 58) || (c == 63) || (c == 35) || (c == 59)

-- `while (*end && !strchr("/:?#;", *end)) end++;`, and `end - start`.
unfoldable pub domain_length : Bytes → Run ℕ
domain_length [] = fault
domain_length (c ∷ m) =
    let rest = domain_length m in
    if (c == 0) || ends_domain c then ok 0 else (do n ← rest; ok (suc n))

-- What is behind the spaces and the scheme.
unfoldable pub after_scheme : Bytes → Run Bytes
after_scheme url = do
  start ← skip_space url
  scheme ← has_scheme start
  if scheme then (do n ← scheme_length start; ok (drop n start)) else ok start

-- The buffer afterwards, for a size `n` of it above zero; of no size the code computes with the largest
-- number instead. `strncpy` copies the characters of the domain, none of which is NUL.
unfoldable pub url_to_domain : (dst : Bytes) → (n : ℕ) → (url : Bytes) → Run Bytes
url_to_domain dst n url = do
  start ← after_scheme url
  size ← domain_length start
  let n = min size (if n == 0 then 2 ^ 64 - 1 else n - 1)
  if n == 0
      then ok dst
      else if ltb n (length dst)
      then ok (take n start ++ 0 ∷ drop (suc n) dst)
      else fault

-- The text up to the NUL.
unfoldable pub url_text : Bytes → Run Bytes
url_text [] = fault
url_text (c ∷ m) = if c == 0 then ok [] else (do cs ← url_text m; ok (c ∷ cs))

-- The result, and the text that `snprintf` puts into `buf` of the size `n`, where it puts one.
unfoldable pub url_modify : (n : ℕ) → (url : Bytes) → Run (ℤ × Option Bytes)
url_modify n url = do
  scheme ← has_scheme url
  if scheme then ok (negsuc 0, none) else do
    cs ← url_text url
    ok (pos 0, if n == 0 then none else some (take (n - 1) (http ++ cs)))
