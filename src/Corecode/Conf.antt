-- ===== src/Corecode/Conf.antt =====
-- corecode/ho_read_conf.c: a file of keys and values. A line is the buffer as `fgets` left it; `S` is the
-- memory behind the values; what is printed is a list of messages, the last one first.
use recycle_bin.Prelude.{
  ℕ, zero, suc, ◌+◌, Bool, false, not, ◌||◌, Option, none, some, List, [], ◌∷◌, ltb, ◌==◌,
  if◌then◌else◌, length, get_elem?, set, take, drop, Run, ok, fault, ◌>>=◌, from_option,
}
use recycle_bin.Prelude.Chars.{Bytes}
use recycle_bin.Prelude.Int.{ℤ, pos, negsuc}
use mathlib.Core.Option
use recycle_bin.Corecode.Options.{same_text, is_some}

pub record HoRc (S : Type 0) : Type 0 where
  pub cb_get_val : Option (Bytes → S → S)
  pub key : Option Bytes
  pub out_val : ℕ
  pub not_empty : ℕ

pub data Notice : Type 0 where
  unrecognized : Bytes → Notice
  failed : Option Bytes → Notice

-- The number of characters before the NUL or the first one for which `stops` is true.
unfoldable pub until : (ℕ → Bool) → Bytes → Run ℕ
until stops [] = fault
until stops (c ∷ m) =
    let rest = until stops m in if (c == 0) || stops c then ok 0 else (do n ← rest; ok (suc n))

-- `p[i] = 0`
unfoldable pub cut : Bytes → ℕ → Run Bytes
cut m i = if ltb i (length m) then ok (set m i 0) else fault

unfoldable pub is_blank : ℕ → Bool
is_blank c = (c == 32) || (c == 9)

unfoldable pub is_gap : ℕ → Bool
is_gap c = is_blank c || (c == 61) || (c == 58)

unfoldable pub is_end : ℕ → Bool
is_end c = (c == 13) || (c == 10)

-- The characters up to the NUL.
unfoldable pub text_at : Bytes → ℕ → Run Bytes
text_at m i = do n ← until (λ c. false) (drop i m); ok (take n (drop i m))

-- Offsets into the line of a key and of its value, and the line with NULs behind both; `none` where the
-- code goes on with the next line.
unfoldable pub split_line : Bytes → Run (Option (ℕ × ℕ × Bytes))
split_line line = do
  hash ← until (λ c. c == 35) line
  at_hash ← from_option (get_elem? line hash)
  line ← (if at_hash == 35 then cut line hash else ok line)
  key ← until (λ c. not (is_blank c)) line
  c ← from_option (get_elem? line key)
  if is_end c then ok none else do
    n ← until is_gap (drop key line)
    c ← from_option (get_elem? line (key + n))
    if c == 0 then ok none else do
      line ← cut line (key + n)
      gap ← until (λ c. not (is_gap c)) (drop (key + n + 1) line)
      let val = key + n + 1 + gap
      len ← until is_end (drop val line)
      line ← cut line (val + len)
      c ← from_option (get_elem? line val)
      ok (if c == 0 then none else some (key, val, line))

module _ {S : Type 0} where
  -- `!(rcp->key || rcp->out_val || rcp->cb_get_val || rcp->not_empty)`
  unfoldable pub is_last_rc : HoRc S → Bool
  is_last_rc r =
      not (is_some r.key || not (r.out_val == 0) || is_some r.cb_get_val || not (r.not_empty == 0))

  -- The loop over the entries: `none` where no key is equal.
  unfoldable pub give_value : List (HoRc S) → Bytes → Bytes → S → Run (Option (List (HoRc S) × S))
  give_value [] key val s = fault
  give_value (r ∷ rc) key val s =
      let rest = give_value rc key val s in
      if is_last_rc r then ok none else do
        name ← from_option r.key
        if same_text name key
            then (do
              get ← from_option r.cb_get_val
              ok (some (record r { not_empty = 1 } ∷ rc, get val s)))
            else (do found ← rest; ok (Option.map (λ l. (r ∷ l.0, l.1)) found))

  -- One line, with the jump back to `loop`; `none` is a run out of fuel.
  unfoldable pub conf_line :
      (fuel : ℕ)
      → Bytes
      → List (HoRc S)
      → S × List Notice
      → Option (Run (List (HoRc S) × S × List Notice))
  conf_line zero line rc st = none
  conf_line (suc fuel) line rc (s, out) = elim (split_line line) [
    | fault ↦ some fault
    | ok none ↦ some (ok (rc, s, out))
    | ok (some (key, val, line')) ↦ elim (text_at line' key) [
      | fault ↦ some fault
      | ok k ↦ elim (text_at line' val >>= λ v. give_value rc k v s) [
        | fault ↦ some fault
        | ok none ↦ some (ok (rc, s, unrecognized k ∷ out))
        | ok (some (rc', s')) ↦ conf_line fuel line' rc' (s', out)
      ]
    ]
  ]

  -- `while (fgets(…))`
  unfoldable pub conf_lines :
      (fuel : ℕ)
      → List Bytes
      → List (HoRc S)
      → S × List Notice
      → Option (Run (List (HoRc S) × S × List Notice))
  conf_lines fuel [] rc (s, out) = some (ok (rc, s, out))
  conf_lines fuel (line ∷ lines) rc st = elim (conf_line fuel line rc st) [
    | none ↦ none
    | some fault ↦ some fault
    | some (ok (rc', s', out')) ↦ conf_lines fuel lines rc' (s', out')
  ]

  unfoldable pub ho_read_conf_check : List (HoRc S) → List Notice → Run (List Notice)
  ho_read_conf_check [] out = fault
  ho_read_conf_check (r ∷ rc) out =
      let out' = if r.not_empty == 0 then failed r.key ∷ out else out in
      let rest = ho_read_conf_check rc out' in if is_last_rc r then ok out else rest

  -- `none` for a file that cannot be opened, with the result -1.
  unfoldable pub ho_read_conf :
      (fuel : ℕ)
      → Option (List Bytes)
      → List (HoRc S)
      → S
      → Option (Run (ℤ × List (HoRc S) × S × List Notice))
  ho_read_conf fuel none rc s = some (ok (negsuc 0, rc, s, []))
  ho_read_conf fuel (some lines) rc s = elim (conf_lines fuel lines rc (s, [])) [
    | none ↦ none
    | some fault ↦ some fault
    | some (ok (rc', s', out)) ↦
        some (ho_read_conf_check rc' out >>= λ out'. ok (pos 0, rc', s', out'))
  ]
