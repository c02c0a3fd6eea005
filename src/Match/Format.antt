-- ===== src/Match/Format.antt =====
-- char_engine/str_match.c: the directives and the loop of `str_match`. In a result of a directive, `none` is
-- the function's `return 0`.
use recycle_bin.Prelude.{
  ℕ, zero, suc, ◌+◌, ◌%◌, Bool, true, false, ◌||◌, Option, none, some, [], ◌∷◌, ◌==◌, if◌then◌else◌,
  drop, Run, ok, fault, ◌>>=◌,
}
use recycle_bin.Prelude.Chars.{Bytes, is_digit}
use recycle_bin.Prelude.Int.{schar, ◌-ℤ◌, ltb_ℤ, pos_part}
use recycle_bin.Match.{Loop, head_of, at_index, step}
use recycle_bin.Match.Bits.{bit_set, bit_zero, bit_isset, bit_rev}
use recycle_bin.Match.Scan.{skip, skip_float, read_width}

-- `for (c = *fmt; c < fmt[2]; c++) bit_set(&bit, c);`, of `n` turns
unfoldable pub range_set : (n c : ℕ) → Bytes → Bytes
range_set zero c bit = bit
range_set (suc n) c bit = range_set n ((c + 1) % 256) (bit_set bit c)

-- `while (*fmt && *fmt != ']')`: the set and the format behind it.
unfoldable pub set_loop : (fuel : ℕ) → Bytes → Bytes → Loop (Bytes × Bytes)
set_loop zero bit fmt = none
set_loop (suc fuel) bit fmt = step (head_of fmt) (λ c.
    let one = set_loop fuel (bit_set bit c) (drop 1 fmt) in
    if (c == 0) || (c == 93)
    then some (ok (bit, fmt))
    else step (at_index fmt 1) (λ dash.
      if dash == 45
      then step (at_index fmt 2) (λ last.
        let range =
          set_loop fuel (range_set (pos_part (schar last -ℤ schar c)) c bit) (drop 2 fmt) in
        let same = set_loop fuel bit fmt in if ltb_ℤ (schar last) (schar c) then same else range)
      else one))

-- `case '['`, from behind the bracket.
unfoldable pub set_directive : (fuel width : ℕ) → Bytes → Bytes → Loop (Bytes × Bytes)
set_directive fuel width s fmt = step (head_of fmt) (λ c.
    let caret = c == 94 in
    elim (set_loop fuel bit_zero (if caret then drop 1 fmt else fmt)) [
      | none ↦ none
      | some r ↦ step r (λ (bit, fmt).
          let set = if caret then bit_rev bit else bit in
          some (do
            s ← skip (bit_isset set) width s
            c ← head_of fmt
            ok (s, if c == 93 then drop 1 fmt else fmt)))
    ])

-- The characters that end an alternative.
unfoldable pub ends_one : ℕ → Bool
ends_one c = (c == 0) || (c == 124) || (c == 125)

-- `while (*fmt && *fmt != '|' && *fmt != '}' && (*s0 == *fmt)) s0++, fmt++;`
unfoldable pub match_one : (s0 fmt : Bytes) → Run (Bytes × Bytes)
match_one s0 [] = fault
match_one [] (f ∷ fmt) = if ends_one f then ok ([], f ∷ fmt) else fault
match_one (c ∷ s0) (f ∷ fmt) =
    let rest = match_one s0 fmt in
    if ends_one f then ok (c ∷ s0, f ∷ fmt) else if c == f then rest else ok (c ∷ s0, f ∷ fmt)

-- `while (*fmt && !test(*fmt)) fmt++;`
unfoldable pub skip_to : (ℕ → Bool) → Bytes → Run Bytes
skip_to test [] = fault
skip_to test (f ∷ fmt) =
    let rest = skip_to test fmt in if (f == 0) || test f then ok (f ∷ fmt) else rest

-- The loop over the alternatives: whether one has matched (`STATUS_OR`), the text and the format.
unfoldable pub alternatives : (fuel : ℕ) → Bool → (s fmt : Bytes) → Loop (Bool × Bytes × Bytes)
alternatives zero matched s fmt = none
alternatives (suc fuel) matched s fmt = step (head_of fmt) (λ f.
    if ends_one f
    then some (ok (matched, s, fmt))
    else step (match_one s fmt) (λ (s0, fmt). step (head_of fmt) (λ f.
      if (f == 124) || (f == 125)
      then step (skip_to (λ c. c == 125) fmt) (λ fmt. alternatives fuel true s0 fmt)
      else step (skip_to ends_one fmt) (λ fmt. step (head_of fmt) (λ f.
        alternatives fuel matched s (if (f == 124) || (f == 125) then drop 1 fmt else fmt))))))

-- `case '{'`, from behind the brace.
unfoldable pub or_directive : (fuel : ℕ) → Bytes → Bytes → Loop (Option (Bytes × Bytes))
or_directive fuel s fmt = elim (alternatives fuel false s fmt) [
  | none ↦ none
  | some r ↦ step r (λ (matched, s, fmt).
      if matched
      then step (head_of fmt) (λ f. some (ok (some (s, if f == 125 then drop 1 fmt else fmt))))
      else some (ok none))
]

-- The `switch`, at the character behind the width.
unfoldable pub directive : (fuel width : ℕ) → Bytes → Bytes → Loop (Option (Bytes × Bytes))
directive fuel width s fmt = step (head_of fmt) (λ f.
    let behind = drop 1 fmt in
    if f == 100
    then step (skip is_digit width s) (λ s. some (ok (some (s, behind))))
    else if f == 91
    then elim (set_directive fuel width s behind) [
      | none ↦ none
      | some r ↦ step r (λ p. some (ok (some p)))
    ]
    else if f == 102
    then step (skip_float width s) (λ s. some (ok (some (s, behind))))
    else if f == 123
    then or_directive fuel s behind
    else some (ok (some (s, behind))))

-- `fmt[1] == '%' && fmt[2] == '?'`
unfoldable pub optional_next : Bytes → Run Bool
optional_next fmt = do
  c ← at_index fmt 1
  if c == 37 then (do c ← at_index fmt 2; ok (c == 63)) else ok false

-- `while (*fmt)`
unfoldable pub str_match : (fuel : ℕ) → (s fmt : Bytes) → Loop Bool
str_match zero s fmt = none
str_match (suc fuel) s fmt = step (head_of fmt) (λ f.
    if f == 0
    then step (head_of s) (λ c. some (ok (c == 0)))
    else if f == 37
    then step (read_width 0 (drop 1 fmt)) (λ (width, fmt). elim (directive fuel width s fmt) [
      | none ↦ none
      | some r ↦
          step r (λ p. elim p [ none ↦ some (ok false) | some (s, fmt) ↦ str_match fuel s fmt ])
    ])
    else step (head_of s) (λ c.
      if f == c
      then str_match fuel (drop 1 s) (drop 1 fmt)
      else step (optional_next fmt)
          (λ optional. if optional then str_match fuel s (drop 1 fmt) else some (ok false))))
