-- ===== src/Match/Literal.antt =====
-- char_engine/str_match.c: formats of literals, and formats on which the loops go wrong.
use recycle_bin.Prelude.{
  ℕ, zero, suc, ◌<◌, ◌≡◌, refl, sym, ap, ◌∙◌, ◌≢◌, ◌↔◌, inl, inr, Bool, true, false, none, some, [],
  ◌∷◌, arith, ◌==◌, Bool-cases, length, All, ok, fault,
}
use recycle_bin.Prelude.Chars.{Bytes, IsText, cstr}
use recycle_bin.Prelude.Int.{schar, ltb_ℤ}
use recycle_bin.Match.{head_of, at_index, step}
use recycle_bin.Match.Scan.{read_width}
use recycle_bin.Match.Format.{set_loop, directive, optional_next, str_match}

-- No NUL and no `%` among the characters.
abbrev pub IsLiteral : Bytes → Type 0
IsLiteral fmt = All (λ c. (c ≢ 0) × (c ≢ 37)) fmt

not_optional :
    (y : ℕ) (ys rest : Bytes) → IsLiteral ys → optional_next (y ∷ cstr ys rest) ≡ ok false
unfolding optional_next at_index
not_optional y [] rest l = refl
not_optional y (z ∷ ys) rest l =
    let other : (z == 37) ≡ false = ground (arith, l.0.1) in rw other refl

-- A format without `%` matches exactly the text that is equal to it, for a fuel above its length.
pub str_match-literal :
    (fuel : ℕ) (xs fmt rest rest' : Bytes)
    → IsText xs
    → IsLiteral fmt
    → length fmt < fuel
    → (b : Bool) × (str_match fuel (cstr xs rest) (cstr fmt rest') ≡ some (ok b))
      × ((b ≡ true) ↔ (xs ≡ fmt))
unfolding str_match head_of step
str_match-literal zero xs fmt rest rest' t l f = absurd (omega arith)
str_match-literal (suc fuel) [] [] rest rest' t l f = (true, refl, (λ _. refl, λ _. refl))
str_match-literal (suc fuel) (x ∷ xs) [] rest rest' t l f =
    let full : (x == 0) ≡ false = ground (arith, t.0) in
    (false, rw full refl, (λ e. absurd (cc e), λ e. absurd (cc e)))
str_match-literal (suc fuel) [] (y ∷ fmt) rest rest' t l f =
    let full : (y == 0) ≡ false = ground (arith, l.0.0) in
    let plain : (y == 37) ≡ false = ground (arith, l.0.1) in
    (
      false,
      rw (full, plain, not_optional y fmt rest' l.1) refl,
      (λ e. absurd (cc e), λ e. absurd (cc e)),
    )
str_match-literal (suc fuel) (x ∷ xs) (y ∷ fmt) rest rest' t l f =
    let full : (y == 0) ≡ false = ground (arith, l.0.0) in
    let plain : (y == 37) ≡ false = ground (arith, l.0.1) in
    elim (Bool-cases (y == x)) [
      | inl e ↦
          let (b, run, same) = str_match-literal fuel xs fmt rest rest' t.1 l.1 (omega arith) in
          let equal : y ≡ x = ground arith in
          (
            b,
            rw (full, plain, e) run,
            (λ h. ap (λ c. c ∷ xs) (sym equal) ∙ ap (λ cs. y ∷ cs) (same.0 h), λ h. same.1 (cc h)),
          )
      | inr e ↦ (
        false,
        rw (full, plain, e, not_optional y fmt rest' l.1) refl,
        (λ h. absurd (cc h), λ h. ground arith),
      )
    ]

-- A format that is a single `%` is read past its end, on every text.
pub str_match-percent_end :
    (fuel : ℕ) (s : Bytes) → str_match (suc (suc fuel)) s (37 ∷ 0 ∷ []) ≡ some fault
unfolding str_match head_of step directive read_width
str_match-percent_end fuel s = refl

-- A `%[` with a range that runs downwards, from a character that is not `]`, never leaves its loop: it
-- runs out of every fuel.
pub set_loop-reversed :
    (fuel : ℕ) (bit m : Bytes) (c last : ℕ)
    → last < c
    → c < 128
    → c ≢ 93
    → set_loop fuel bit (c ∷ 45 ∷ last ∷ m) ≡ none
unfolding set_loop head_of at_index step
set_loop-reversed zero bit m c last lt high bracket = refl
set_loop-reversed (suc fuel) bit m c last lt high bracket =
    let full : (c == 0) ≡ false = ground arith in
    let inside : (c == 93) ≡ false = ground (arith, bracket) in
    let down : ltb_ℤ (schar last) (schar c) ≡ true = ground arith in
    rw (full, inside, down) (set_loop-reversed fuel bit m c last lt high bracket)
