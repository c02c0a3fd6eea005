-- ===== src/Corecode/Options.antt =====
-- corecode/ho_getopt_long.c and `struct ho_option` of ho_getopt_long.h. Strings are their characters. `S` is
-- the memory behind the options' flags; what is printed is a list of messages, the last one first.
use recycle_bin.Prelude.{
  ℕ, ◌≡◌, refl, ◌∙◌, inl, inr, Bool, true, false, not, ◌&&◌, ◌||◌, Option, none, some, List, [],
  ◌∷◌, ◌++◌, arith, ◌==◌, if◌then◌else◌, Bool-cases, get_elem?, All, Run, ok, fault, ◌>>=◌,
  from_option,
}
use recycle_bin.Prelude.Chars.{Bytes}
use recycle_bin.Prelude.Int.{ℤ, pos, eq_ℤ}

pub record HoOption (S : Type 0) : Type 0 where
  pub get_val : Option (Bytes → S → S)
  pub name : Option Bytes
  pub has_arg : ℤ
  pub flag : ℕ
  pub val : ℤ

pub data Message : Type 0 where
  requires_argument : Bytes → Message
  unrecognized : Bytes → Message

unfoldable pub same_text : Bytes → Bytes → Bool
same_text [] [] = true
same_text (a ∷ as') (b ∷ bs) = let rest = same_text as' bs in (a == b) && rest
same_text [] (b ∷ bs) = false
same_text (a ∷ as') [] = false

same_text_refl : (cs : Bytes) → same_text cs cs ≡ true
unfolding same_text
same_text_refl [] = refl
same_text_refl (c ∷ cs) =
    let same : (c == c) ≡ true = ground arith in rw (same, same_text_refl cs) refl

unfoldable pub is_some : {A : Type 0} → Option A → Bool
is_some none = false
is_some (some a) = true

-- `if (p->get_val && … && val != NULL) p->get_val(p, val);`
unfoldable pub given : {S : Type 0} → Option (Bytes → S → S) → Bool → Option Bytes → S → S
given (some get) true (some v) s = get v s
given (some get) true none s = s
given (some get) false val s = s
given none takes val s = s

-- `put` is the write of an `int` through `flag`.
module _ {S : Type 0} (put : ℕ → ℤ → S → S) where
  -- `!(p->get_val || p->name || p->has_arg || p->flag || p->val)`
  unfoldable pub is_last : HoOption S → Bool
  is_last p = not (
      is_some p.get_val
      || is_some p.name
      || not (eq_ℤ p.has_arg (pos 0))
      || not (p.flag == 0)
      || not (eq_ℤ p.val (pos 0)))

  -- What is done with the option that has the name.
  unfoldable pub take_option :
      HoOption S → Bytes → Option Bytes → S × List Message → Run (S × List Message)
  take_option p name val (s, out) =
      if eq_ℤ p.has_arg (pos 1) && not (is_some val)
      then ok (s, requires_argument name ∷ out)
      else let s' = given p.get_val (eq_ℤ p.has_arg (pos 1) || eq_ℤ p.has_arg (pos 2)) val s in
        if eq_ℤ p.val (pos 0)
        then ok (s', out)
        else if p.flag == 0
        then fault
        else ok (put p.flag p.val s', out)

  unfoldable pub parse_long_opt :
      List (HoOption S) → Bytes → Option Bytes → S × List Message → Run (S × List Message)
  parse_long_opt [] name val (s, out) = fault
  parse_long_opt (p ∷ opt) name val (s, out) =
      let rest = parse_long_opt opt name val (s, out) in
      if is_last p then ok (s, unrecognized name ∷ out) else do
        key ← from_option p.name
        if same_text key name then take_option p name val (s, out) else rest

  -- `-` and `-` in front of a name.
  unfoldable pub long_name : Bytes → Option Bytes
  long_name [] = none
  long_name (a ∷ []) = none
  long_name (a ∷ b ∷ name) = if (a == 45) && (b == 45) then some name else none

  -- The loop over the arguments; behind the last one stands `NULL`.
  unfoldable pub ho_getopt_long :
      List Bytes → List (HoOption S) → S × List Message → Run (S × List Message)
  ho_getopt_long [] opt st = ok st
  ho_getopt_long (arg ∷ argv) opt st = do
    st ← elim (long_name arg) [
      | none ↦ ok st
      | some name ↦ parse_long_opt opt name (get_elem? argv 0) st
    ]
    ho_getopt_long argv opt st

  -- An option that has a name, another one than this.
  unfoldable pub IsOther : Bytes → HoOption S → Type 0
  IsOther name p = (key : Bytes) × (p.name ≡ some key) × (same_text key name ≡ false)

  named-is_last : (p : HoOption S) (key : Bytes) → p.name ≡ some key → is_last p ≡ false
  unfolding is_last is_some
  named-is_last p key e = elim (Bool-cases (is_some p.get_val)) [
    | inl h ↦ rw (e, h) refl
    | inr h ↦ rw (e, h) refl
  ]

  key_found :
      {A : Type 0} (o : Option Bytes) (name : Bytes) (x y : Run A)
      → o ≡ some name
      → (from_option o >>= λ key. if same_text key name then x else y) ≡ x
  key_found o name x y e = rw (e, same_text_refl name) refl

  key_other :
      {A : Type 0} (o : Option Bytes) (key name : Bytes) (x y : Run A)
      → o ≡ some key
      → same_text key name ≡ false
      → (from_option o >>= λ key. if same_text key name then x else y) ≡ y
  key_other o key name x y e h = rw (e, h) refl

  -- The first option of the name is taken, whatever stands behind it, where those before it have names.
  pub parse_long_opt-first :
      (before after : List (HoOption S)) (p : HoOption S) (name : Bytes) (val : Option Bytes)
      (s : S) (out : List Message)
      → All (IsOther name) before
      → p.name ≡ some name
      → parse_long_opt (before ++ p ∷ after) name val (s, out) ≡ take_option p name val (s, out)
  unfolding parse_long_opt IsOther
  parse_long_opt-first [] after p name val s out h e =
      rw (named-is_last p name e) (key_found p.name name _ _ e)
  parse_long_opt-first (q ∷ before) after p name val s out ((key, named, other), h) e =
      rw (named-is_last q key named) (
        key_other q.name key name _ _ named other
        ∙ parse_long_opt-first before after p name val s out h e)
