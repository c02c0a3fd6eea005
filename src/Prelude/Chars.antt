-- ===== src/Prelude/Chars.antt =====
-- Memory as bytes, and C strings in it. A pointer into an object is what the object holds from there
-- on, so a read through it is a look at the head, and a read past the end finds no byte.
use recycle_bin.Prelude.{
  ℕ, ◌+◌, ◌≢◌, Bool, ◌&&◌, ◌||◌, List, ◌∷◌, ◌++◌, All, leb, ◌==◌, if◌then◌else◌,
}

abbrev pub Bytes : Type 0
Bytes = List ℕ

-- The characters of a string: no NUL among them.
abbrev pub IsText : Bytes → Type 0
IsText cs = All (λ c. c ≢ 0) cs

-- A string in memory: its characters, the NUL, and what lies behind.
abbrev pub cstr : Bytes → Bytes → Bytes
cstr cs rest = cs ++ 0 ∷ rest

-- `isspace`, `isdigit` and `tolower` of the C locale.
abbrev pub is_space : ℕ → Bool
is_space c = (c == 32) || (leb 9 c && leb c 13)

abbrev pub is_digit : ℕ → Bool
is_digit c = leb 48 c && leb c 57

abbrev pub to_lower : ℕ → ℕ
to_lower c = if leb 65 c && leb c 90 then c + 32 else c
