-- ===== src/Small/Examples.antt =====
-- The small programs at concrete values.
use recycle_bin.Prelude.{ℕ, ◌+◌, ◌≤◌, ◌<◌, ◌≡◌, refl, true, some, [], ◌∷◌, arith, length, ok}
use recycle_bin.Prelude.Chars.{Bytes}
use recycle_bin.Small.Deletes.{str_del_all, str_find_right, find_loop, back, char_at}
use recycle_bin.Small.Deletes.Ends.{Deleted, Differs, str_del_all-ends}
use recycle_bin.Small.Words.{sprintfcat, sprintfcat-append, ho_trim, leading, trailing, all_spaces}

sprintfcat-append_example :
    (size' : ℕ) × (sprintfcat 2 true true (1 ∷ 2 ∷ 3 ∷ []) (some (5 ∷ [], 3))
      ≡ some (ok (some (5 ∷ 1 ∷ 2 ∷ 3 ∷ [], size'))))
    × (length {A = ℕ} (5 ∷ 1 ∷ 2 ∷ 3 ∷ []) < size')
sprintfcat-append_example =
    sprintfcat-append (1 ∷ 2 ∷ 3 ∷ []) (5 ∷ []) 3 0 (omega arith) (omega arith) (omega arith)

-- " a b  " gives "a b".
trimmed : ho_trim (32 ∷ 97 ∷ 32 ∷ 98 ∷ 32 ∷ 32 ∷ []) ≡ 97 ∷ 32 ∷ 98 ∷ []
unfolding ho_trim leading trailing all_spaces
trimmed = refl

str_del_all-ends_example :
    (t : Bytes) × (str_del_all 6 (1 ∷ 2 ∷ 1 ∷ 2 ∷ 3 ∷ []) (1 ∷ 2 ∷ []) ≡ some (ok t))
    × Deleted (1 ∷ 2 ∷ []) (1 ∷ 2 ∷ 1 ∷ 2 ∷ 3 ∷ []) t
    × ((i : ℕ) → i + 2 ≤ length t → Differs (1 ∷ 2 ∷ []) t i)
str_del_all-ends_example =
    str_del_all-ends 6 (1 ∷ 2 ∷ 1 ∷ 2 ∷ 3 ∷ []) (1 ∷ 2 ∷ []) (omega arith) (omega arith)

-- "1212123456" without "12".
deleted :
    str_del_all 11 (49 ∷ 50 ∷ 49 ∷ 50 ∷ 49 ∷ 50 ∷ 51 ∷ 52 ∷ 53 ∷ 54 ∷ []) (49 ∷ 50 ∷ [])
    ≡ some (ok (51 ∷ 52 ∷ 53 ∷ 54 ∷ []))
unfolding str_del_all str_find_right find_loop back char_at
deleted = refl
