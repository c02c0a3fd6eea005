-- ===== src/MiniAnt/Crawl/Filter.antt =====
-- mini_ant/src/mini_ant.c: `filter_add` and `file_extract_url`; mini_ant/src/ant_context.c: `uniq_exists` and
-- `uniq_put`. A key of the table of URLs is the pointer that was given, so that a key that is the buffer
-- of a caller changes with it.
use recycle_bin.Prelude.{
  ℕ, Bool, true, false, ◌&&◌, Option, none, some, List, [], ◌∷◌, ◌++◌, map, if◌then◌else◌, drop,
  Run, ok, ◌>>=◌,
}
use recycle_bin.Prelude.Chars.{Bytes, is_space}
use recycle_bin.Prelude.Int.{ℤ, pos, negsuc}
use recycle_bin.MiniAnt.Hash.{AntHash, Chain, ant_lookup, ant_hash_put}
use recycle_bin.MiniAnt.Url.{url_text}
use recycle_bin.MiniAnt.Crawl.{Total, Fresh, gone, skip_head, down_add}
use recycle_bin.MiniAnt.Crawl.Add.{url_add}

-- What the pointer of a key leads to: memory that stays, or the array `line` of `file_extract_url`. The table's
-- values, which are `NULL` in the code, hold it here.
pub data KeyAt : Type 0 where
  own : KeyAt
  line : KeyAt

unfoldable pub is_line : KeyAt → Bool
is_line own = false
is_line line = true

-- The keys of a chain and of the table after other text has come into `line`.
unfoldable pub reread : Bytes → Chain KeyAt → Chain KeyAt
reread text [] = []
reread text ((k, a) ∷ c) = (if is_line a then text else k, a) ∷ reread text c

unfoldable pub line_is : Bytes → AntHash KeyAt → AntHash KeyAt
line_is text t = record t { hash = map (reread text) t.hash }

unfoldable pub uniq_exists : AntHash KeyAt → Bytes → Run Bool
uniq_exists t url = do (i, c, p) ← ant_lookup t url; ok (elim p [ none ↦ false | some k ↦ true ])

unfoldable pub uniq_put : (got : Bool) → AntHash KeyAt → (url : Bytes) → KeyAt → Run (AntHash KeyAt)
uniq_put got t url a = do (_, t) ← ant_hash_put got t url a; ok t

-- `sscanf(…, "%hhu.%hhu.%hhu.%hhu:%hu", …)` is the library's: the address and the port, where it reads four
-- numbers or five.
module _ (scan_ip : Bytes → Option (ℕ × Option ℕ)) (sp : Bytes → Option ℕ) where
  unfoldable pub add_filtered : Fresh → (url : Bytes) → Total → Run Total
  add_filtered f url w = do
    n ← skip_head url
    elim (scan_ip (drop n url)) [
      | some (ip, port) ↦ do
        (_, q, w) ← down_add sp f gone ip (elim port [ none ↦ 0 | some k ↦ k ]) url w.down w
        ok (record w { down = q })
      | none ↦ url_add sp f url w
    ]

  unfoldable pub filter_add :
      Fresh → (url : Bytes) → KeyAt → AntHash KeyAt → Total → Run (AntHash KeyAt × Total)
  filter_add f url a t w = do
    text ← url_text url
    seen ← uniq_exists t text
    if seen
        then ok (t, w)
        else do t ← uniq_put f.uniq_got t text a; w ← add_filtered f url w; ok (t, w)

  -- `while (*p && !isspace(*p)) p++;`
  unfoldable pub first_word : Bytes → Bytes
  first_word [] = []
  first_word (c ∷ m) = if is_space c then [] else c ∷ first_word m

  unfoldable pub is_space_line : Bytes → Bool
  is_space_line [] = true
  is_space_line (c ∷ m) = is_space c && is_space_line m

  -- The lines that `fgets` gives, none of which holds a NUL, each with what memory is given for it; `none` is a file that is
  -- not opened.
  unfoldable pub extract_lines :
      List (Bytes × Fresh) → AntHash KeyAt → Total → Run (AntHash KeyAt × Total)
  extract_lines [] t w = ok (t, w)
  extract_lines ((l, f) ∷ ls) t w = if is_space_line l then extract_lines ls (line_is l t) w else do
    (t, w) ← filter_add f (first_word l ++ 0 ∷ []) line (line_is (first_word l) t) w
    extract_lines ls t w

  unfoldable pub file_extract_url :
      Option (List (Bytes × Fresh)) → AntHash KeyAt → Total → Run (ℤ × AntHash KeyAt × Total)
  file_extract_url none t w = ok (negsuc 0, t, w)
  file_extract_url (some ls) t w = do (t, w) ← extract_lines ls t w; ok (pos 0, t, w)
