-- ===== src/MiniAnt/Loop/Start.antt =====
-- mini_ant/src/mini_ant.c: `read_config`; mini_ant/src/ant_context.c: `cache_url_init`.
use recycle_bin.Prelude.{
  Bool, true, false, Option, none, some, List, [], ◌∷◌, ◌++◌, ◌==◌, if◌then◌else◌, drop, Run, ok,
  fault, ◌>>=◌,
}
use recycle_bin.Prelude.Chars.{Bytes, is_space}
use recycle_bin.Prelude.Int.{ℤ, pos, negsuc}
use recycle_bin.MiniAnt.Hash.{AntHash, text, ant_lookup, ant_hash_put}
use recycle_bin.MiniAnt.Http.Head.{starts}
use recycle_bin.MiniAnt.Loop.{Options}

-- Is the URL among those that have been downloaded?
unfoldable pub is_known : AntHash (Unit {0}) → (url : Bytes) → Run Bool
is_known t url = elim (ant_lookup t url) [
  | fault ↦ fault
  | ok (i, c, none) ↦ ok false
  | ok (i, c, some k) ↦ ok true
]

-- `if (!ant_lookup(…)) ant_hash_put(…)`; `got` is whether an element gets memory.
unfoldable pub note_url :
    (got : Bool) → (url : Bytes) → AntHash (Unit {0}) → Run (AntHash (Unit {0}))
note_url got url t = do
  known ← is_known t url
  if known then ok t else do (old, t) ← ant_hash_put got t url tt; ok t

-- "maxconn"
abbrev pub maxconn_word : Bytes
maxconn_word = 109 ∷ 97 ∷ 120 ∷ 99 ∷ 111 ∷ 110 ∷ 110 ∷ []

unfoldable pub without_space : Bytes → Bytes
without_space [] = []
without_space (c ∷ s) = let rest = without_space s in if is_space c then rest else c ∷ s

-- `sscanf(p + 7, "%*[ =]%d", &opt.maxconn)` is the library's, `none` where nothing is read. `lines` are those that `fgets`
-- gives.
unfoldable pub read_config :
    (scan_conn : Bytes → Option ℤ) → (lines : Option (List Bytes)) → Options → ℤ × Options
read_config scan_conn none opt = (negsuc 0, opt)
read_config scan_conn (some []) opt = (pos 0, opt)
read_config scan_conn (some (l ∷ ls)) opt =
    let p = without_space l in
    let set : Options = elim (scan_conn (drop 7 p)) [
      | none ↦ opt
      | some n ↦ record opt { maxconn = n }
    ] in
    read_config scan_conn (some ls) (if starts maxconn_word p then set else opt)

-- The loop over the mapped file, with the characters between `begin` and `end`: a line that the table has not is put.
-- Behind a line feed `end` moves on twice, so that the first character of the next line is not looked at. The loop ends at
-- a NUL.
unfoldable pub record_lines :
    (got : Bool) → (begun : Bytes) → Bytes → AntHash (Unit {0}) → Run (AntHash (Unit {0}))
record_lines got begun [] t = fault
record_lines got begun (c ∷ []) t = if c == 0 then ok t else fault
record_lines got begun (c ∷ d ∷ m) t =
    let more = record_lines got (begun ++ c ∷ []) (d ∷ m) t in
    let next = (do t ← note_url got (text begun) t; record_lines got (d ∷ []) m t) in
    if c == 0 then ok t else if c == 10 then next else more

-- `none` is a file that is not opened or mapped, and otherwise its pages are given.
unfoldable pub cache_url_init :
    (got : Bool) → (pages : Option Bytes) → AntHash (Unit {0}) → Run (AntHash (Unit {0}))
cache_url_init got none t = ok t
cache_url_init got (some m) t = record_lines got [] m t
