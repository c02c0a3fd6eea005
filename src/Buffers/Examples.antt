-- ===== src/Buffers/Examples.antt =====
-- Tests of the growing buffers.
use recycle_bin.Prelude.{
  ℕ, refl, sym, ap, ◌∙◌, Option, none, some, [], ◌∷◌, arith, length, replicate, length-replicate,
  Returns,
}
use recycle_bin.Prelude.Chars.{Bytes}
use recycle_bin.Prelude.Int.{pos}
use recycle_bin.Buffers.AntBuf.{AntBuf, ant_buf_append}
use recycle_bin.Buffers.Contents.{IsBuf, Fits, Allocates}
use recycle_bin.Buffers.Append.{Appended, ant_buf_append-Appended}

abbrev get : ℕ → Option Bytes
get n = some (replicate n 0)

got_object : Option Bytes → Bytes
got_object none = []
got_object (some o) = o

get-Allocates : Allocates get
unfolding Allocates got_object
get-Allocates n o e = ap (λ x. length (got_object x)) (sym e) ∙ length-replicate n 0

abbrev full_buf : AntBuf
full_buf = record { buf = some (7 ∷ 8 ∷ 0 ∷ []); length = 3; ncurr = 2; flag = 0; nm_alloc = 1 }

full_buf-IsBuf : IsBuf full_buf
unfolding IsBuf
full_buf-IsBuf = (refl, omega arith)

full_buf-Fits : Fits full_buf 2
unfolding Fits
full_buf-Fits = (omega arith, omega arith)

ant_buf_append-Appended_example :
    Returns
      (Appended get get get-Allocates get-Allocates full_buf (5 ∷ 6 ∷ []))
      (ant_buf_append get get full_buf (5 ∷ 6 ∷ []) (pos 2))
ant_buf_append-Appended_example =
    ant_buf_append-Appended get get get-Allocates get-Allocates full_buf (5 ∷ 6 ∷ []) full_buf-IsBuf
      full_buf-Fits
