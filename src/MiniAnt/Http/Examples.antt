-- ===== src/MiniAnt/Http/Examples.antt =====
-- mini_ant/src/ant_http.c: a header of two lines.
use recycle_bin.Prelude.{
  ℕ, ◌≡◌, refl, ◌≢◌, inl, true, false, none, some, [], ◌∷◌, arith, leb, All-map, replicate,
  length-replicate, All, ok,
}
use recycle_bin.Prelude.Chars.{Bytes}
use recycle_bin.Prelude.Int.{pos, negsuc}
use recycle_bin.Buffers.AntBuf.{AntBuf}
use recycle_bin.MiniAnt.Http.{
  HttpInfo, process_line, status_line, process_header, process_tag, break_at, strcasecmp, strtol,
  skip_space, strtol_unsigned, digits,
}
use recycle_bin.MiniAnt.Http.Head.{header_loop}
use recycle_bin.MiniAnt.Http.Framing.{IsFramed}
use recycle_bin.MiniAnt.Http.Lines.{IsLine, header, after_lines, header_loop-lines}

abbrev no_page : AntBuf
no_page = record { buf = none; length = 0; ncurr = 0; flag = 0; nm_alloc = 0 }

abbrev fresh : HttpInfo
fresh = record {
  fd = 3;
  url = [];
  filesize = negsuc 0;
  chunksize = negsuc 0;
  linecount = 0;
  http_code = pos 0;
  end_header = false;
  chunkhead = pos 0;
  my_errno = none;
  isgzip = false;
  close = false;
  ant_write = true;
  ant_read_head = false;
  ant_read_body = false;
  location = [];
  cookies = none;
  page = no_page;
  filename = [];
}

-- `H 200` and `Content-Length: 7`
abbrev status : Bytes
status = 72 ∷ 32 ∷ 50 ∷ 48 ∷ 48 ∷ []

abbrev sized : Bytes
sized =
    67 ∷ 111 ∷ 110 ∷ 116 ∷ 101 ∷ 110 ∷ 116 ∷ 45 ∷ 76 ∷ 101 ∷ 110 ∷ 103 ∷ 116 ∷ 104 ∷ 58 ∷ 32 ∷ 55
    ∷ []

-- Printable characters.
by_tests : (s : Bytes) → All (λ c. leb 32 c ≡ true) s → All (λ c. (c ≢ 0) × (c ≢ 13)) s
by_tests s =
    All-map (λ c. leb 32 c ≡ true) (λ c. (c ≢ 0) × (c ≢ 13)) s
      (λ c e. (ground (arith, e), ground (arith, e)))

two-IsLine : All IsLine (status ∷ sized ∷ [])
two-IsLine = (
  (omega arith, omega arith, by_tests status (refl, (refl, (refl, (refl, (refl, tt)))))),
  (
    (
      omega arith,
      omega arith,
      by_tests sized (
        refl,
        (
          refl,
          (
            refl,
            (
              refl,
              (
                refl,
                (
                  refl,
                  (
                    refl,
                    (
                      refl,
                      (refl, (refl, (refl, (refl, (refl, (refl, (refl, (refl, (refl, tt))))))))),
                    ),
                  ),
                ),
              ),
            ),
          ),
        ),
      ),
    ),
    tt,
  ),
)

header_loop-lines_example :
    (header_loop 3 true (replicate 1024 0) (header (status ∷ sized ∷ []) (0 ∷ [])) fresh
      ≡ some (ok (record (after_lines true (status ∷ sized ∷ []) fresh) { end_header = true })))
    × IsFramed (after_lines true (status ∷ sized ∷ []) fresh)
header_loop-lines_example =
    header_loop-lines (status ∷ sized ∷ []) true (replicate 1024 0) (0 ∷ []) fresh two-IsLine
      (length-replicate {A = ℕ} 1024 0) (inl refl)

-- The two lines set the code and the length.
two_lines : (after_lines true (status ∷ sized ∷ []) fresh).filesize ≡ pos 7
unfolding process_line status_line process_header process_tag break_at strcasecmp strtol skip_space
    strtol_unsigned digits
two_lines = refl
