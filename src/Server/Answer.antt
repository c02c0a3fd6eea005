-- ===== src/Server/Answer.antt =====
-- http_server/src/tor_http.c: `http_join_head_body` and `http_write`; http_server/src/mini_tor.c: `list_dir` and
-- `do_process`.
use recycle_bin.Prelude.{
  ℕ, ◌+◌, ◌-◌, Bool, true, false, not, ◌&&◌, ◌||◌, Option, none, some, List, [], ◌∷◌, ◌++◌, leb,
  ◌==◌, if◌then◌else◌, length, take, Run, ok, fault, ◌>>=◌,
}
use recycle_bin.Prelude.Chars.{Bytes}
use recycle_bin.MiniAnt.Dns.Transfer.{same}
use recycle_bin.Small.Words.{sprintfcat}
use recycle_bin.Server.{HttpContext, max_url_size}

-- What `stat` says of a name; a regular file has a size.
pub data Kind : Type 0 where
  missing : Kind
  directory : Kind
  regular : ℕ → Kind
  special : Kind

-- The file system in one answer: `readdir` gives the names of a directory, `none` where it cannot be opened; `mmap` the
-- bytes of an open file. `enoent` is whether `errno` is `ENOENT` at the end, from whatever call has set it. `got` and `grows`
-- say whether `sprintfcat` gets memory.
pub record Disk : Type 0 where
  pub stat : Bytes → Kind
  pub readdir : Bytes → Option (List Bytes)
  pub open_read : Bytes → Option ℕ
  pub mmap : ℕ → ℕ → Option Bytes
  pub enoent : Bool
  pub got : Bool
  pub grows : Bool

-- `strncat(http->fname, http->path, MAX_URL_SIZE - strlen(fname) - strlen(path) - 1)`, where the number wraps below zero.
unfoldable pub join_path : (fname path : Bytes) → Run Bytes
join_path fname path =
    if leb (length fname + length path + 1) max_url_size
    then ok (fname ++ take (max_url_size - length fname - length path - 1) path)
    else fault

-- "<html>", "<a href = ", "> ", " </a> </br>", "</html>", "." and ".."
abbrev pub open_html : Bytes
open_html = 60 ∷ 104 ∷ 116 ∷ 109 ∷ 108 ∷ 62 ∷ []

abbrev pub link_start : Bytes
link_start = 60 ∷ 97 ∷ 32 ∷ 104 ∷ 114 ∷ 101 ∷ 102 ∷ 32 ∷ 61 ∷ 32 ∷ []

abbrev pub link_middle : Bytes
link_middle = 62 ∷ 32 ∷ []

abbrev pub link_end : Bytes
link_end = 32 ∷ 60 ∷ 47 ∷ 97 ∷ 62 ∷ 32 ∷ 60 ∷ 47 ∷ 98 ∷ 114 ∷ 62 ∷ []

abbrev pub close_html : Bytes
close_html = 60 ∷ 47 ∷ 104 ∷ 116 ∷ 109 ∷ 108 ∷ 62 ∷ []

abbrev pub dot : Bytes
dot = 46 ∷ []

abbrev pub dots : Bytes
dots = 46 ∷ 46 ∷ []

-- The two lines of the head: "HTTP/1.1 200 OK\r\n", "HTTP/1.1 404 Not Found\r\n" and the empty one.
abbrev pub found_line : Bytes
found_line = 72 ∷ 84 ∷ 84 ∷ 80 ∷ 47 ∷ 49 ∷ 46 ∷ 49 ∷ 32 ∷ 50 ∷ 48 ∷ 48 ∷ 32 ∷ 79 ∷ 75 ∷ 13 ∷ 10 ∷ []

abbrev pub missing_line : Bytes
missing_line =
    72 ∷ 84 ∷ 84 ∷ 80 ∷ 47 ∷ 49 ∷ 46 ∷ 49 ∷ 32 ∷ 52 ∷ 48 ∷ 52 ∷ 32 ∷ 78 ∷ 111 ∷ 116 ∷ 32 ∷ 70 ∷ 111
    ∷ 117 ∷ 110 ∷ 100 ∷ 13 ∷ 10 ∷ []

abbrev pub empty_line : Bytes
empty_line = 13 ∷ 10 ∷ []

unfoldable pub is_none {ℓ} : {A : Type ℓ} → Option A → Bool
is_none none = true
is_none (some a) = false

module _ (disk : Disk) where
  -- `sprintfcat` onto a text, whose result is not looked at. Where `calloc` fails there is no text as before; where `realloc`
  -- fails the text is freed under its pointer, which is used again.
  unfoldable pub put_text : Bytes → Option (Bytes × ℕ) → Run (Option (Bytes × ℕ))
  put_text text strp = elim (sprintfcat 2 disk.got disk.grows text strp) [
    | none ↦ fault
    | some fault ↦ fault
    | some (ok none) ↦ if is_none strp && not disk.got then ok none else fault
    | some (ok (some t)) ↦ ok (some t)
  ]

  unfoldable pub put_names : List Bytes → Option (Bytes × ℕ) → Run (Option (Bytes × ℕ))
  put_names [] page = ok page
  put_names (n ∷ ns) page = do
    page ←
        (if same n dot || same n dots
          then ok page
          else put_text (link_start ++ (n ++ (link_middle ++ (n ++ link_end)))) page)
    put_names ns page

  -- The result is not looked at.
  unfoldable pub list_dir : HttpContext → Run HttpContext
  list_dir http = elim (disk.readdir http.fname) [
    | none ↦ ok http
    | some names ↦ do
      page ← put_text open_html http.page
      page ← put_names names page
      page ← put_text close_html page
      ok (record http { page = page })
  ]

  -- A file of `size` bytes.
  unfoldable pub map_file : (size : ℕ) → HttpContext → HttpContext
  map_file size http = elim (disk.open_read http.fname) [
    | none ↦ record http { mm = true }
    | some fd ↦ elim (disk.mmap fd size) [
      | none ↦ record http { mm = true; unmapped = not (size == 0); page = some ([], 0) }
      | some bytes ↦ record http { mm = true; page = some (bytes, length bytes) }
    ]
  ]

  unfoldable pub body_of : Kind → HttpContext → Run HttpContext
  body_of missing http = ok http
  body_of directory http = list_dir http
  body_of (regular size) http = ok (map_file size http)
  body_of special http = ok http

  -- What is printed to the terminal is left out.
  unfoldable pub http_join_head_body : HttpContext → Run HttpContext
  http_join_head_body http = do
    fname ← join_path http.fname http.path
    http ← body_of (disk.stat fname) (record http { fname = fname })
    head ← put_text (if disk.enoent then missing_line else found_line) http.head
    head ← put_text empty_line head
    ok (record http { head = head })

unfoldable pub text_of : Option (Bytes × ℕ) → Bytes
text_of none = []
text_of (some (t, size)) = t

-- Of a page that is not mapped `writev` sends nothing.
unfoldable pub http_write {ℓ} : {S : Type ℓ} (writev : ℕ → Bytes → S → S) → HttpContext → S → S
http_write writev http s =
    if http.unmapped then s else writev http.fd (text_of http.head ++ text_of http.page) s

unfoldable pub do_process {ℓ} :
    {S : Type ℓ} (writev : ℕ → Bytes → S → S) (disk : Disk) → HttpContext → S → Run S
do_process writev disk http s = do
  http ← http_join_head_body disk http
  ok (http_write writev http s)
