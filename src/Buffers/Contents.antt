-- ===== src/Buffers/Contents.antt =====
-- What the growing buffers hold.
use recycle_bin.Prelude.{
  ℕ, zero, suc, ◌+◌, ◌*◌, ◌^◌, ◌≤◌, ◌<◌, ◌≡◌, refl, ap, ◌∙◌, true, Option, none, some, [], ◌∷◌,
  ◌++◌, arith, ltb, leb, length, take, drop, length-append, length-take, length-drop, take-length,
  ok, ◌>>=◌, Returns,
}
use recycle_bin.Prelude.Chars.{Bytes}
use recycle_bin.Buffers.{ℤ, from_option, pos, ok, int, Option, read_bytes, store}
use recycle_bin.Buffers.AntBuf.{AntBuf}

take-front : (xs ys : Bytes) (n : ℕ) → n ≡ length xs → take n (xs ++ ys) ≡ xs
take-front [] ys zero e = refl
take-front [] ys (suc n) e = absurd (omega arith)
take-front (x ∷ xs) ys zero e = absurd (omega arith)
take-front (x ∷ xs) ys (suc n) e = ap (λ zs. x ∷ zs) (take-front xs ys n (omega arith))

pub store-fits :
    (o : Bytes) (off : ℕ) (bs : Bytes)
    → off + length bs ≤ length o
    → Returns
        (λ o'. (length o' ≡ length o) × (take (off + length bs) o' ≡ take off o ++ bs))
        (store o off bs)
unfolding store
store-fits o off bs h =
    let full : leb (off + length bs) (length o) ≡ true = ground arith in
    let size : length (take off o) ≡ off = omega (arith, length-take off o) in
    let behind = drop (off + length bs) o in
    let all : length (take off o ++ bs ++ behind) ≡ length o = omega (
      arith,
      length-append (take off o ++ bs) behind,
      length-append (take off o) bs,
      length-drop (off + length bs) o,
      size,
    ) in
    (
      take off o ++ bs ++ behind,
      rw full refl,
      (
        all,
        take-front (take off o ++ bs) behind (off + length bs)
            (omega (arith, length-append (take off o) bs, size)),
      ),
    )

-- What the buffer holds.
unfoldable pub contents : AntBuf → Bytes
contents b = elim b.buf [ none ↦ [] | some o ↦ take b.ncurr o ]

unfoldable pub IsBuf : AntBuf → Type 0
IsBuf b = elim b.buf [ none ↦ b.ncurr ≡ 0 | some o ↦ (length o ≡ b.length) × (b.ncurr ≤ b.length) ]

-- The sizes stay below the bound of `int`.
unfoldable pub Fits : AntBuf → ℕ → Type 0
Fits b size = (b.ncurr + size + 500 < 2 ^ 31) × (2 * b.length < 2 ^ 31)

unfoldable pub Allocates : (ℕ → Option Bytes) → Type 0
Allocates alloc = (n : ℕ) (o : Bytes) → alloc n ≡ some o → length o ≡ n

pub int-fits : (n : ℕ) → n < 2 ^ 31 → int n ≡ ok n
unfolding int
int-fits n h = let small : ltb n (2 ^ 31) ≡ true = ground arith in rw small refl

pub read_bytes-fits : (n : ℕ) (src : Bytes) → n ≤ length src → read_bytes n src ≡ ok (take n src)
unfolding read_bytes
read_bytes-fits n src h = let full : leb n (length src) ≡ true = ground arith in rw full refl

-- The second half of `ant_buf_append`, where there is room.
pub put_bytes :
    (b : AntBuf) (o elem : Bytes)
    → b.buf ≡ some o
    → b.ncurr + length elem ≤ length o
    → length o ≡ b.length
    → b.ncurr + length elem < 2 ^ 31
    → Returns
        (λ (r : ℤ × AntBuf). (r.0 ≡ pos 0) × IsBuf r.1 × (contents r.1 ≡ take b.ncurr o ++ elem))
        (do
          o ← from_option b.buf
          bytes ← read_bytes (length elem) elem
          o ← store o b.ncurr bytes
          ncurr ← int (b.ncurr + length elem)
          ok (pos 0, record b { buf = some o; ncurr = ncurr }))
unfolding contents IsBuf
put_bytes b o elem held room size small =
    let (o', run, (same, front)) = store-fits o b.ncurr elem room in
    (
      (pos 0, record b { buf = some o'; ncurr = b.ncurr + length elem }),
      rw
          (
            held,
            read_bytes-fits (length elem) elem (omega arith),
            take-length elem,
            run,
            int-fits (b.ncurr + length elem) small,
          )
          refl,
      (refl, (same ∙ size, omega (arith, same)), front),
    )
