-- ===== src/Buffers/Append.antt =====
-- mini_ant/src/ant_buf.c: what `ant_buf_append` does to the contents.
use recycle_bin.Prelude.{
  ℕ, zero, suc, ◌+◌, ◌*◌, ◌%◌, ◌^◌, ◌≤◌, ◌<◌, ◌≡◌, refl, sym, ap, ◌∙◌, ◌⊎◌, inl, inr, Bool, true,
  false, ◌||◌, Option, none, some, [], ◌∷◌, ◌++◌, arith, ltb, ◌==◌, Bool-cases, Option-cases,
  length, take, length-take, Returns,
}
use recycle_bin.Prelude.Chars.{Bytes}
use recycle_bin.Prelude.Int.{ℤ, pos, negsuc}
use recycle_bin.Buffers.{nonneg, at_least_double, is_null}
use recycle_bin.Buffers.AntBuf.{AntBuf, ant_buf_append, ant_buf_reserve}
use recycle_bin.Buffers.Contents.{
  contents, IsBuf, Fits, Allocates, int-fits, read_bytes-fits, store-fits, put_bytes,
}

-- There is room for `n` more bytes behind the same contents.
HasRoom : AntBuf → ℕ → AntBuf → Type 0
HasRoom b n b' =
    (o : Bytes) × (b'.buf ≡ some o)
    × (length o ≡ b'.length)
    × (b'.ncurr ≡ b.ncurr)
    × (b.ncurr + n ≤ length o)
    × (take b.ncurr o ≡ contents b)

-- An allocation has failed, and the contents are the same.
Kept : (malloc calloc : ℕ → Option Bytes) → AntBuf → AntBuf → Type 0
Kept malloc calloc b b' =
    IsBuf b' × (contents b' ≡ contents b) × ((n : ℕ) × ((malloc n ≡ none) ⊎ (calloc n ≡ none)))

left_nil : (xs : Bytes) → [] ++ xs ≡ xs
left_nil [] = refl
left_nil (x ∷ xs) = refl

option_cases :
    (o : Option Bytes) (l k : ℕ)
    → elim o as (λ x. Type 0) [ none ↦ k ≡ 0 | some m ↦ (length m ≡ l) × (k ≤ l) ]
    → (((is_null o || (l == 0)) ≡ true)
        × (k ≡ 0)
        × ((elim o as (λ x. Bytes) [ none ↦ [] | some m ↦ take k m ]) ≡ []))
      ⊎ ((m : Bytes) × ((is_null o || (l == 0)) ≡ false)
          × (o ≡ some m)
          × ((length m ≡ l) × (k ≤ l))
          × (elim o as (λ x. Bytes) [ none ↦ [] | some m ↦ take k m ] ≡ take k m))
unfolding is_null
option_cases none l k good = inl (refl, good, refl)
option_cases (some m) zero k (size, le) =
    let start : k ≡ 0 = omega arith in inl (refl, start, ap (λ j. take j m) start)
option_cases (some m) (suc l) k (size, le) =
    let full : (suc l == 0) ≡ false = ground arith in inr (m, full, refl, (size, le), refl)

-- Either the buffer is allocated anew, or it has an object.
buf_cases :
    (b : AntBuf)
    → IsBuf b
    → (((is_null b.buf || (b.length == 0)) ≡ true) × (b.ncurr ≡ 0) × (contents b ≡ []))
      ⊎ ((o : Bytes) × ((is_null b.buf || (b.length == 0)) ≡ false)
          × (b.buf ≡ some o)
          × ((length o ≡ b.length) × (b.ncurr ≤ b.length))
          × (contents b ≡ take b.ncurr o))
unfolding IsBuf contents
buf_cases b good = option_cases b.buf b.length b.ncurr good

module _ (malloc calloc : ℕ → Option Bytes) (mallocs : Allocates malloc)
    (callocs : Allocates calloc) where
  Reserved : AntBuf → ℕ → Bool × AntBuf → Type 0
  Reserved b n r = ((r.0 ≡ true) × HasRoom b n r.1) ⊎ ((r.0 ≡ false) × Kept malloc calloc b r.1)

  first_room :
      (b : AntBuf) (n : ℕ)
      → (is_null b.buf || (b.length == 0)) ≡ true
      → b.ncurr ≡ 0
      → contents b ≡ []
      → n + 500 < 2 ^ 31
      → Returns (Reserved b n) (ant_buf_reserve malloc calloc b n)
  unfolding Reserved HasRoom Kept ant_buf_reserve Allocates IsBuf contents
  first_room b n empty start none_yet small = elim (Option-cases (malloc (n + 500))) [
    | inl refused ↦ (
      (false, record b { length = n + 500; buf = none }),
      rw (empty, int-fits (n + 500) small, refused) refl,
      inr (refl, (start, sym none_yet, (n + 500, inl refused))),
    )
    | inr (o, got) ↦
        let size = mallocs (n + 500) o got in
        (
          (true, record b { length = n + 500; buf = some o; nm_alloc = 1 }),
          rw (empty, int-fits (n + 500) small, got) refl,
          inl (
            refl,
            (
              o,
              refl,
              size,
              refl,
              omega (arith, size, start),
              ap (λ k. take k o) start ∙ sym none_yet,
            ),
          ),
        )
  ]

  doubled :
      (needed size : ℕ)
      → 2 * size < 2 ^ 31
      → needed < 2 ^ 31
      → Returns (λ k. (needed ≤ k) × (k < 2 ^ 31)) (at_least_double needed size)
  unfolding at_least_double
  doubled needed size double_fits needed_fits = elim (Bool-cases (ltb needed (2 * size))) [
    | inl e ↦ (2 * size, rw (int-fits (2 * size) double_fits, e) refl, (ground arith, double_fits))
    | inr e ↦ (needed, rw (int-fits (2 * size) double_fits, e) refl, (omega arith, needed_fits))
  ]

  more_room :
      (b : AntBuf) (n : ℕ) (o : Bytes)
      → (is_null b.buf || (b.length == 0)) ≡ false
      → b.buf ≡ some o
      → (length o ≡ b.length) × (b.ncurr ≤ b.length)
      → contents b ≡ take b.ncurr o
      → IsBuf b
      → Fits b n
      → Returns (Reserved b n) (ant_buf_reserve malloc calloc b n)
  unfolding Reserved HasRoom Kept ant_buf_reserve Allocates Fits
  more_room b n o full held (size, le) now good (fits, double_fits) =
      elim (Bool-cases (ltb b.length (b.ncurr + n + 1))) [
        | inl grows ↦
            let (k, choice, (enough, small)) =
              doubled (b.ncurr + n + 1) b.length double_fits (omega arith) in
            elim (Option-cases (calloc k)) [
              | inl refused ↦ (
                (false, b),
                rw (full, int-fits (b.ncurr + n + 1) (omega arith), grows, choice, refused) refl,
                inr (refl, (good, refl, (k, inr refused))),
              )
              | inr (o', got) ↦
                  let new_size = callocs k o' got in
                  let front : length (take b.ncurr o) ≡ b.ncurr =
                    omega (arith, length-take b.ncurr o) in
                  let (o'', run, (same, copied)) = store-fits o' 0 (take b.ncurr o) (omega arith) in
                  (
                    (
                      true,
                      record b { buf = some o''; length = k; nm_alloc = (b.nm_alloc + 1) % 2 ^ 31 },
                    ),
                    rw
                        (
                          full,
                          int-fits (b.ncurr + n + 1) (omega arith),
                          grows,
                          choice,
                          got,
                          held,
                          read_bytes-fits b.ncurr o (omega arith),
                          run,
                        )
                        refl,
                    inl (
                      refl,
                      (
                        o'',
                        refl,
                        same ∙ new_size,
                        refl,
                        omega (arith, same, new_size, enough),
                        ap (λ m. take m o'') (omega (arith, front))
                            ∙ copied
                            ∙ left_nil (take b.ncurr o)
                            ∙ sym now,
                      ),
                    ),
                  )
            ]
        | inr fits_in ↦ (
          (true, b),
          rw (full, int-fits (b.ncurr + n + 1) (omega arith), fits_in) refl,
          inl (refl, (o, held, size, refl, ground arith, sym now)),
        )
      ]

  reserved :
      (b : AntBuf) (n : ℕ)
      → IsBuf b
      → Fits b n
      → Returns (Reserved b n) (ant_buf_reserve malloc calloc b n)
  unfolding Fits
  reserved b n good fits = elim (buf_cases b good) [
    | inl (empty, start, none_yet) ↦ first_room b n empty start none_yet (omega (arith, fits.0))
    | inr (o, full, held, sizes, now) ↦ more_room b n o full held sizes now good fits
  ]

  -- What `ant_buf_append` leaves: the bytes behind the contents, or the contents as they were, with -1,
  -- where an allocation fails.
  pub Appended : AntBuf → Bytes → ℤ × AntBuf → Type 0
  Appended b elem r =
      ((r.0 ≡ pos 0) × IsBuf r.1 × (contents r.1 ≡ contents b ++ elem))
      ⊎ ((r.0 ≡ negsuc 0) × Kept malloc calloc b r.1)

  appended :
      (b : AntBuf) (elem : Bytes)
      → Fits b (length elem)
      → Returns (Reserved b (length elem)) (ant_buf_reserve malloc calloc b (length elem))
      → Returns (Appended b elem) (ant_buf_append malloc calloc b elem (pos (length elem)))
  unfolding Appended Reserved HasRoom ant_buf_append nonneg Fits
  appended b elem (fits, _) ((got, b'), run, inr (failed, kept)) =
      ((negsuc 0, b'), rw (run, failed) refl, inr (refl, kept))
  appended b elem (fits, _) ((got, b'), run, inl (room, (o, held, size, same, enough, front))) =
      let (r, put, (success, good, now)) =
        put_bytes b' o elem held (omega (arith, same)) size (omega (arith, same)) in
      (
        r,
        rw (run, room) put,
        inl (success, good, now ∙ ap (λ x. x ++ elem) (ap (λ k. take k o) same ∙ front)),
      )

  -- Of a well-formed buffer whose sizes stay below INT_MAX, `ant_buf_append` returns and leaves a
  -- well-formed buffer: with 0, one that holds the bytes behind what it held; with -1, where `malloc` or
  -- `calloc` has failed for some size, one that holds what it held.
  pub ant_buf_append-Appended :
      (b : AntBuf) (elem : Bytes)
      → IsBuf b
      → Fits b (length elem)
      → Returns (Appended b elem) (ant_buf_append malloc calloc b elem (pos (length elem)))
  ant_buf_append-Appended b elem good fits =
      appended b elem fits (reserved b (length elem) good fits)
