-- ===== src/Server/Pointers.antt =====
-- http_server/src/mini_tor.c: the pointers that `cache_sock` holds.
use recycle_bin.Prelude.{
  ℕ, zero, suc, ◌+◌, ◌*◌, ◌/◌, ◌%◌, ◌^◌, ◌<◌, ◌≡◌, refl, sym, ap, ◌∙◌, true, false, Option, some,
  arith, ◌==◌, Run, ok, fault, ◌>>=◌,
}
use native.Mathlib.Omega.{pow_step}
use recycle_bin.Prelude.Chars.{Bytes}
use recycle_bin.MiniAnt.Array.{AntArray, ant_array_get, from, taken}
use recycle_bin.MiniAnt.Array.Elements.{element}
use recycle_bin.MiniAnt.Queue.{Ptr}
use recycle_bin.MiniAnt.Crawl.{store}
use recycle_bin.MiniAnt.Loop.{le_bytes, of_le_bytes, ptr_bytes}
use recycle_bin.MiniAnt.Loop.Turn.{info_of}

of_le_bytes-le_bytes : (count n : ℕ) → n < 256 ^ count → of_le_bytes (le_bytes count n) ≡ n
unfolding of_le_bytes le_bytes
of_le_bytes-le_bytes zero n h = let low : n < 1 = h in omega arith
of_le_bytes-le_bytes (suc k) n h =
    let high : n < 256 * 256 ^ k = omega (arith, pow_step 256 k) in
    let low : n / 256 < 256 ^ k = omega arith in
    ap (λ m. n % 256 + 256 * m) (of_le_bytes-le_bytes k (n / 256) low) ∙ omega arith

pick :
    (r : Run Bytes)
    → (elim r [ fault ↦ fault | ok bytes ↦ ok (of_le_bytes bytes) ])
      ≡ (r >>= λ b. ok (of_le_bytes b))
pick fault = refl
pick (ok b) = refl

-- The pointer that stands at a place is that of the element.
info_of-element :
    (a : AntArray) (j : ℕ) → a.size ≡ 8 → info_of a j ≡ (element a j >>= λ b. ok (of_le_bytes b))
unfolding info_of element
info_of-element a j size = at (ant_array_get a j)
  where
    there :
        (r : Run Bytes)
        → (elim r [
          | fault ↦ fault
          | ok m ↦ elim (taken 8 m) [ fault ↦ fault | ok bytes ↦ ok (of_le_bytes bytes) ]
        ])
          ≡ ((do m ← r; taken a.size m) >>= λ b. ok (of_le_bytes b))
    there fault = refl
    there (ok m) = rw size (pick (taken 8 m))

    at :
        (r : Run ℕ)
        → (elim r [
          | fault ↦ fault
          | ok place ↦ elim (from a.array place) [
            | fault ↦ fault
            | ok m ↦ elim (taken 8 m) [ fault ↦ fault | ok bytes ↦ ok (of_le_bytes bytes) ]
          ]
        ])
          ≡ ((do place ← r; m ← from a.array place; taken a.size m) >>= λ b. ok (of_le_bytes b))
    at fault = refl
    at (ok place) = there (from a.array place)

-- A pointer whose bytes are the element, and a place with the same element as before.
pub info_of-put :
    (a : AntArray) (j : ℕ) (p : Ptr)
    → a.size ≡ 8
    → p < 256 ^ 8
    → element a j ≡ ok (ptr_bytes p)
    → info_of a j ≡ ok p
unfolding ptr_bytes
info_of-put a j p size low at =
    info_of-element a j size
    ∙ ap (λ r. r >>= λ b. ok (of_le_bytes b)) at
    ∙ ap ok (of_le_bytes-le_bytes 8 p low)

pub info_of-kept :
    (a a' : AntArray) (j : ℕ)
    → a.size ≡ 8
    → a'.size ≡ 8
    → element a' j ≡ element a j
    → info_of a' j ≡ info_of a j
info_of-kept a a' j size size' at =
    info_of-element a' j size'
    ∙ ap (λ r. r >>= λ b. ok (of_le_bytes b)) at
    ∙ sym (info_of-element a j size)

pub store-other {ℓ} :
    {A : Type ℓ} (m : Ptr → Option A) (p q : Ptr) (v : A) → (q == p) ≡ false → store m p v q ≡ m q
unfolding store
store-other m p q v e = rw e refl

pub store-same {ℓ} : {A : Type ℓ} (m : Ptr → Option A) (p : Ptr) (v : A) → store m p v p ≡ some v
unfolding store
store-same m p v = let here : (p == p) ≡ true = ground arith in rw here refl
