-- ===== src/MiniAnt/Array/Growth.antt =====
-- mini_ant/src/ant_array.c: `ant_array_put` where the array grows.
use recycle_bin.Prelude.{
  ℕ, ◌+◌, ◌-◌, ◌*◌, ◌/◌, ◌≤◌, ◌<◌, ◌≡◌, refl, sym, ap, ◌∙◌, Bool, true, false, ◌++◌, arith, ltb,
  leb, ◌==◌, Option, some, length, take, drop, length-append, length-drop, take-length, Run, ok,
  fault, ◌>>=◌,
}
use native.Mathlib.Nat.{mul_comm, mul-le-mul_right, mul-add-div_right, div-eq_of_lt}
use recycle_bin.Prelude.Chars.{Bytes}
use recycle_bin.MiniAnt.Array.{
  AntArray, ceil_div, iszero, from, taken, put_at, ant_array_grow, ant_array_put,
}
use recycle_bin.MiniAnt.Array.Elements.{IsArray}

le_times : (n k : ℕ) → n ≤ (k + 2) * n
le_times n k = grind arith

ceil_multiple : (k n : ℕ) → 0 < n → (k * n + n - 1) / n ≡ k
ceil_multiple k n h =
    ap (λ m. m / n) (shift (k * n) n h)
    ∙ mul-add-div_right h k (n - 1)
    ∙ ap (λ m. k + m) (div-eq_of_lt (omega arith))
    ∙ add-zero k
  where
    shift : (a b : ℕ) → 0 < b → a + b - 1 ≡ a + (b - 1)
    shift a b h = omega arith

    add-zero : (a : ℕ) → a + 0 ≡ a
    add-zero a = omega arith

-- An array that grows for a place that is twice its length or another multiple has no room for it: the element is put behind
-- its end.
pub ant_array_put-multiple :
    (calloc : (nmemb size : ℕ) → Option Bytes) (a : AntArray) (k : ℕ) (elem : Bytes) (new : Bytes)
    → IsArray a
    → 0 < a.length
    → 0 < a.size
    → length elem ≡ a.size
    → calloc (a.length * (k + 2)) a.size ≡ some new
    → length new ≡ a.length * (k + 2) * a.size
    → ant_array_put calloc a ((k + 2) * a.length) elem ≡ fault
unfolding ant_array_put ant_array_grow ceil_div from taken put_at
ant_array_put-multiple calloc a k elem new is some_length some_size sized got full =
    let place = (k + 2) * a.length * a.size in
    let old = a.length * a.size in
    let grows : ltb ((k + 2) * a.length) a.length ≡ false = grind (arith, some_length) in
    let nonzero : (a.length == 0) ≡ false = ground arith in
    let many : (k + 2 == 1) ≡ false = ground arith in
    let whole : leb old (length a.array) ≡ true = ground (arith, is.full) in
    let same : take old a.array ≡ a.array =
      ap (λ n. take n a.array) (sym is.full) ∙ take-length a.array in
    let size_is : length new ≡ place = full ∙ ap (λ n. n * a.size) (mul_comm a.length (k + 2)) in
    let more : old ≤ place = mul-le-mul_right a.size (le_times a.length k) in
    let room : leb (0 + length a.array) (length new) ≡ true =
      ground (arith, more, size_is, is.full) in
    let grown : Bytes = a.array ++ drop (0 + length a.array) new in
    let end : length grown ≡ place = omega (
      arith,
      length-append a.array (drop (0 + length a.array) new),
      length-drop (0 + length a.array) new,
      size_is,
      more,
      is.full,
    ) in
    let at_end : leb place (length grown) ≡ true = ground (arith, end) in
    let bytes : leb a.size (length elem) ≡ true = ground (arith, sized) in
    let all : take a.size elem ≡ elem = ap (λ n. take n elem) (sym sized) ∙ take-length elem in
    let outside : leb (place + length elem) (length grown) ≡ false =
      ground (arith, end, sized, some_size) in
    rw
      (
        grows,
        nonzero,
        ceil_multiple (k + 2) a.length some_length,
        many,
        got,
        whole,
        same,
        room,
        at_end,
        bytes,
        all,
        outside,
      )
      (ignored (iszero (drop place grown) a.size) _ (λ b. refl))
  where
    ignored :
        (r : Run Bool) (f : Bool → Run (Bool × AntArray))
        → ((b : Bool) → f b ≡ fault)
        → (r >>= f) ≡ fault
    ignored (ok b) f h = h b
    ignored fault f h = refl
