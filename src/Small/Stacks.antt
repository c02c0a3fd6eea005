-- ===== src/Small/Stacks.antt =====
-- programming_in_go/stack/1_2.c: a stack that grows.
use recycle_bin.Prelude.{
  ℕ, zero, suc, ◌+◌, ◌-◌, ◌*◌, ◌/◌, ◌≤◌, ◌<◌, ◌≡◌, refl, ◌⊎◌, inl, inr, Bool, true, false, Option,
  none, some, List, [], ◌++◌, arith, ltb, ◌==◌, if◌then◌else◌, Bool-cases, length, get_elem?, set,
  take, replicate, length-append, length-take, length-replicate, get_elem?-set_self, Run, ok, fault,
  ◌>>=◌, from_option, Returns,
}
use recycle_bin.Prelude.Int.{ℤ, pos, negsuc}

-- `my_stack_t`. `s` is the array, as the pointers that it has room for; `none` is `NULL`.
pub record MyStack : Type 0 where
  pub s : Option (List ℕ)
  pub use' : ℕ
  pub size : ℕ
  pub do_free : Bool

abbrev pub default_n : ℕ
default_n = 100

unfoldable pub stack_init : (got : Bool) → (do_free : Bool) → MyStack
stack_init got do_free = record {
  s = if got then some (replicate default_n 0) else none;
  use' = 0;
  size = default_n;
  do_free = do_free;
}

-- `realloc(s->s, s->size * 2)`, which asks for bytes where a pointer takes eight of them.
unfoldable pub grown : List ℕ → (bytes : ℕ) → List ℕ
grown s bytes = take (bytes / 8) s ++ replicate (bytes / 8 - length s) 0

unfoldable pub store_at : List ℕ → ℕ → ℕ → Run (List ℕ)
store_at s i v = if ltb i (length s) then ok (set s i v) else fault

-- The result and the stack; `got` is whether `realloc` gives memory. `realloc(NULL, n)` is a `malloc`.
unfoldable pub stack_push : (got : Bool) → ℕ → MyStack → Run (ℤ × MyStack)
stack_push got v st =
    if st.use' == st.size
    then (if got
        then (do
          s ← store_at (grown (elim st.s [ none ↦ [] | some s ↦ s ]) (st.size * 2)) st.use' v
          ok (pos 0, record st { s = some s; use' = st.use' + 1; size = st.size * 2 }))
        else ok (negsuc 0, st))
    else do
      s ← from_option st.s
      s ← store_at s st.use' v
      ok (pos 0, record st { s = some s; use' = st.use' + 1 })

-- `none` is `NULL`, as is zero.
unfoldable pub stack_pop : MyStack → Run (Option ℕ × MyStack)
stack_pop st = if st.use' == 0 then ok (none, st) else do
  s ← from_option st.s
  v ← from_option (get_elem? s (st.use' - 1))
  ok (some v, record st { use' = st.use' - 1 })

unfoldable pub stack_top : MyStack → Run (Option ℕ)
stack_top st =
    if st.use' == 0
    then ok none
    else do s ← from_option st.s; v ← from_option (get_elem? s (st.use' - 1)); ok (some v)

unfoldable pub stack_len : MyStack → ℕ
stack_len st = st.use'

-- The loop of `stack_free`, with so many elements left: how often `do_free` is called, each time with the stack.
unfoldable pub free_loop : (left : ℕ) → MyStack → Run ℕ
free_loop zero st = ok 0
free_loop (suc left) st = do
  (v, st) ← stack_pop st
  elim v [ none ↦ ok 0 | some p ↦ if p == 0 then ok 0 else (do n ← free_loop left st; ok (suc n)) ]

unfoldable pub stack_free : MyStack → Run ℕ
stack_free st = if st.do_free then free_loop st.use' st else ok 0

-- A stack with an array of its size, not more elements than that, and room for at least one.
abbrev pub IsStack : MyStack → List ℕ → Type 0
IsStack st s = (st.s ≡ some s) × (length s ≡ st.size) × (st.use' ≤ st.size) × (0 < st.size)

-- While a stack is not full, what is pushed is what `stack_pop` gives next, and the number of elements is as
-- before; a push onto a full stack writes behind the array that `realloc` has given.
pub stack_push-pop :
    (st : MyStack) (s : List ℕ) (v : ℕ)
    → IsStack st s
    → (st.use' < st.size
        × Returns
            (λ (rc, st').
              Returns (λ (top, st2). (top ≡ some v) × (st2.use' ≡ st.use')) (stack_pop st'))
            (stack_push true v st))
      ⊎ ((st.use' ≡ st.size) × (stack_push true v st ≡ fault))
unfolding stack_push stack_pop grown store_at
stack_push-pop st s v (at, n, fits, some_room) = elim (Bool-cases (st.use' == st.size)) [
  | inl e ↦
      let full : st.use' ≡ st.size = ground (arith, e) in
      let less : length (take (st.size * 2 / 8) s ++ replicate (st.size * 2 / 8 - length s) 0)
          ≤ st.size =
        omega (
          arith,
          length-append (take (st.size * 2 / 8) s)
              (replicate {A = ℕ} (st.size * 2 / 8 - length s) 0),
          length-take (st.size * 2 / 8) s,
          length-replicate {A = ℕ} (st.size * 2 / 8 - length s) 0,
          n,
        ) in
      let outside : ltb st.use'
            (length (take (st.size * 2 / 8) s ++ replicate (st.size * 2 / 8 - length s) 0))
          ≡ false =
        ground (arith, less, full) in
      inr (full, rw (e, at, outside) refl)
  | inr e ↦
      let room : st.use' < st.size = ground (arith, e, fits) in
      let inside : ltb st.use' (length s) ≡ true = ground (arith, room, n) in
      let filled : (st.use' + 1 == 0) ≡ false = ground arith in
      let back : st.use' + 1 - 1 ≡ st.use' = omega arith in
      inl (
        room,
        (
          (pos 0, record st { s = some (set s st.use' v); use' = st.use' + 1 }),
          rw (e, at, inside) refl,
          (
            (some v, record st { s = some (set s st.use' v); use' = st.use' }),
            rw (filled, back, get_elem?-set_self s st.use' v (omega (arith, room, n))) refl,
            (refl, refl),
          ),
        ),
      )
]
