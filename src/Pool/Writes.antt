-- ===== src/Pool/Writes.antt =====
-- processpool/src/processpool.c: what `writen_timedwait` sends.
use recycle_bin.Prelude.{
  ℕ, zero, suc, ◌+◌, ◌-◌, ◌^◌, ◌≤◌, ◌<◌, ◌≡◌, refl, sym, ap, ◌∙◌, ◌⊎◌, inl, inr, Option, none, some,
  [], ◌∷◌, ◌++◌, append_assoc, append-nil, arith, length, take, drop, length-drop, take-length,
}
use recycle_bin.Prelude.Chars.{Bytes}
use recycle_bin.Prelude.Int.{ℤ, pos, negsuc, pos_part}
use recycle_bin.Pool.{
  Errno, eintr, eagain, etimedout, other, Answer, done, failed, Io, Moved, wait_time,
}
use mathlib.Core.Path.{subst}
use recycle_bin.Pool.Channel.{int_of, write_wait, writen_loop, writen_timedwait}

pub int_of-small : (n : ℕ) → n < 2 ^ 31 → int_of n ≡ pos n
unfolding int_of
int_of-small n h = ground arith

Answer-cases :
    {A : Type 0} (a : Answer A) → ((e : Errno) × (a ≡ failed e)) ⊎ ((x : A) × (a ≡ done x))
Answer-cases (failed e) = inl (e, refl)
Answer-cases (done x) = inr (x, refl)

-- The result of a run that does not run out of fuel.
pub IfSome : {A : Type 0} → (A → Type 0) → Option A → Type 0
IfSome P none = Unit
IfSome P (some a) = P a

IfSome-map :
    {A : Type 0} {P Q : A → Type 0} (o : Option A) → ((a : A) → P a → Q a) → IfSome P o → IfSome Q o
unfolding IfSome
IfSome-map none f h = tt
IfSome-map (some a) f h = f a h

-- What a stream socket does: `write` takes the front of the bytes or nothing, and `select` takes nothing.
unfoldable pub IsStream : {S : Type 0} → Io S → (S → Bytes) → Type 0
IsStream {S} io sent =
    ((fd : ℕ) (bs : Bytes) (s : S) (n : ℕ)
      → (io.sys_write fd bs s).0 ≡ done n
      → (n ≤ length bs) × (sent (io.sys_write fd bs s).1 ≡ sent s ++ take n bs))
    × ((fd : ℕ) (bs : Bytes) (s : S) (e : Errno)
        → (io.sys_write fd bs s).0 ≡ failed e
        → sent (io.sys_write fd bs s).1 ≡ sent s)
    × ((fd : ℕ) (t : Option ℤ) (s : S) → sent (io.select_write fd t s).1 ≡ sent s)

-- A front of the bytes has been sent, and the result counts it or is -1.
pub SentFront : {S : Type 0} → (S → Bytes) → Bytes → Bytes → (before : ℕ) → Moved S → Type 0
SentFront sent old bp before w =
    (k : ℕ) × (k ≤ length bp)
    × (sent w.sys ≡ old ++ take k bp)
    × ((w.rv ≡ negsuc 0) ⊎ (w.rv ≡ pos (before + k)))

take-split : (n k : ℕ) (bs : Bytes) → take n bs ++ take k (drop n bs) ≡ take (n + k) bs
take-split zero k bs = left_nil (take k bs) ∙ ap (λ n. take n bs) (omega arith)
  where
    left_nil : (xs : Bytes) → [] ++ xs ≡ xs
    left_nil [] = refl
    left_nil (x ∷ xs) = refl
take-split (suc n) k [] = none_left k ∙ ap (λ m. take {A = ℕ} m []) (shift n)
  where
    shift : (n : ℕ) → suc (n + k) ≡ suc n + k
    shift n = omega arith

    none_left : (k : ℕ) → ◌++◌ {A = ℕ} [] (take k []) ≡ take (suc (n + k)) []
    none_left zero = refl
    none_left (suc k) = refl
take-split (suc n) k (b ∷ bs) =
    cons_left (take n bs) (take k (drop n bs))
    ∙ ap (λ xs. b ∷ xs) (take-split n k bs)
    ∙ ap (λ m. take m (b ∷ bs)) (one_more n)
  where
    cons_left : (xs ys : Bytes) → (b ∷ xs) ++ ys ≡ b ∷ (xs ++ ys)
    cons_left xs ys = refl

    one_more : (n : ℕ) → suc (n + k) ≡ suc n + k
    one_more n = omega arith

module _ {S : Type 0} (sent : S → Bytes) where
  nothing_sent :
      (old bp : Bytes) (before : ℕ) (s : S) (e : Errno)
      → sent s ≡ old
      → SentFront sent old bp before (record { rv = negsuc 0; errno = e; sys = s })
  unfolding SentFront
  nothing_sent old bp before s e h = (0, omega arith, h ∙ sym (append-nil old), inl refl)

  counted :
      (old bp : Bytes) (before n : ℕ) (s : S) (e : Errno)
      → sent s ≡ old
      → n ≡ before
      → SentFront sent old bp before (record { rv = pos n; errno = e; sys = s })
  unfolding SentFront
  counted old bp before n s e h len =
      (0, omega arith, h ∙ sym (append-nil old), inr (ap pos (omega arith)))

  more_sent :
      (old bp : Bytes) (before m : ℕ) (s : S) (w : Moved S)
      → m ≤ length bp
      → sent s ≡ old ++ take m bp
      → SentFront sent (sent s) (drop m bp) (before + m) w
      → SentFront sent old bp before w
  unfolding SentFront
  more_sent old bp before m s w le h (k, k_le, all, result) = (
    m + k,
    omega (arith, length-drop m bp),
    all
        ∙ ap (λ x. x ++ take k (drop m bp)) h
        ∙ append_assoc old (take m bp) (take k (drop m bp))
        ∙ ap (λ x. old ++ x) (take-split m k bp),
    elim result [ inl e ↦ inl e | inr e ↦ inr (e ∙ ap pos (omega arith)) ],
  )

module _ {S : Type 0} (io : Io S) (sent : S → Bytes) (stream : IsStream io sent) where
  loop-SentFront :
      (fuel fd : ℕ) (bp : Bytes) (cnt before len : ℕ) (msec : ℤ) (errno : Errno) (s : S)
      → cnt ≡ length bp
      → len ≡ before + cnt
      → len < 2 ^ 31
      → IfSome (SentFront sent (sent s) bp before) (writen_loop io fuel fd bp cnt len msec errno s)
  unfolding IfSome IsStream writen_loop write_wait
  loop-SentFront zero fd bp cnt before len msec errno s c l lt = tt
  loop-SentFront (suc fuel) fd bp zero before len msec errno s c l lt =
      rw (int_of-small len lt) (counted sent (sent s) bp before len s errno refl (omega arith))
  loop-SentFront (suc fuel) fd bp (suc left) before len msec errno s c l lt =
      let s1 = (io.sys_write fd (take (suc left) bp) s).1 in
      let s2 = (io.select_write fd (wait_time msec) s1).1 in
      let kept = stream.1 fd (take (suc left) bp) s in
      let again : (s' : S) (e : Errno)
          → sent s' ≡ sent s
          → IfSome (SentFront sent (sent s) bp before)
              (writen_loop io fuel fd bp (suc left) len msec e s') =
        λ s' e h.
          subst
            (λ x.
              IfSome (SentFront sent x bp before)
                (writen_loop io fuel fd bp (suc left) len msec e s'))
            h (loop-SentFront fuel fd bp (suc left) before len msec e s' c l lt) in
      elim (Answer-cases (io.sys_write fd (take (suc left) bp) s).0) [
        | inl (eintr, run) ↦ rw (IfSome, run) (again s1 eintr (kept eintr run))
        | inl (eagain, run) ↦
            let waited = stream.2 fd (wait_time msec) s1 ∙ kept eagain run in
            rw (IfSome, run)
              (elim (Answer-cases (io.select_write fd (wait_time msec) s1).0) [
                | inl (e, run') ↦
                    rw (IfSome, run') (nothing_sent sent (sent s) bp before s2 e waited)
                | inr (zero, run') ↦
                    rw (IfSome, run') (nothing_sent sent (sent s) bp before s2 etimedout waited)
                | inr (suc n, run') ↦ rw (IfSome, run') (again s2 eagain waited)
              ])
        | inl (etimedout, run) ↦
            rw (IfSome, run)
              (nothing_sent sent (sent s) bp before s1 etimedout (kept etimedout run))
        | inl (other, run) ↦
            rw (IfSome, run) (nothing_sent sent (sent s) bp before s1 other (kept other run))
        | inr (zero, run) ↦
            rw (IfSome, run, int_of-small (len - suc left) (omega (arith, lt)))
              (counted sent (sent s) bp before (len - suc left) s1 errno
                ((stream.0 fd (take (suc left) bp) s 0 run).1 ∙ append-nil (sent s)) (omega arith))
        | inr (suc n, run) ↦
            let (fits, front) = stream.0 fd (take (suc left) bp) s (suc n) run in
            let all : take (suc left) bp ≡ bp = ap (λ m. take m bp) c ∙ take-length bp in
            let le : suc n ≤ length bp = omega (arith, fits, ap length all) in
            rw (IfSome, run)
              (IfSome-map _
                (λ w.
                  more_sent sent (sent s) bp before (suc n) s1 w le
                    (front ∙ ap (λ x. sent s ++ take (suc n) x) all))
                (loop-SentFront fuel fd (drop (suc n) bp) (suc left - suc n) (before + suc n) len
                  msec errno s1 (omega (arith, length-drop (suc n) bp)) (omega arith) lt))
      ]

-- On a stream socket, whatever `write` and `select` answer, `writen_timedwait` of a buffer of less than 2 ^ 31 bytes either sends a
-- front of it and returns the length of that front, or returns -1 and has sent a front of it, if it ends.
pub writen_timedwait-SentFront :
    {S : Type 0} (io : Io S) (sent : S → Bytes)
    → IsStream io sent
    → (fuel fd : ℕ) (buf : Bytes) (msec : ℤ) (errno : Errno) (s : S) → length buf < 2 ^ 31
    → IfSome
        (SentFront sent (sent s) buf 0)
        (writen_timedwait io fuel fd buf (length buf) msec errno s)
unfolding writen_timedwait
writen_timedwait-SentFront io sent stream fuel fd buf msec errno s lt =
    rw (int_of-small (length buf) lt) (
      loop-SentFront io sent stream fuel fd buf (length buf) 0 (length buf) msec errno s refl
        (omega arith) lt)

-- Every `write` of some bytes takes at least one.
unfoldable pub Progresses : {S : Type 0} → Io S → Type 0
Progresses {S} io =
    (fd : ℕ) (b : ℕ) (bs : Bytes) (s : S)
    → (n : ℕ) × ((io.sys_write fd (b ∷ bs) s).0 ≡ done (suc n))

module _ {S : Type 0} (io : Io S) (progress : Progresses io) where
  loop-ends :
      (fuel fd : ℕ) (bp : Bytes) (cnt len : ℕ) (msec : ℤ) (errno : Errno) (s : S)
      → cnt ≡ length bp
      → cnt < fuel
      → len < 2 ^ 31
      → (w : Moved S) × (writen_loop io fuel fd bp cnt len msec errno s ≡ some w) × (w.rv ≡ pos len)
  unfolding Progresses writen_loop
  loop-ends zero fd bp cnt len msec errno s c f lt = absurd (omega arith)
  loop-ends (suc fuel) fd bp zero len msec errno s c f lt =
      (record { rv = int_of len; errno = errno; sys = s }, refl, int_of-small len lt)
  loop-ends (suc fuel) fd [] (suc left) len msec errno s c f lt = absurd (omega arith)
  loop-ends (suc fuel) fd (b ∷ bs) (suc left) len msec errno s c f lt =
      let (n, run) = progress fd b (take left bs) s in
      let (w, ends, all) =
        loop-ends fuel fd (drop n bs) (suc left - suc n) len msec errno
          (io.sys_write fd (b ∷ take left bs) s).1 (omega (arith, length-drop n bs)) (omega arith)
          lt in
      (w, rw (writen_loop, run) ends, all)

pos-injective : (a b : ℕ) → pos a ≡ pos b → a ≡ b
pos-injective a b e = ap pos_part e

-- On a stream socket that always takes something, `writen_timedwait` sends the whole of a buffer of less than 2 ^ 31 bytes
-- and returns its length, for a fuel above that length.
pub writen_timedwait_complete :
    {S : Type 0} (io : Io S) (sent : S → Bytes)
    → IsStream io sent
    → Progresses io
    → (fuel fd : ℕ) (buf : Bytes) (msec : ℤ) (errno : Errno) (s : S) → length buf < fuel
    → length buf < 2 ^ 31
    → (w : Moved S) × (writen_timedwait io fuel fd buf (length buf) msec errno s ≡ some w)
      × (w.rv ≡ pos (length buf))
      × (sent w.sys ≡ sent s ++ buf)
unfolding writen_timedwait IfSome SentFront
writen_timedwait_complete io sent stream progress fuel fd buf msec errno s f lt =
    let (w, ends, all) =
      loop-ends io progress fuel fd buf (length buf) (length buf) msec errno s refl f lt in
    let front = writen_timedwait-SentFront io sent stream fuel fd buf msec errno s lt in
    let ends' : writen_timedwait io fuel fd buf (length buf) msec errno s ≡ some w =
      rw (int_of-small (length buf) lt) ends in
    let (k, le, bytes, result) = subst (IfSome (SentFront sent (sent s) buf 0)) ends' front in
    let whole : k ≡ length buf = elim result [
      | inl e ↦ cc (e, all)
      | inr e ↦ omega (arith, pos-injective _ _ (sym e ∙ all))
    ] in
    (
      w,
      ends',
      all,
      bytes ∙ ap (λ m. sent s ++ take m buf) whole ∙ ap (λ x. sent s ++ x) (take-length buf),
    )
