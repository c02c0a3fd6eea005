-- ===== src/Server/Lines.antt =====
-- http_server/src/tor_http.c: the lines of a request.
use recycle_bin.Prelude.{
  ℕ, zero, suc, ◌+◌, ◌-◌, ◌%◌, ◌^◌, ◌≤◌, ◌<◌, ◌≡◌, refl, ap, ◌⊎◌, inl, inr, Bool, true, false, not,
  ◌&&◌, Option, none, some, [], ◌∷◌, ◌++◌, arith, ◌==◌, if◌then◌else◌, Bool-cases, length,
  replicate, length-append, All, Run, ok, fault,
}
use recycle_bin.Prelude.Chars.{Bytes}
use recycle_bin.Prelude.Int.{ℤ, pos, negsuc, eq_ℤ, ltb_ℤ}
use recycle_bin.MiniAnt.Http.{strncasecmp}
use recycle_bin.MiniAnt.Http.Head.{find_end, starts}
use recycle_bin.MiniAnt.Page.{scan_set}
use recycle_bin.Server.{HttpContext, get_word, scan_target, scan_path, request_line, process_line}
use recycle_bin.Server.Head.{cut_line, next_line, head_loop, buffer_of, http_read_head}

-- A line is a fault, or what is left behind it has as many characters fewer as the line has.
abbrev Cut : Bytes → Run (Bytes × Bytes) → Type 0
Cut m r =
    (r ≡ fault) ⊎ ((l : Bytes) × (p : Bytes) × (r ≡ ok (l, p)) × (length p + length l ≤ length m))

cut_line-cases : (m : Bytes) → Cut m (cut_line m)
unfolding cut_line
cut_line-cases [] = inl refl
cut_line-cases (c ∷ m) = elim (Bool-cases (c == 0)) [
  | inl e ↦ inr ([], c ∷ m, rw e refl, omega arith)
  | inr e ↦ elim (Bool-cases (starts (13 ∷ 10 ∷ []) (c ∷ m))) [
    | inl f ↦ inr ([], m, rw (e, f) refl, omega arith)
    | inr f ↦ elim (Bool-cases (c == 10)) [
      | inl g ↦ inr ([], m, rw (e, f, g) refl, omega arith)
      | inr g ↦ elim (cut_line-cases m) [
        | inl h ↦ inl (rw (e, f, g, h) refl)
        | inr (l, p, h, le) ↦ inr (c ∷ l, p, rw (e, f, g, h) refl, omega (arith, le))
      ]
    ]
  ]
]

next_line-cases : (m : Bytes) → Cut m (next_line m)
unfolding next_line
next_line-cases [] = inl refl
next_line-cases (c ∷ m) = elim (Bool-cases (c == 10)) [
  | inl e ↦ elim (cut_line-cases m) [
    | inl h ↦ inl (rw e h)
    | inr (l, p, h, le) ↦ inr (l, p, rw e h, omega (arith, le))
  ]
  | inr e ↦ rw e (cut_line-cases (c ∷ m))
]

module _ (is_dir : Bytes → Bool) where
  -- What the loop does with a line.
  loop_end :
      (fuel count : ℕ) (l p : Bytes) (http : HttpContext) (r : Run (ℤ × HttpContext))
      → ((c : ℕ) (http' : HttpContext)
          → (q : Run (ℤ × HttpContext)) × (head_loop is_dir fuel c p http' ≡ some q))
      → (q : Run (ℤ × HttpContext)) × (elim r [
        | fault ↦ some fault
        | ok (err, http') ↦
            let rest = head_loop is_dir fuel (count + 1) p http' in
            if ltb_ℤ err (pos 0)
            then some (ok (err, http'))
            else if eq_ℤ err (pos 0)
            then some (ok (pos 0, http'))
            else rest
      ]
          ≡ some q)
  loop_end fuel count l p http fault next = (fault, refl)
  loop_end fuel count l p http (ok (err, http')) next = elim (Bool-cases (ltb_ℤ err (pos 0))) [
    | inl e ↦ (ok (err, http'), rw e refl)
    | inr e ↦ elim (Bool-cases (eq_ℤ err (pos 0))) [
      | inl f ↦ (ok (pos 0, http'), rw (e, f) refl)
      | inr f ↦ let (q, run) = next (count + 1) http' in (q, rw (e, f) run)
    ]
  ]

  -- On every text the loop over the lines comes to an end, with one turn for each byte and one more: it returns, or it
  -- is a fault.
  pub head_loop-ends :
      (fuel count : ℕ) (m : Bytes) (http : HttpContext)
      → length m < fuel
      → (r : Run (ℤ × HttpContext)) × (head_loop is_dir fuel count m http ≡ some r)
  unfolding head_loop process_line
  head_loop-ends zero count m http h = absurd (omega arith)
  head_loop-ends (suc fuel) count m http h = elim (next_line-cases m) [
    | inl e ↦ (fault, rw (head_loop, e) refl)
    | inr ([], p, e, le) ↦ (ok (pos 0, http), rw (head_loop, e) refl)
    | inr (c ∷ l, p, e, le) ↦
        let (q, run) =
          loop_end fuel count (c ∷ l) p http (process_line is_dir (c ∷ l) count http)
            (λ k http'. head_loop-ends fuel k p http' (omega (arith, le, h))) in
        (q, rw (head_loop, e) run)
  ]

  -- Once a read has found no end of the header, the place where the next one is read to is behind a NUL: whatever has come
  -- since, `http_read_head` returns -1 if it returns.
  pub http_read_head-stuck {ℓ} :
      {S : Type ℓ} (read : ℕ → ℕ → Bool → S → Option Bytes × S) (http : HttpContext) (got : Bytes)
      (s : S)
      → 0 < http.rblen
      → (read http.fd (8192 - http.rblen) true s).0 ≡ some got
      → http_read_head read is_dir http s
        ≡ some (
            ok (
              negsuc 0,
              record http { rblen = (http.rblen + length got) % 2 ^ 14 },
              (read http.fd (8192 - http.rblen) true s).1,
            ))
  unfolding http_read_head find_end buffer_of
  http_read_head-stuck read http got s h e = rw (http_read_head, e, begins http.rblen h) refl
    where
      begins :
          (n : ℕ)
          → 0 < n
          → find_end (replicate n 0 ++ (got ++ replicate (8192 - n - length got) 0)) ≡ ok none
      begins zero h = absurd (omega arith)
      begins (suc n) h = refl

-- The text goes on with a character outside the set, or ends.
abbrev pub Stops : (ℕ → Bool) → Bytes → Type 0
Stops p [] = Unit
Stops p (c ∷ s) = p c ≡ false

scan_set-All :
    (p : ℕ → Bool) (xs rest : Bytes) (n : ℕ)
    → All (λ c. p c ≡ true) xs
    → length xs ≤ n
    → Stops p rest
    → scan_set p n (xs ++ rest) ≡ (xs, rest)
unfolding scan_set
scan_set-All p [] rest zero h le st = refl
scan_set-All p [] [] (suc n) h le st = refl
scan_set-All p [] (c ∷ rest) (suc n) h le st = rw st refl
scan_set-All p (x ∷ xs) rest zero h le st = absurd (omega arith)
scan_set-All p (x ∷ xs) rest (suc n) (e, h) le st =
    rw (e, scan_set-All p xs rest n h (omega arith) st) refl

spaces : (k : ℕ) → All (λ c. (c == 32) ≡ true) (replicate k 32)
spaces zero = tt
spaces (suc k) = (refl, spaces k)

marks : (xs : Bytes) → All (λ x. (x == 32) ≡ false) xs → All (λ x. not (x == 32) ≡ true) xs
marks [] h = tt
marks (x ∷ xs) (e, h) = (ap not e, marks xs h)

outcome :
    (b : Bool) (t : Bytes) → (if true && not b then some t else none) ≡ (if b then none else some t)
outcome true t = refl
outcome false t = refl

outcome_line :
    (b : Bool) (t : Bytes) (http : HttpContext)
    → (elim (if◌then◌else◌ {A = Option Bytes} b none (some t)) as (λ x. Run (ℤ × HttpContext)) [
      | none ↦ ok (negsuc 0, http)
      | some path ↦ ok (pos 1, record http { path = path })
    ])
      ≡ (if b then ok (negsuc 0, http) else ok (pos 1, record http { path = t }))
outcome_line true t http = refl
outcome_line false t http = refl

-- A request line: GET in any case, one or more spaces, and a path without a space of at most 3800 characters behind its
-- slash, up to a space or the end. The path is taken; for the slash alone the line is refused.
pub request_line-get :
    (http : HttpContext) (a b c k : ℕ) (target rest : Bytes)
    → strncasecmp (a ∷ b ∷ c ∷ []) get_word ≡ true
    → All (λ x. (x == 32) ≡ false) target
    → length target ≤ 3800
    → Stops (λ x. not (x == 32)) rest
    → request_line (a ∷ b ∷ c ∷ (replicate (suc k) 32 ++ (47 ∷ (target ++ rest)))) http ≡ (
        if length target == 0
        then ok (negsuc 0, http)
        else ok (pos 1, record http { path = target }))
unfolding request_line scan_path scan_target strncasecmp
request_line-get http a b c k target rest method plain few stops =
    let behind : Bytes = 47 ∷ (target ++ rest) in
    let blanks : Bytes = replicate (suc k) 32 in
    let fits : length blanks ≤ length (blanks ++ behind) =
      omega (arith, length-append blanks behind) in
    let skip =
      scan_set-All (λ x. x == 32) blanks behind (length (blanks ++ behind)) (spaces (suc k)) fits
        refl in
    let some_blank : (length blanks == 0) ≡ false = ground arith in
    let found = scan_set-All (λ x. not (x == 32)) target rest 3800 (marks target plain) few stops in
    let path : scan_path (blanks ++ behind) ≡ (if length target == 0 then none else some target) =
      rw (scan_path, skip, some_blank)
        (rw (scan_target, found) (outcome (length target == 0) target)) in
    rw (request_line, method, path) (outcome_line (length target == 0) target http)
