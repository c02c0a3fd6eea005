-- ===== src/MiniAnt/Page/Ends.antt =====
-- mini_ant/src/ant_page.c: `parse_page` comes to an end.
use recycle_bin.Prelude.{
  ℕ, zero, suc, ◌≤◌, ◌<◌, ◌≡◌, refl, Option, none, some, List, [], ◌∷◌, arith, if-keeps, length,
  drop, length-drop, Run, ok, fault, ◌>>=◌,
}
use recycle_bin.Prelude.Chars.{Bytes}
use recycle_bin.MiniAnt.Http.{strncasecmp}
use recycle_bin.MiniAnt.Page.{
  href, filter_type_url, scan_set, scan_link, step_on, take_link, parse_turn, with_link, parse_loop,
  after_turn, parse_page,
}

-- What is left is shorter than what was there.
Shorter : ℕ → Run (Option Bytes × Bytes) → Type 0
Shorter n fault = Unit {0}
Shorter n (ok (link, p)) = length p ≤ n

step_on-Shorter :
    (link : Option Bytes) (q : Bytes) (n : ℕ) → length q ≤ suc n → Shorter n (step_on link q)
unfolding step_on Shorter
step_on-Shorter link [] n h = tt
step_on-Shorter link (c ∷ q) n h = omega arith

take_link-Shorter :
    (q : Bytes) (link : Option Bytes) (n : ℕ) → length q ≤ suc n → Shorter n (take_link q link)
unfolding take_link
take_link-Shorter q none n h = step_on-Shorter none q n h
take_link-Shorter q (some link) n h =
    if-keeps (Shorter n) (filter_type_url link) _ _
      (step_on-Shorter (some link) (drop (length link) q) n
        (omega (arith, length-drop (length link) q)))
      (step_on-Shorter none q n h)

parse_turn-Shorter : (c : ℕ) (p : Bytes) → Shorter (length p) (parse_turn c p)
unfolding parse_turn
parse_turn-Shorter c p =
    if-keeps (Shorter (length p)) (strncasecmp (c ∷ p) href) _ _
      (at_link (scan_link (drop 4 (c ∷ p)))) (unfold Shorter in omega arith)
  where
    at_link :
        (r : Run (Option Bytes)) → Shorter (length p) (do link ← r; take_link (drop 4 (c ∷ p)) link)
    at_link fault = unfold Shorter in tt
    at_link (ok link) =
        take_link-Shorter (drop 4 (c ∷ p)) link (length p) (omega (arith, length-drop 4 (c ∷ p)))

with_link-some :
    (link : Option Bytes) (o : Option (Run (List Bytes)))
    → (r : Run (List Bytes)) × (o ≡ some r)
    → (r : Run (List Bytes)) × (with_link link o ≡ some r)
unfolding with_link
with_link-some none o h = h
with_link-some (some l) none (r, e) = cc
with_link-some (some l) (some x) h = (_, refl)

-- What a turn leaves is parsed where every text that is short enough is.
turn-enough :
    (fuel n : ℕ)
    → ((p : Bytes) → length p < fuel → (r : Run (List Bytes)) × (parse_loop fuel p ≡ some r))
    → n < fuel
    → (t : Run (Option Bytes × Bytes)) → Shorter n t
    → (r : Run (List Bytes)) × (after_turn fuel t ≡ some r)
unfolding Shorter after_turn
turn-enough fuel n all h fault s = (fault, refl)
turn-enough fuel n all h (ok (link, p')) s =
    with_link-some link (parse_loop fuel p') (all p' (omega (arith, s, h)))

parse_loop-enough :
    (fuel : ℕ) (p : Bytes) → length p < fuel → (r : Run (List Bytes)) × (parse_loop fuel p ≡ some r)
unfolding parse_loop after_turn
parse_loop-enough zero p h = absurd (omega arith)
parse_loop-enough (suc fuel) [] h = (ok [], refl)
parse_loop-enough (suc fuel) (c ∷ p) h =
    turn-enough fuel (length p) (parse_loop-enough fuel) (omega arith) (parse_turn c p)
      (parse_turn-Shorter c p)

-- On every page `parse_page` comes to an end: with one turn for each byte and one for the NUL it gives links, or it is a
-- fault.
pub parse_page-ends : (mem : Bytes) → (r : Run (List Bytes)) × (parse_page mem ≡ some r)
unfolding parse_page
parse_page-ends mem = parse_loop-enough (suc (length mem)) mem (omega arith)

-- Where a page ends in `href`, `parse_page` goes behind the NUL of the page.
pub parse_loop-href_end : (fuel : ℕ) → parse_loop (suc fuel) href ≡ some fault
unfolding parse_loop after_turn parse_turn strncasecmp scan_link scan_set take_link step_on
parse_loop-href_end fuel = refl
