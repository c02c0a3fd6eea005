-- ===== src/MiniAnt/Crawl/Held.antt =====
-- What the crawler's state stands for: the downloads that are ready, and for every domain those that wait for
-- its address.
use recycle_bin.Prelude.{
  ℕ, ◌≡◌, sym, ap, ◌∙◌, inl, inr, Bool, true, false, Option, some, [], ◌∷◌, ◌++◌, arith,
  if◌then◌else◌, Bool-cases, length, ok,
}
use recycle_bin.Prelude.Chars.{Bytes}
use mathlib.Core.Path.{subst}
use recycle_bin.MiniAnt.Queue.{Heap, QueueHead}
use recycle_bin.MiniAnt.Queue.Chain.{Slots, occupies, Disjoint, Chain-frame, occupies-append}
use recycle_bin.MiniAnt.Queue.Refines.{IsQueue, SameOutside}
use recycle_bin.MiniAnt.Hash.{AntHash, key_eq}
use recycle_bin.MiniAnt.Hash.Refines.{IsTable, view, get-view, Wrote}
use recycle_bin.MiniAnt.Crawl.{Down, Ptr, CacheVal, Total}

-- A domain whose address is known has no queue and no downloads wait for it; one whose address is not known
-- has a queue of those that wait. There is room for four addresses.
pub data IsHeld (h : Heap) (val : CacheVal) (ys : Slots) : Type 0 where
  known : length val.ip ≡ 4 → val.flags ≡ 1 → ys ≡ [] → IsHeld h val ys
  waits :
      length val.ip ≡ 4
      → val.flags ≡ 0
      → (q : QueueHead) → val.down ≡ some q
      → IsQueue h q ys
      → IsHeld h val ys

-- The two strings are the same domain.
abbrev pub alike : Total → Bytes → Bytes → Bool
alike w = key_eq w.cache_dns.ksize w.cache_dns.cmp

-- `xs` are ready, `names` wait to be asked for, and `waiting` gives what waits for a domain.
pub record IsTotal (w : Total) (xs names : Slots) (waiting : Bytes → Slots) : Type 0 where
  pub table : IsTable w.cache_dns
  pub ready : IsQueue w.heap w.down xs
  pub asked : IsQueue w.heap w.queue_dns names
  pub held : (d : Bytes) (val : CacheVal) → view table d ≡ some val → IsHeld w.heap val (waiting d)
  pub ready_asked : Disjoint xs names
  pub ready_waits : (d : Bytes) → Disjoint xs (waiting d)
  pub asked_waits : (d : Bytes) → Disjoint names (waiting d)
  pub waits_waits : (d e : Bytes) → alike w d e ≡ false → Disjoint (waiting d) (waiting e)

-- What waits, with other downloads for one domain.
abbrev pub with_waiting : Total → Bytes → Slots → (Bytes → Slots) → Bytes → Slots
with_waiting w d ys waiting e = if alike w d e then ys else waiting e

-- A queue stays as it is where a step writes only at other cells.
pub IsQueue-frame :
    (h g : Heap) (q : QueueHead) (xs ys : Slots)
    → Disjoint xs ys
    → SameOutside xs h g
    → IsQueue h q ys
    → IsQueue g q ys
IsQueue-frame h g q xs ys apart same is = record {
  head = is.head;
  chain = Chain-frame h g ys 0 (λ a i. same a (outside a i)) is.chain;
  size = is.size;
  tail = is.tail;
}
  where
    outside : (a : ℕ) → occupies a ys ≡ true → occupies a xs ≡ false
    outside a i = elim (Bool-cases (occupies a xs)) [
      | inl e ↦ absurd (ground (arith, apart a e))
      | inr e ↦ e
    ]

pub IsHeld-frame :
    (h g : Heap) (val : CacheVal) (xs ys : Slots)
    → Disjoint xs ys
    → SameOutside xs h g
    → IsHeld h val ys
    → IsHeld g val ys
IsHeld-frame h g val xs ys apart same (known n e none_left) = known n e none_left
IsHeld-frame h g val xs ys apart same (waits n e q at is) =
    waits n e q at (IsQueue-frame h g q xs ys apart same is)

pub Disjoint-sym : (xs ys : Slots) → Disjoint xs ys → Disjoint ys xs
Disjoint-sym xs ys apart a i = elim (Bool-cases (occupies a xs)) [
  | inl e ↦ absurd (ground (arith, apart a e))
  | inr e ↦ e
]

pub Disjoint-append : (xs ys zs : Slots) → Disjoint xs zs → Disjoint ys zs → Disjoint (xs ++ ys) zs
Disjoint-append xs ys zs p q a i = elim (Bool-cases (occupies a xs)) [
  | inl e ↦ p a e
  | inr e ↦ q a (ground (arith, occupies-append a xs ys))
]

pub Disjoint-one : (p v : ℕ) (ys : Slots) → occupies p ys ≡ false → Disjoint ((p, v) ∷ []) ys
Disjoint-one p v ys out a i =
    let same : a ≡ p = ground (arith, i) in subst (λ b. occupies b ys ≡ false) (sym same) out

module _ (w : Total) (xs names : Slots) (waiting : Bytes → Slots)
    (is : IsTotal w xs names waiting) where
  Disjoint-with_waiting :
      (d : Bytes) (zs ys : Slots) (e : Bytes)
      → Disjoint zs ys
      → (alike w d e ≡ false → Disjoint zs (waiting e))
      → Disjoint zs (with_waiting w d ys waiting e)
  Disjoint-with_waiting d zs ys e near far a i = elim (Bool-cases (alike w d e)) [
    | inl s ↦ rw s (near a i)
    | inr s ↦ rw s (far s a i)
  ]

  -- A step that writes the cells of the downloads that are ready afterwards.
  pub IsTotal-ready :
      (xs' : Slots) (down' : QueueHead) (h : Heap) (downs : Ptr → Option Down)
      → SameOutside xs' w.heap h
      → IsQueue h down' xs'
      → Disjoint xs' names
      → ((e : Bytes) → Disjoint xs' (waiting e))
      → IsTotal (record w { down = down'; heap = h; downs = downs }) xs' names waiting
  IsTotal-ready xs' down' h downs same ready' apart far = record {
    table = is.table;
    ready = ready';
    asked = IsQueue-frame w.heap h w.queue_dns xs' names apart same is.asked;
    held = λ e val at. IsHeld-frame w.heap h val xs' (waiting e) (far e) same (is.held e val at);
    ready_asked = apart;
    ready_waits = far;
    asked_waits = is.asked_waits;
    waits_waits = is.waits_waits;
  }

  -- A step that writes the cells `zs` and another value for the domain `d`, for which `ys` wait afterwards.
  pub record IsStep (d : Bytes) (new : CacheVal) (ys zs xs' names' : Slots)
      (down' asked' : QueueHead) (h : Heap) : Type 0 where
    pub written : SameOutside zs w.heap h
    pub now_ready : IsQueue h down' xs'
    pub now_asked : IsQueue h asked' names'
    pub new_held : IsHeld h new ys
    pub now_apart : Disjoint xs' names'
    pub ready_new : Disjoint xs' ys
    pub asked_new : Disjoint names' ys
    pub others :
        (e : Bytes)
        → alike w d e ≡ false
        → Disjoint zs (waiting e)
          × Disjoint xs' (waiting e)
          × Disjoint names' (waiting e)
          × Disjoint ys (waiting e)

  module _ (d : Bytes) (new : CacheVal) (ys zs xs' names' : Slots) (down' asked' : QueueHead)
      (h : Heap) (step : IsStep d new ys zs xs' names' down' asked' h) (old : Option CacheVal)
      (dns : AntHash CacheVal) (wrote : Wrote is.table d (some new) (old, dns)) where
    view-after : (e : Bytes) → view wrote.1 e ≡ (if alike w d e then some new else view is.table e)
    view-after e =
        let same : ok (view wrote.1 e) ≡ ok (if alike w d e then some new else view is.table e) =
          sym (get-view wrote.1 e) ∙ wrote.2 e in
        cc

    IsHeld-after :
        (e : Bytes) (v : CacheVal)
        → view wrote.1 e ≡ some v
        → IsHeld h v (with_waiting w d ys waiting e)
    IsHeld-after e v at = elim (Bool-cases (alike w d e)) [
      | inl s ↦
          let same : some new ≡ some v = rw s at (sym (view-after e)) ∙ at in
          let new_is : new ≡ v = cc in rw s (subst (λ u. IsHeld h u ys) new_is step.new_held)
      | inr s ↦
          let was : view is.table e ≡ some v = rw s at (sym (view-after e)) ∙ at in
          rw s (
            IsHeld-frame w.heap h v zs (waiting e) (step.others e s).0 step.written
              (is.held e v was))
    ]

    waits-after :
        (e g : Bytes)
        → key_eq dns.ksize dns.cmp e g ≡ false
        → Disjoint (with_waiting w d ys waiting e) (with_waiting w d ys waiting g)
    waits-after e g apart =
        let was : alike w e g ≡ false = sym (ap (λ k. k e g) wrote.3) ∙ apart in
        elim (Bool-cases (alike w d e)) [
          | inl s ↦ elim (Bool-cases (alike w d g)) [
            | inl r ↦
                let both : true ≡ false = sym r ∙ is.table.keys.left d e g s ∙ was in
                absurd (ground (arith, both))
            | inr r ↦ rw (s, r) (step.others g r).3
          ]
          | inr s ↦ elim (Bool-cases (alike w d g)) [
            | inl r ↦ rw (s, r) (Disjoint-sym ys (waiting e) (step.others e s).3)
            | inr r ↦ rw (s, r) (is.waits_waits e g was)
          ]
        ]

    pub IsTotal-step :
        (downs : Ptr → Option Down) (texts : Ptr → Option Bytes)
        → IsTotal
            (record w {
              cache_dns = dns;
              queue_dns = asked';
              down = down';
              heap = h;
              downs = downs;
              names = texts;
            })
            xs'
            names'
            (with_waiting w d ys waiting)
    IsTotal-step downs texts = record {
      table = wrote.1;
      ready = step.now_ready;
      asked = step.now_asked;
      held = IsHeld-after;
      ready_asked = step.now_apart;
      ready_waits = λ e. Disjoint-with_waiting d xs' ys e step.ready_new (λ s. (step.others e s).1);
      asked_waits =
          λ e. Disjoint-with_waiting d names' ys e step.asked_new (λ s. (step.others e s).2);
      waits_waits = waits-after;
    }
