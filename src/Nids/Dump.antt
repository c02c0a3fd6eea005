-- ===== src/Nids/Dump.antt =====
-- use_libnids/parse_smtp_clent.c: the end of a mail.
use recycle_bin.Prelude.{
  ℕ, ◌≡◌, refl, ap, ◌∙◌, true, Option, none, some, List, [], ◌∷◌, ◌++◌, length, ok, fault, Returns,
}
use recycle_bin.Prelude.Chars.{Bytes}
use recycle_bin.MiniAnt.Queue.{Ptr, null, QueueHead, Heap, elem, load}
use recycle_bin.MiniAnt.Queue.Chain.{Slots, start}
use recycle_bin.MiniAnt.Queue.Refines.{IsQueue, queue_get-uncons, load-some}
use recycle_bin.MiniAnt.Hash.{AntHash, Chain, ant_hash_get}
use recycle_bin.MiniAnt.Hash.Bucket.{HasBucket, found, get-found, del-gone}
use recycle_bin.Nids.{
  Nids, Outside, ant_init, ant_download, starts_with, quit, hash_del, ant_smtp_init, set_mail_name,
  dump_loop, dump_file, download, held, ant_smtp_process, smtp_data,
}

-- The parts of a mail, in order.
abbrev pub Holds : (Ptr → Option Bytes) → Slots → List Bytes → Type 0
Holds datas [] [] = Unit {0}
Holds datas [] (b ∷ bs) = ⊥
Holds datas (x ∷ xs) [] = ⊥
Holds datas ((a, d) ∷ xs) (b ∷ bs) = (datas d ≡ some b) × Holds datas xs bs

abbrev pub joined : List Bytes → Bytes
joined [] = []
joined (b ∷ bs) = b ++ joined bs

dump_loop-joined :
    (datas : Ptr → Option Bytes) (xs : Slots) (bs : List Bytes) (q : QueueHead) (h : Heap)
    → IsQueue h q xs
    → Holds datas xs bs
    → Returns (λ (bytes, q', h'). bytes ≡ joined bs) (dump_loop (length xs) datas q h)
unfolding dump_loop
dump_loop-joined datas [] (b ∷ bs) q h is holds = elim holds [ ]
dump_loop-joined datas (x ∷ xs) [] q h is holds = elim holds [ ]
dump_loop-joined datas [] [] q h is holds = (([], q, h), refl, refl)
dump_loop-joined datas ((a, d) ∷ xs) (b ∷ bs) q h is (here, holds) =
    let (((out, q'), g), run, (same, is', _)) = (queue_get-uncons h q).0 a d xs is in
    let ((bytes, q2, h2), rest, e) = dump_loop-joined datas xs bs q' g is' holds in
    ((b ++ bytes, q2, h2), rw (run, same, here, rest) refl, ap (λ m. b ++ m) e)

-- `QUIT` sets the state of all connections, whatever connection it comes on.
init-quit :
    (o : Outside) (addr rest : Bytes) (w : Nids)
    → ant_smtp_init o addr (quit ++ rest) w ≡ ok (record w { smtp = ant_download })
unfolding ant_smtp_init starts_with
init-quit o addr rest w = refl

hash_del-gone :
    (t : AntHash (Option QueueHead)) (key : Bytes) (c : Chain (Option QueueHead))
    → HasBucket t key c
    → Returns (λ (old, t'). ant_hash_get t' key ≡ ok none) (hash_del t key)
unfolding hash_del
hash_del-gone t key c is =
    let ((old, t'), run, gone) = del-gone t key c is in
    ((old, record t' { length = t.length }), rw run refl, gone t.length)

load-head :
    (h : Heap) (q : QueueHead) (a d : Ptr) (xs : Slots)
    → IsQueue h q ((a, d) ∷ xs)
    → load q.head h ≡ ok (elem d (start xs null))
load-head h q a d xs is = ap (λ p. load p h) is.head ∙ load-some a h is.chain.0 is.chain.1

download-joined :
    (o : Outside) (addr name : Bytes) (w : Nids) (c : Chain (Option QueueHead))
    (is : HasBucket w.smtp_hash addr c) (q : QueueHead) (a d : Ptr) (xs : Slots) (b : Bytes)
    (bs : List Bytes)
    → IsQueue w.heap q ((a, d) ∷ xs)
    → Holds w.datas ((a, d) ∷ xs) (b ∷ bs)
    → o.opened ≡ true
    → set_mail_name o.stamp b ≡ ok name
    → Returns
        (λ (out, w').
          (out ≡ some (name, joined (b ∷ bs)))
          × (w'.smtp ≡ ant_init)
          × (ant_hash_get w'.smtp_hash addr ≡ ok none))
        (download o addr (some q) w)
unfolding download dump_file
download-joined o addr name w c is q a d xs b bs q_is holds opened named =
    let ((bytes, q', h'), run, content) =
      dump_loop-joined w.datas ((a, d) ∷ xs) (b ∷ bs) q w.heap q_is holds in
    let ((old, t'), del, gone) = hash_del-gone w.smtp_hash addr c is in
    let loop : dump_loop q.size w.datas q w.heap ≡ ok (bytes, q', h') =
      ap (λ n. dump_loop n w.datas q w.heap) q_is.size ∙ run in
    (
      (some (name, bytes), record w { smtp = ant_init; smtp_hash = t'; heap = h' }),
      rw (load-head w.heap q a d xs q_is, holds.0, named, opened, loop, del) refl,
      (ap (λ m. some (name, m)) content, refl, gone),
    )

-- When `QUIT` comes on a connection whose mail has parts, and the file can be named and opened, the file gets all the parts in
-- order, the state is as at the start, and the table has nothing for the connection any more.
pub smtp_data-quit :
    (o : Outside) (addr rest name : Bytes) (count : ℕ) (w : Nids) (c : Chain (Option QueueHead))
    (is : HasBucket w.smtp_hash addr c) (q : QueueHead) (a d : Ptr) (xs : Slots) (b : Bytes)
    (bs : List Bytes)
    → found w.smtp_hash addr c is ≡ some (some q)
    → IsQueue w.heap q ((a, d) ∷ xs)
    → Holds w.datas ((a, d) ∷ xs) (b ∷ bs)
    → o.opened ≡ true
    → set_mail_name o.stamp b ≡ ok name
    → Returns
        (λ (out, w').
          (out ≡ some (name, joined (b ∷ bs)))
          × (w'.smtp ≡ ant_init)
          × (ant_hash_get w'.smtp_hash addr ≡ ok none))
        (smtp_data o addr (quit ++ rest) count w)
unfolding smtp_data ant_smtp_process held
smtp_data-quit o addr rest name count w c is q a d xs b bs has q_is holds opened named =
    let w1 : Nids = record w { smtp = ant_download } in
    let (out, run, facts) =
      download-joined o addr name w1 c is q a d xs b bs q_is holds opened named in
    (out, rw (init-quit o addr rest w, get-found w.smtp_hash addr c is, has) run, facts)

-- When `QUIT` comes on a connection that has no mail in the table, the program goes through a null pointer,
-- whatever state it is in.
pub smtp_data-quit_unknown :
    (o : Outside) (addr rest : Bytes) (count : ℕ) (w : Nids) (c : Chain (Option QueueHead))
    (is : HasBucket w.smtp_hash addr c)
    → found w.smtp_hash addr c is ≡ none
    → smtp_data o addr (quit ++ rest) count w ≡ fault
unfolding smtp_data ant_smtp_process held download
smtp_data-quit_unknown o addr rest count w c is has =
    rw (init-quit o addr rest w, get-found w.smtp_hash addr c is, has) refl
