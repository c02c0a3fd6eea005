-- ===== src/Nids/Examples.antt =====
-- use_libnids/parse_smtp_clent.c: a mail of two parts on one connection.
use recycle_bin.Prelude.{
  ◌≡◌, refl, true, Option, none, some, [], ◌∷◌, ◌++◌, arith, ◌==◌, if◌then◌else◌, replicate, ok,
  Returns,
}
use recycle_bin.Prelude.Chars.{Bytes}
use recycle_bin.MiniAnt.Queue.{QueueHead, Heap, elem}
use recycle_bin.MiniAnt.Queue.Refines.{IsQueue}
use recycle_bin.MiniAnt.Hash.{
  AntHash, Chain, ant_hash, hash_sized, hash_step, key_object, key_eq, memcmp_eq, bytes_eq,
  ant_hash_get,
}
use recycle_bin.MiniAnt.Hash.Chains.{find, Distinct}
use recycle_bin.MiniAnt.Hash.Bucket.{HasBucket, found, memcmp_eq-IsKeyEq}
use recycle_bin.Nids.{
  Nids, Outside, ant_init, ant_begin, quit, find_from, starts_with, set_mail_name, smtp_data,
}
use recycle_bin.Nids.Dump.{joined, smtp_data-quit}

-- A connection's addresses and ports, of which the hash value is zero, and another one.
abbrev addr : Bytes
addr = replicate 12 0

abbrev mail : QueueHead
mail = record { head = 1; tail = 2; size = 2; flag = 0 }

abbrev chain : Chain (Option QueueHead)
chain = (addr, some mail) ∷ []

abbrev table_of : Chain (Option QueueHead) → AntHash (Option QueueHead)
table_of c = record {
  hash = c ∷ replicate 39 [];
  ksize = 12;
  count = 0;
  m = 40;
  length = 1;
  ant_hash_func = ant_hash;
  cmp = none;
}

abbrev two_heap : Heap
two_heap p = if p == 1 then some (elem 11 2) else if p == 2 then some (elem 12 0) else none

abbrev outside : Outside
outside = record {
  data_at = 5;
  elem_at = 6;
  queue_got = true;
  hash_got = true;
  stamp = 55 ∷ [];
  opened = true;
}

abbrev state_of : Chain (Option QueueHead) → Nids
state_of c = record {
  smtp = ant_begin;
  smtp_hash = table_of c;
  heap = two_heap;
  datas = λ p. if p == 11 then some (82 ∷ 0 ∷ []) else if p == 12 then some (83 ∷ []) else none;
}

has_bucket :
    (c : Chain (Option QueueHead)) → Distinct (key_eq 12 none) c → HasBucket (table_of c) addr c
unfolding ant_hash hash_sized hash_step key_object key_eq
has_bucket c d = record {
  keys = memcmp_eq-IsKeyEq 12;
  place = 0;
  hashed = refl;
  chain = refl;
  distinct = d;
}

one-Distinct : Distinct (key_eq 12 none) chain
unfolding Distinct find
one-Distinct = (refl, tt)

none-Distinct : Distinct {V = Option QueueHead} (key_eq 12 none) []
unfolding Distinct
none-Distinct = tt

mail_there : found (table_of chain) addr chain (has_bucket chain one-Distinct) ≡ some (some mail)
unfolding find key_eq memcmp_eq bytes_eq
mail_there = refl

mail-IsQueue : IsQueue two_heap mail ((1, 11) ∷ (2, 12) ∷ [])
mail-IsQueue = record {
  head = refl;
  chain = (ground arith, refl, refl, (ground arith, refl, refl, tt));
  size = refl;
  tail = refl;
}

smtp_data-quit_example :
    Returns
      (λ (out, w').
        (out ≡ some (55 ∷ [], joined ((82 ∷ 0 ∷ []) ∷ (83 ∷ []) ∷ [])))
        × (w'.smtp ≡ ant_init)
        × (ant_hash_get w'.smtp_hash addr ≡ ok none))
      (smtp_data outside addr (quit ++ 13 ∷ []) 5 (state_of chain))
unfolding set_mail_name find_from starts_with
smtp_data-quit_example =
    smtp_data-quit outside addr (13 ∷ []) (55 ∷ []) 5 (state_of chain) chain
      (has_bucket chain one-Distinct) mail 1 11 ((2, 12) ∷ []) (82 ∷ 0 ∷ []) ((83 ∷ []) ∷ [])
      mail_there mail-IsQueue (refl, (refl, tt)) refl refl
