-- ===== src/MiniAnt/Crawl/Add.antt =====
-- mini_ant/src/mini_ant.c: `url_add`.
use recycle_bin.Prelude.{
  ℕ, true, Option, none, some, [], ◌∷◌, ◌++◌, ◌==◌, if◌then◌else◌, get_elem?, replicate, Run, ok,
  ◌>>=◌, ◌>>◌, assert, from_option,
}
use recycle_bin.Prelude.Chars.{Bytes}
use recycle_bin.MiniAnt.Queue.{Ptr, null, queue_new, queue_put}
use recycle_bin.MiniAnt.Hash.{ant_hash_put, ant_hash_get}
use recycle_bin.MiniAnt.Url.{url_to_domain, url_modify, url_text}
use recycle_bin.MiniAnt.Crawl.{CacheVal, Total, Fresh, cached, down_add, store}

-- What the item of a queue leads to: nothing where `strdup` had no memory.
unfoldable pub named : Ptr → Bytes → (Ptr → Option Bytes) → Ptr → Option Bytes
named p domain names = if p == null then names else store names p domain

module _ (scan_port : Bytes → Option ℕ) (f : Fresh) where
  -- For a domain without an entry. The key and the item of the queue are two `strdup`s of it. The entry's
  -- addresses are zero.
  unfoldable pub add_new : (domain url : Bytes) → Total → Run Total
  add_new domain url w = do
    assert f.val_got
    q ← from_option (queue_new f.queue_got)
    (_, q, w) ← down_add scan_port f (cached domain) 0 0 url q w
    let val : CacheVal = record {
      flags = 0;
      ctime = f.time;
      mtime = f.time;
      ip = replicate 4 0;
      down = some q;
    }
    (_, dns) ← ant_hash_put f.key_got w.cache_dns domain val
    (names, heap) ← queue_put f.name_elem f.name w.queue_dns w.heap
    ok (record w {
      cache_dns = dns;
      queue_dns = names;
      heap = heap;
      names = named f.name domain w.names;
    })

  -- For a domain that has one. The entry's queue is changed where it lies, for which no memory is asked.
  unfoldable pub add_known : (domain url : Bytes) → CacheVal → Total → Run Total
  add_known domain url val w = do
    first ← from_option (get_elem? val.ip 0)
    if val.flags == 1
        then (do
          (_, down, w) ← down_add scan_port f (cached domain) first 0 url w.down w
          ok (record w { down = down }))
        else do
          q ← from_option val.down
          (_, q, w) ← down_add scan_port f (cached domain) first 0 url q w
          (_, dns) ← ant_hash_put true w.cache_dns domain (record val { down = some q })
          ok (record w { cache_dns = dns })

  -- The URL that is used: `http://` and the text, or the text itself where it has a scheme.
  unfoldable pub with_scheme : Bytes → Run Bytes
  with_scheme url2 = do
    (rc, buf) ← url_modify 4096 url2
    elim buf [ some t ↦ ok (t ++ 0 ∷ []) | none ↦ ok url2 ]

  unfoldable pub url_add : (url2 : Bytes) → Total → Run Total
  url_add url2 w = do
    buf ← url_to_domain f.domain 512 url2
    domain ← url_text buf
    url ← with_scheme url2
    found ← ant_hash_get w.cache_dns domain
    elim found [ none ↦ add_new domain url w | some val ↦ add_known domain url val w ]
