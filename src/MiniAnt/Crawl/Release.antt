-- ===== src/MiniAnt/Crawl/Release.antt =====
-- mini_ant/src/ant_dns.c: `process_cache_dns`, by which the thread of the name server hands the downloads of a
-- host to the crawler.
use recycle_bin.Prelude.{ℕ, true, not, none, some, ◌==◌, if◌then◌else◌, Run, ok, ◌>>=◌, from_option}
use recycle_bin.MiniAnt.Queue.{queue_join_init}
use recycle_bin.MiniAnt.Hash.{ant_hash_put, ant_hash_get}
use recycle_bin.MiniAnt.Dns.{DnsResponse}
use recycle_bin.MiniAnt.Crawl.{CacheVal, Total}

-- What is done with the value that was found. It is changed where it lies, which is a put under the key that it
-- was found by; `queue_free` gives back the head of a queue and nothing else.
unfoldable pub process_found : (now : ℕ) → DnsResponse → CacheVal → Total → Run Total
process_found now response val w =
    if val.flags == 1 then ok w else if not (response.flags == 0x8180) then ok w else do
      q ← from_option val.down
      ((down, _), heap) ← queue_join_init w.down q w.heap
      (_, dns) ←
          ant_hash_put true w.cache_dns response.host_name
            (record val { flags = 1; mtime = now; ip = response.ip; down = none })
      ok (record w { cache_dns = dns; down = down; heap = heap })

unfoldable pub process_cache_dns : (now : ℕ) → DnsResponse → Total → Run Total
process_cache_dns now response w = do
  found ← ant_hash_get w.cache_dns response.host_name
  elim found [ none ↦ ok w | some val ↦ process_found now response val w ]
