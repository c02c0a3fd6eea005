-- ===== src/MiniAnt/Crawl/Examples.antt =====
-- mini_ant/src/mini_ant.c: the crawler from its start, with the URL `http://ab/x`.
use recycle_bin.Prelude.{
  ℕ, ◌≡◌, refl, sym, ◌∙◌, true, false, ◌>>=◌, Option, none, some, List, [], ◌∷◌, ◌++◌, arith,
  replicate, length-replicate, ok, Returns,
}
use recycle_bin.Prelude.Chars.{Bytes}
use recycle_bin.MiniAnt.Queue.{Heap}
use recycle_bin.MiniAnt.Queue.Chain.{Slots}
use recycle_bin.MiniAnt.Hash.{AntHash, has_room, ant_hash_get, ant_lookup, find_place, key_object}
use recycle_bin.MiniAnt.Hash.Refines.{view, get-view}
use recycle_bin.MiniAnt.Url.{ends_domain}
use recycle_bin.MiniAnt.Dns.{DnsResponse}
use recycle_bin.MiniAnt.Domain.{IsDomain}
use recycle_bin.MiniAnt.Crawl.{CacheVal, Total, Fresh, store}
use recycle_bin.MiniAnt.Crawl.Add.{add_new}
use mathlib.Core.List.Perm
use recycle_bin.MiniAnt.Hash.{Chain, ant_hash}
use recycle_bin.MiniAnt.Crawl.Filter.{
  KeyAt, line_is, reread, uniq_exists, extract_lines, first_word, is_space_line,
}
use recycle_bin.MiniAnt.Crawl.Dropped.{IsUniq, extract_lines-drops}
use recycle_bin.MiniAnt.Crawl.Release.{process_cache_dns}
use recycle_bin.MiniAnt.Crawl.Held.{IsTotal, alike, with_waiting}
use recycle_bin.MiniAnt.Crawl.Urls.{url_of, IsPath}
use recycle_bin.MiniAnt.Crawl.Adds.{IsFresh, IsStored}
use recycle_bin.MiniAnt.Crawl.Keeps.{add_new-waits}
use recycle_bin.MiniAnt.Crawl.Releases.{process_cache_dns-releases}
use recycle_bin.MiniAnt.Crawl.Flow.{IsStart, ant_total_context_init-IsTotal}

abbrev no_heap : Heap
no_heap p = none

-- The state at the start.
started :
    (w : Total) × IsStart w
    × IsTotal w [] [] (λ e. [])
    × ((d : Bytes) → ant_hash_get w.cache_dns d ≡ ok none)
    × (w.cache_dns.length ≡ 0)
started = ant_total_context_init-IsTotal no_heap

abbrev start : Total
start = started.0

abbrev none_waits : Bytes → Slots
none_waits e = []

abbrev ab : Bytes
ab = 97 ∷ 98 ∷ []

abbrev slash_x : Bytes
slash_x = 47 ∷ 120 ∷ []

abbrev memory : Fresh
memory = record {
  down = 1;
  elem = 2;
  name = 3;
  name_elem = 4;
  val_got = true;
  queue_got = true;
  url_got = true;
  key_got = true;
  uniq_got = true;
  time = 9;
  domain = replicate 512 7;
}

abbrev no_port : Bytes → Option ℕ
no_port m = none

memory-IsFresh : IsFresh memory [] [] none_waits
memory-IsFresh = record {
  down_new = ground arith;
  elem_new = ground arith;
  name_new = ground arith;
  differ = refl;
  elem_ready = refl;
  elem_asked = refl;
  elem_waits = λ e. refl;
  name_ready = refl;
  name_asked = refl;
  name_waits = λ e. refl;
  val_given = refl;
  queue_given = refl;
  url_given = refl;
  text_new = ground arith;
}

ab-IsDomain : IsDomain ab
unfolding ends_domain
ab-IsDomain = (refl, (refl, tt))

slash_x-IsPath : IsPath slash_x
unfolding ends_domain
slash_x-IsPath = (refl, (ground arith, (ground arith, tt)))

start-room : has_room true start.cache_dns ≡ true
unfolding has_room
start-room = rw started.4 refl

abbrev four_numbers : List ℕ
four_numbers = 1 ∷ 2 ∷ 3 ∷ 4 ∷ []

-- The state with one download that waits.
waiting_one :
    Returns
      (λ w'.
        IsTotal w' [] ((4, 3) ∷ []) (with_waiting start ab ((2, 1) ∷ []) none_waits)
        × ((val : CacheVal) × (ant_hash_get w'.cache_dns ab ≡ ok (some val)) × (val.flags ≡ 0))
        × (alike w' ≡ alike start)
        × IsStored no_port memory start [] [] none_waits started.2 memory-IsFresh ab slash_x []
            ab-IsDomain slash_x-IsPath 0 w'
        × (w'.names ≡ store start.names 3 ab))
      (add_new no_port memory ab (url_of ab slash_x []) start)
waiting_one =
    add_new-waits no_port memory start [] [] none_waits started.2 memory-IsFresh ab slash_x []
      ab-IsDomain slash_x-IsPath start-room

waiting_val : view waiting_one.2.0.table ab ≡ some waiting_one.2.1.0
waiting_val =
    let both : ok (view waiting_one.2.0.table ab) ≡ ok (some waiting_one.2.1.0) =
      sym (get-view waiting_one.2.0.table ab) ∙ waiting_one.2.1.1 in
    cc

abbrev answer : DnsResponse
answer = record { host_name = ab; ip = four_numbers; flags = 0x8180 }

abbrev waits_now : Bytes → Slots
waits_now = with_waiting start ab ((2, 1) ∷ []) none_waits

process_cache_dns-releases_example :
    Returns
      (λ w'.
        IsTotal w' ([] ++ waits_now ab) ((4, 3) ∷ []) (with_waiting waiting_one.0 ab [] waits_now)
        × (ant_hash_get w'.cache_dns ab
            ≡ ok (
                some (record waiting_one.2.1.0 {
                  flags = 1;
                  mtime = 10;
                  ip = four_numbers;
                  down = none;
                })))
        × (w'.downs ≡ waiting_one.0.downs)
        × (w'.names ≡ waiting_one.0.names))
      (process_cache_dns 10 answer waiting_one.0)
process_cache_dns-releases_example =
    process_cache_dns-releases 10 answer waiting_one.0 [] ((4, 3) ∷ []) waits_now waiting_one.2.1.0
      waiting_one.2.0 refl refl waiting_val waiting_one.2.1.2

-- A table as `uniq_init` makes it, of four buckets.
abbrev uniq : AntHash KeyAt
uniq = record {
  hash = replicate 4 [];
  ksize = 0;
  count = 0;
  m = 4;
  length = 0;
  ant_hash_func = ant_hash;
  cmp = none;
}

uniq-IsUniq : IsUniq uniq
uniq-IsUniq = record {
  ksize = refl;
  cmp = refl;
  hashes = refl;
  buckets = omega arith;
  size = length-replicate {A = Chain KeyAt} 4 [];
}

no_ip : Bytes → Option (ℕ × Option ℕ)
no_ip m = none

abbrev ba : Bytes
ba = 98 ∷ 97 ∷ []

ab_not_there : uniq_exists (line_is ab uniq) ab ≡ ok false
unfolding uniq_exists line_is ant_lookup find_place reread ant_hash key_object
ab_not_there = refl

-- The two words with line feeds.
abbrev ab_line : Bytes
ab_line = 97 ∷ 98 ∷ 10 ∷ []

abbrev ba_line : Bytes
ba_line = 98 ∷ 97 ∷ 10 ∷ []

extract_lines-drops_example :
    extract_lines no_ip no_port ((ab_line, memory) ∷ (ba_line, memory) ∷ []) uniq start ≡ (do
      (t, w) ← extract_lines no_ip no_port ((ab_line, memory) ∷ []) uniq start
      extract_lines no_ip no_port [] (line_is (first_word no_ip no_port ba_line) t) w)
unfolding first_word is_space_line has_room
extract_lines-drops_example =
    extract_lines-drops no_ip no_port uniq ab_line ba_line memory memory [] start uniq-IsUniq refl
      refl refl (ground arith, (ground arith, tt)) (ground arith, (ground arith, tt))
      (Perm.swap 98 97 []) ab_not_there
