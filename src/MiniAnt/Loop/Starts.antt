-- ===== src/MiniAnt/Loop/Starts.antt =====
-- mini_ant/src/mini_ant.c: the downloads that a turn of `http_event_loop` starts.
use recycle_bin.Prelude.{ℕ, ◌+◌, ◌-◌, ◌≡◌, Bool, true, length, drop}
use Prim.Native.Nat.{min}
use recycle_bin.Prelude.Chars.{Bytes}
use recycle_bin.Prelude.Int.{pos}
use recycle_bin.MiniAnt.Queue.Chain.{Slots}
use recycle_bin.MiniAnt.Crawl.Held.{IsTotal}
use recycle_bin.MiniAnt.Loop.{Host, Crawler}
use recycle_bin.MiniAnt.Loop.Opens.{IsServing, HasDowns, IsSocks}

module _ {ℓ} {S : Type ℓ} (host : Host S) (bound : ℕ) (is : IsServing host bound) where
  -- What the start of downloads leaves, with `j` connections before it, of at most `bound` places and `most` connections.
  pub record IsStarted (n most j : ℕ) (c : Crawler S) (xs names : Slots) (waiting : Bytes → Slots)
      (fine : Bool) (c' : Crawler S) : Type ℓ where
    pub count : ℕ
    pub many : count ≡ min n (min (most - j) (length xs))
    pub good : fine ≡ true
    pub state : IsTotal c'.total (drop count xs) names waiting
    pub downs : HasDowns c'.total (drop count xs)
    pub conns : c'.nconn ≡ pos (j + count)
    pub socks : IsSocks bound c'.socks
