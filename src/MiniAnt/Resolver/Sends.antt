-- ===== src/MiniAnt/Resolver/Sends.antt =====
-- mini_ant/src/ant_dns.c: the questions that `thread_dns_main` sends on one socket in one turn of its loop.
use recycle_bin.Prelude.{
  ℕ, zero, suc, ◌+◌, ◌%◌, ◌^◌, ◌≤◌, ◌≡◌, ◌⊎◌, Bool, true, false, not, ◌&&◌, ◌||◌, Option, some,
  List, [], ◌∷◌, ◌++◌, ◌==◌, length, take, drop, All,
}
use Prim.Native.Nat.{min}
use recycle_bin.Prelude.Chars.{Bytes}
use recycle_bin.Prelude.Int.{pos, ◌-ℤ◌}
use recycle_bin.Pool.{eintr, eagain, etimedout, other, Answer, done, failed}
use recycle_bin.MiniAnt.Sock.{Net}
use recycle_bin.MiniAnt.Poll.{Poll}
use recycle_bin.MiniAnt.Queue.{Ptr}
use recycle_bin.MiniAnt.Queue.Chain.{Slots}
use recycle_bin.MiniAnt.Dns.{u16_bytes}
use recycle_bin.MiniAnt.Dns.Names.{join, encode, IsLabel}
use recycle_bin.MiniAnt.Dns.Question.{question}
use recycle_bin.MiniAnt.Dns.Transfer.{clean_fd}
use recycle_bin.MiniAnt.Crawl.Held.{IsTotal}
use recycle_bin.MiniAnt.Resolver.{Resolver}

-- A name as its first label and those behind it.
abbrev pub Labels : Type 0
Labels = Bytes × List Bytes

abbrev pub name_of : Labels → Bytes
name_of t = join (t.0 ∷ t.1)

-- The question for the name fits into the array `send_buf`.
abbrev pub IsAskable : Labels → Type 0
IsAskable t = All IsLabel (t.0 ∷ t.1) × (length (name_of t) ≤ 492)

-- What is sent for a name: the packet behind its length.
abbrev pub packet : (id : ℕ) → Labels → Bytes
packet id t = let q = question id (encode (t.0 ∷ t.1)) in u16_bytes (length q) ++ q

-- A call of `send`: the socket, the bytes, and the answer.
abbrev pub Call : Type 0
Call = ℕ × (Bytes × Answer ℕ)

-- The calls on a socket for names in a row, the first one under the number `id`, with their answers.
abbrev pub packets : (sock id : ℕ) → List Labels → List (Answer ℕ) → List Call
packets sock id [] answers = []
packets sock id (t ∷ ts) [] = []
packets sock id (t ∷ ts) (a ∷ answers) =
    (sock, (packet id t, a)) ∷ packets sock ((id + 1) % 2 ^ 32) ts answers

-- The socket is kept after this answer: bytes were taken, or the error is `EAGAIN`.
abbrev pub keeps : Answer ℕ → Bool
keeps (done zero) = false
keeps (done (suc n)) = true
keeps (failed eagain) = true
keeps (failed eintr) = false
keeps (failed etimedout) = false
keeps (failed other) = false

-- After all of the answers; and after all but the last one, and not after that.
abbrev pub keeps_all : List (Answer ℕ) → Bool
keeps_all [] = true
keeps_all (a ∷ answers) = keeps a && keeps_all answers

abbrev pub loses_last : List (Answer ℕ) → Bool
loses_last [] = false
loses_last (a ∷ []) = not (keeps a)
loses_last (a ∷ b ∷ answers) = keeps a && loses_last (b ∷ answers)

-- Is the text at this address among those of the queue?
abbrev pub queued : Ptr → Slots → Bool
queued p [] = false
queued p ((_, d) ∷ names) = (d == p) || queued p names

-- The queue's items lead to the names, each to memory of its own.
abbrev pub HasNames : (Ptr → Option Bytes) → Slots → List Labels → Type 0
HasNames m [] [] = Unit
HasNames m ((_, p) ∷ names) (t ∷ ts) =
    (m p ≡ some (name_of t)) × IsAskable t × (queued p names ≡ false) × HasNames m names ts
HasNames m [] (t ∷ ts) = ⊥
HasNames m (x ∷ names) [] = ⊥

module _ {ℓ} {S : Type ℓ} (net : Net S) (poll : Poll S) (nonblock ip : ℕ) (got : S → Bool)
    (head res : S → Bytes) (log : S → List Call) where
  -- What has become of the names: `send` has been called for the first of them, so many, in order, and the rest is queued as it
  -- was. Either the socket is kept after every answer, and stays; or after all but the last one, and is closed.
  pub record IsSent (n sock : ℕ) (r : Resolver S) (xs names : Slots) (waiting : Bytes → Slots)
      (ts : List Labels) (r' : Resolver S) : Type ℓ where
    pub count : ℕ
    pub state : IsTotal r'.total xs (drop count names) waiting
    pub left : HasNames r'.total.names (drop count names) (drop count ts)
    pub answers : List (Answer ℕ)
    pub each : length answers ≡ count
    pub sent : log r'.sys ≡ log r.sys ++ packets sock r.id (take count ts) answers
    pub ends :
        ((keeps_all answers ≡ true)
          × (r'.nsock ≡ r.nsock)
          × (r'.cache_sock ≡ r.cache_sock)
          × (count ≡ min n (length names)))
        ⊎ ((loses_last answers ≡ true)
            × (r'.nsock ≡ r.nsock -ℤ pos 1)
            × (r'.cache_sock ≡ (clean_fd sock r.cache_sock r.nsock).0)
            × ((s : S) × (r'.sys ≡ poll.close sock s))
            × (count ≤ n))
