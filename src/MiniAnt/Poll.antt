-- ===== src/MiniAnt/Poll.antt =====
-- mini_ant/src: what the two threads ask of the system beside the calls of Sock, and how their loops go on. `S` is
-- the state of the system.
use recycle_bin.Prelude.{ℕ, ◌≡◌, Bool, Option, none, some, List, Run, ok, fault}
use recycle_bin.MiniAnt.Sock.{Peer}

-- One entry of `events`: its descriptor, and which of `EPOLLERR`, `EPOLLHUP`, `EPOLLIN` and `EPOLLOUT` are set.
pub record Event : Type 0 where
  pub fd : ℕ
  pub err : Bool
  pub hup : Bool
  pub readable : Bool
  pub writable : Bool

-- `connect`: 0, -1 with `EINPROGRESS`, -1 with another `errno`.
pub data Connected : Type 0 where
  connected : Connected
  in_progress : Connected
  refused : Connected

-- `epoll_ctl` with `EPOLL_CTL_ADD` and `EPOLL_CTL_MOD`, of a descriptor and of whether `EPOLLOUT` is asked for beside
-- `EPOLLIN`; true is the result 0. `epoll_wait` of at most so many events for so many milliseconds, `none` for -1.
pub record Poll {ℓ} (S : Type ℓ) : Type ℓ where
  pub epoll_create : S → Bool × S
  pub connect : ℕ → Peer → S → Connected × S
  pub epoll_add : ℕ → Bool → S → Bool × S
  pub epoll_mod : ℕ → Bool → S → Bool × S
  pub epoll_wait : ℕ → ℕ → S → Option (List Event) × S
  pub close : ℕ → S → S
  pub time : S → ℕ

-- How a loop is left: `return` after `fail`, `exit(0)` and `exit` with a failure.
pub data Stop : Type 0 where
  failed_return : Stop
  exit_success : Stop
  exit_failure : Stop

-- A piece of a loop goes on with a value, leaves the loop, has no meaning in C, or is a run out of fuel.
pub data Did {ℓ} (A : Type ℓ) : Type ℓ where
  goes : A → Did A
  stops : Stop → Did A
  bad : Did A
  spent : Did A

infixl 5 ◌>>=◌
abbrev pub ◌>>=◌ {ℓ κ} : {A : Type ℓ} {B : Type κ} → Did A → (A → Did B) → Did B
goes a >>= f = f a
stops e >>= f = stops e
bad >>= f = bad
spent >>= f = spent

abbrev pub run {ℓ} : {A : Type ℓ} → Run A → Did A
run (ok a) = goes a
run fault = bad

abbrev pub fueled {ℓ} : {A : Type ℓ} → Option (Run A) → Did A
fueled none = spent
fueled (some r) = run r

-- The loop goes on, with a value that satisfies `P`.
abbrev pub Goes {ℓ κ} : {A : Type ℓ} → (A → Type κ) → Did A → Type (ℓ ⊔ κ)
Goes {A} P r = (a : A) × (r ≡ goes a) × P a
