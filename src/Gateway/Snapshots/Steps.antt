-- ===== src/Gateway/Snapshots/Steps.antt =====
-- What holds of the buffers of statistics between any two actions (core/gateway.cpp), and that the
-- actions of the publisher and of the reader keep it.
use signal_scope_api.Base.{
  ℕ, ◌+◌, ◌<◌, ◌≡◌, ◌≢◌, refl, sym, ◌∙◌, arith, ltb, ◌==◌, ==_iff, if◌then◌else◌, if_keeps,
  if_cases, Array,
}
use signal_scope_api.Gateway.Snapshots.{
  Publisher, idle, trying, copying, copied, Reader, outside, loaded, counted, confirmed, leaving,
  Board, candidate_of, start_publisher, next_try, check_publisher, copy_publisher, store_publisher,
  load_reader, count_reader, check_reader, copy_reader, leave_reader,
}

-- Whether the reader has a pin on a buffer.
abbrev pub pins : Reader → ℕ → ℕ
pins (counted i) k = if i == k then 1 else 0
pins (confirmed i) k = if i == k then 1 else 0
pins (leaving i) k = if i == k then 1 else 0
pins _ k = 0

-- The publisher's buffer is not the active one.
abbrev pub Apart : Publisher → ℕ → Type 0
Apart idle active = Unit
Apart (trying offset) active = (0 < offset) × (offset < 3)
Apart (copying c) active = (c ≢ active) × (c < 3)
Apart (copied c) active = (c ≢ active) × (c < 3)

-- The publisher is not in a copy to the buffer that the reader copies from.
abbrev pub NotShared : Publisher → Reader → Type 0
NotShared (copying c) (confirmed i) = c ≢ i
NotShared _ _ = Unit

pub record IsBoard (b : Board) : Type 0 where
  pub active_in : b.active_stats_snapshot < 3
  pub pinned : (k : ℕ) → b.stats_snapshot_readers k ≡ b.other_readers k + pins b.reader k
  pub apart : Apart b.publisher b.active_stats_snapshot
  pub not_shared : NotShared b.publisher b.reader

candidate-apart :
    (active offset : ℕ) → active < 3 → 0 < offset → offset < 3 → candidate_of active offset ≢ active
candidate-apart active offset h lo hi = ground arith

candidate-lt : (active offset : ℕ) → candidate_of active offset < 3
candidate-lt active offset = omega arith

pub start-Apart : (p : Publisher) (active : ℕ) → Apart p active → Apart (start_publisher p) active
start-Apart idle active h = (omega arith, omega arith)
start-Apart (trying o) active h = h
start-Apart (copying c) active h = h
start-Apart (copied c) active h = h

pub start-NotShared : (p : Publisher) (r : Reader) → NotShared p r → NotShared (start_publisher p) r
start-NotShared idle r h = tt
start-NotShared (trying o) r h = h
start-NotShared (copying c) r h = h
start-NotShared (copied c) r h = h

pub check-Apart :
    (p : Publisher) (active : ℕ) (readers : Array ℕ)
    → active < 3
    → Apart p active
    → Apart (check_publisher p active readers) active
check-Apart idle active readers h v = v
check-Apart (copying c) active readers h v = v
check-Apart (copied c) active readers h v = v
check-Apart (trying o) active readers h (lo, hi) =
    if_keeps (λ p. Apart p active) (readers (candidate_of active o) == 0)
      (candidate-apart active o h lo hi, candidate-lt active o)
      (if_cases (λ p. Apart p active) (ltb (o + 1) 3) (λ e. (omega arith, ground arith)) (λ e. tt))

-- A buffer without pins is not the one that the reader copies from.
free-NotShared : (c : ℕ) (r : Reader) (n : ℕ) → n + pins r c ≡ 0 → NotShared (copying c) r
free-NotShared c outside n h = tt
free-NotShared c (loaded i) n h = tt
free-NotShared c (counted i) n h = tt
free-NotShared c (leaving i) n h = tt
free-NotShared c (confirmed i) n h = λ e. ground arith

trying-NotShared : (o : ℕ) (r : Reader) → NotShared (next_try o) r
trying-NotShared o r = if_keeps (λ p. NotShared p r) (ltb (o + 1) 3) tt tt

pub check-NotShared :
    (p : Publisher) (r : Reader) (active : ℕ) (readers others : Array ℕ)
    → ((k : ℕ) → readers k ≡ others k + pins r k)
    → NotShared p r
    → NotShared (check_publisher p active readers) r
check-NotShared idle r active readers others pinned h = h
check-NotShared (copying c) r active readers others pinned h = h
check-NotShared (copied c) r active readers others pinned h = h
check-NotShared (trying o) r active readers others pinned h =
    let c = candidate_of active o in
    if_cases (λ p. NotShared p r) (readers c == 0)
      (λ free. free-NotShared c r (others c) (sym (pinned c) ∙ (==_iff _ _).0 free))
      (λ held. trying-NotShared o r)

pub copy-IsBoard :
    (p : Publisher) (b : Board)
    → Apart p b.active_stats_snapshot
    → IsBoard b
    → IsBoard (copy_publisher p b)
copy-IsBoard idle b h v = v
copy-IsBoard (trying o) b h v = v
copy-IsBoard (copied c) b h v = v
copy-IsBoard (copying c) b h v = record {
  active_in = v.active_in;
  pinned = v.pinned;
  apart = h;
  not_shared = tt;
}

pub store-IsBoard :
    (p : Publisher) (b : Board)
    → Apart p b.active_stats_snapshot
    → IsBoard b
    → IsBoard (store_publisher p b)
store-IsBoard idle b h v = v
store-IsBoard (trying o) b h v = v
store-IsBoard (copying c) b h v = v
store-IsBoard (copied c) b h v = record {
  active_in = h.1;
  pinned = v.pinned;
  apart = tt;
  not_shared = tt;
}

-- A reader that is not confirmed shares with no publisher.
unconfirmed :
    (p : Publisher) (i : ℕ)
    → NotShared p (loaded i)
      × NotShared p (counted i)
      × NotShared p (leaving i)
      × NotShared p outside
unconfirmed idle i = (tt, tt, tt, tt)
unconfirmed (trying o) i = (tt, tt, tt, tt)
unconfirmed (copying c) i = (tt, tt, tt, tt)
unconfirmed (copied c) i = (tt, tt, tt, tt)

pub load-pins : (r : Reader) (active k : ℕ) → pins r k ≡ pins (load_reader r active) k
load-pins outside active k = refl
load-pins (loaded i) active k = refl
load-pins (counted i) active k = refl
load-pins (confirmed i) active k = refl
load-pins (leaving i) active k = refl

pub load-NotShared :
    (p : Publisher) (r : Reader) (active : ℕ) → NotShared p r → NotShared p (load_reader r active)
load-NotShared p outside active h = (unconfirmed p active).0
load-NotShared p (loaded i) active h = h
load-NotShared p (counted i) active h = h
load-NotShared p (confirmed i) active h = h
load-NotShared p (leaving i) active h = h

pub check-pins : (r : Reader) (active k : ℕ) → pins r k ≡ pins (check_reader r active) k
check-pins outside active k = refl
check-pins (loaded i) active k = refl
check-pins (counted i) active k =
    if_keeps (λ r. (if i == k then 1 else 0) ≡ pins r k) (active == i) refl refl
check-pins (confirmed i) active k = refl
check-pins (leaving i) active k = refl

-- The active buffer is not the publisher's.
active-NotShared :
    (p : Publisher) (active i : ℕ) → active ≡ i → Apart p active → NotShared p (confirmed i)
active-NotShared idle active i e v = tt
active-NotShared (trying o) active i e v = tt
active-NotShared (copied c) active i e v = tt
active-NotShared (copying c) active i e v = λ same. v.0 (same ∙ sym e)

pub checked-NotShared :
    (p : Publisher) (r : Reader) (active : ℕ)
    → Apart p active
    → NotShared p r
    → NotShared p (check_reader r active)
checked-NotShared p outside active v h = h
checked-NotShared p (loaded i) active v h = h
checked-NotShared p (confirmed i) active v h = h
checked-NotShared p (leaving i) active v h = h
checked-NotShared p (counted i) active v h =
    if_cases (NotShared p) (active == i) (λ e. active-NotShared p active i ((==_iff _ _).0 e) v)
      (λ e. (unconfirmed p i).2)

pub copy-pins : (r : Reader) (k : ℕ) → pins r k ≡ pins (copy_reader r) k
copy-pins outside k = refl
copy-pins (loaded i) k = refl
copy-pins (counted i) k = refl
copy-pins (confirmed i) k = refl
copy-pins (leaving i) k = refl

pub copied-NotShared : (p : Publisher) (r : Reader) → NotShared p r → NotShared p (copy_reader r)
copied-NotShared p outside h = h
copied-NotShared p (loaded i) h = h
copied-NotShared p (counted i) h = h
copied-NotShared p (confirmed i) h = (unconfirmed p i).2
copied-NotShared p (leaving i) h = h

pub count-IsBoard :
    (r : Reader) (b : Board)
    → ((k : ℕ) → b.stats_snapshot_readers k ≡ b.other_readers k + pins r k)
    → IsBoard b
    → IsBoard (count_reader r b)
count-IsBoard outside b h v = v
count-IsBoard (counted i) b h v = v
count-IsBoard (confirmed i) b h v = v
count-IsBoard (leaving i) b h v = v
count-IsBoard (loaded i) b h v = record {
  active_in = v.active_in;
  pinned = λ k. ground (arith, h k);
  apart = v.apart;
  not_shared = (unconfirmed b.publisher i).1;
}

pub leave-IsBoard :
    (r : Reader) (b : Board)
    → ((k : ℕ) → b.stats_snapshot_readers k ≡ b.other_readers k + pins r k)
    → IsBoard b
    → IsBoard (leave_reader r b)
leave-IsBoard outside b h v = v
leave-IsBoard (counted i) b h v = v
leave-IsBoard (confirmed i) b h v = v
leave-IsBoard (loaded i) b h v = v
leave-IsBoard (leaving i) b h v = record {
  active_in = v.active_in;
  pinned = λ k. ground (arith, h k);
  apart = v.apart;
  not_shared = (unconfirmed b.publisher i).3;
}
