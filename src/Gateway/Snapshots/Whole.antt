-- ===== src/Gateway/Snapshots/Whole.antt =====
-- No reader copies a buffer of statistics while the publisher writes it (core/gateway.cpp).
use signal_scope_api.Base.{
  ℕ, ◌+◌, ◌≡◌, refl, ap, ◌∙◌, arith, ◌==◌, if_keeps, if_cases, List, [], ◌∷◌,
}
use mathlib.Core.Path.{subst}
use signal_scope_api.Gateway.Snapshots.{
  Publisher, idle, trying, copying, copied, Reader, outside, loaded, counted, confirmed, leaving,
  Board, Action, publisher_starts, publisher_checks, publisher_copies, publisher_stores,
  reader_loads, reader_counts, reader_checks, reader_copies, reader_leaves, other_enters,
  other_leaves, stats_change, copy_publisher, store_publisher, count_reader, leave_reader, act, run,
}
use signal_scope_api.Gateway.Snapshots.Steps.{
  NotShared, IsBoard, start-Apart, start-NotShared, check-Apart, check-NotShared, copy-IsBoard,
  store-IsBoard, load-pins, load-NotShared, check-pins, checked-NotShared, copy-pins,
  copied-NotShared, count-IsBoard, leave-IsBoard,
}

act-IsBoard : (a : Action) (b : Board) → IsBoard b → IsBoard (act a b)
unfolding act
act-IsBoard publisher_starts b v = record {
  active_in = v.active_in;
  pinned = v.pinned;
  apart = start-Apart b.publisher b.active_stats_snapshot v.apart;
  not_shared = start-NotShared b.publisher b.reader v.not_shared;
}
act-IsBoard publisher_checks b v = record {
  active_in = v.active_in;
  pinned = v.pinned;
  apart =
      check-Apart b.publisher b.active_stats_snapshot b.stats_snapshot_readers v.active_in v.apart;
  not_shared =
      check-NotShared b.publisher b.reader b.active_stats_snapshot b.stats_snapshot_readers
        b.other_readers v.pinned v.not_shared;
}
act-IsBoard publisher_copies b v = copy-IsBoard b.publisher b v.apart v
act-IsBoard publisher_stores b v = store-IsBoard b.publisher b v.apart v
act-IsBoard reader_loads b v = record {
  active_in = v.active_in;
  pinned = λ k.
      v.pinned k ∙ ap (λ t. b.other_readers k + t) (load-pins b.reader b.active_stats_snapshot k);
  apart = v.apart;
  not_shared = load-NotShared b.publisher b.reader b.active_stats_snapshot v.not_shared;
}
act-IsBoard reader_counts b v = count-IsBoard b.reader b v.pinned v
act-IsBoard reader_checks b v = record {
  active_in = v.active_in;
  pinned = λ k.
      v.pinned k ∙ ap (λ t. b.other_readers k + t) (check-pins b.reader b.active_stats_snapshot k);
  apart = v.apart;
  not_shared = checked-NotShared b.publisher b.reader b.active_stats_snapshot v.apart v.not_shared;
}
act-IsBoard reader_copies b v = record {
  active_in = v.active_in;
  pinned = λ k. v.pinned k ∙ ap (λ t. b.other_readers k + t) (copy-pins b.reader k);
  apart = v.apart;
  not_shared = copied-NotShared b.publisher b.reader v.not_shared;
}
act-IsBoard reader_leaves b v = leave-IsBoard b.reader b v.pinned v
act-IsBoard (other_enters j) b v = record {
  active_in = v.active_in;
  pinned = λ k. ground (arith, v.pinned k, v.pinned j);
  apart = v.apart;
  not_shared = v.not_shared;
}
act-IsBoard (other_leaves j) b v =
    if_cases IsBoard (b.other_readers j == 0) (λ e. v)
      (λ e. record {
        active_in = v.active_in;
        pinned = λ k. ground (arith, v.pinned k, v.pinned j);
        apart = v.apart;
        not_shared = v.not_shared;
      })
act-IsBoard (stats_change s) b v = record {
  active_in = v.active_in;
  pinned = v.pinned;
  apart = v.apart;
  not_shared = v.not_shared;
}

run-IsBoard : (actions : List Action) (b : Board) → IsBoard b → IsBoard (run actions b)
unfolding run
run-IsBoard [] b v = v
run-IsBoard (a ∷ rest) b v = run-IsBoard rest (act a b) (act-IsBoard a b v)

copy-keeps :
    (p : Publisher) (i : ℕ) (b : Board)
    → NotShared p (confirmed i)
    → (copy_publisher p b).published_stats i ≡ b.published_stats i
copy-keeps idle i b h = refl
copy-keeps (trying o) i b h = refl
copy-keeps (copied c) i b h = refl
copy-keeps (copying c) i b h = ground (arith, h)

store-keeps :
    (p : Publisher) (b : Board) (i : ℕ)
    → (store_publisher p b).published_stats i ≡ b.published_stats i
store-keeps idle b i = refl
store-keeps (trying o) b i = refl
store-keeps (copying c) b i = refl
store-keeps (copied c) b i = refl

count-keeps :
    (r : Reader) (b : Board) (i : ℕ) → (count_reader r b).published_stats i ≡ b.published_stats i
count-keeps outside b i = refl
count-keeps (loaded j) b i = refl
count-keeps (counted j) b i = refl
count-keeps (confirmed j) b i = refl
count-keeps (leaving j) b i = refl

leave-keeps :
    (r : Reader) (b : Board) (i : ℕ) → (leave_reader r b).published_stats i ≡ b.published_stats i
leave-keeps outside b i = refl
leave-keeps (loaded j) b i = refl
leave-keeps (counted j) b i = refl
leave-keeps (confirmed j) b i = refl
leave-keeps (leaving j) b i = refl

act-keeps :
    (a : Action) (b : Board) (i : ℕ)
    → NotShared b.publisher (confirmed i)
    → (act a b).published_stats i ≡ b.published_stats i
unfolding act
act-keeps publisher_starts b i h = refl
act-keeps publisher_checks b i h = refl
act-keeps publisher_copies b i h = copy-keeps b.publisher i b h
act-keeps publisher_stores b i h = store-keeps b.publisher b i
act-keeps reader_loads b i h = refl
act-keeps reader_counts b i h = count-keeps b.reader b i
act-keeps reader_checks b i h = refl
act-keeps reader_copies b i h = refl
act-keeps reader_leaves b i h = leave-keeps b.reader b i
act-keeps (other_enters k) b i h = refl
act-keeps (other_leaves k) b i h =
    if_keeps (λ (c : Board). c.published_stats i ≡ b.published_stats i) (b.other_readers k == 0)
      refl refl
act-keeps (stats_change s) b i h = refl

-- In every interleaving of one publisher and any number of readers, from a sound board: while a reader
-- copies a buffer that it has confirmed, the publisher is not in a copy to that buffer, and no
-- action of any task changes the buffer.
pub run-NotShared :
    (b : Board) (actions : List Action) (next : Action) (i : ℕ)
    → IsBoard b
    → (run actions b).reader ≡ confirmed i
    → NotShared (run actions b).publisher (confirmed i)
      × ((act next (run actions b)).published_stats i ≡ (run actions b).published_stats i)
run-NotShared b actions next i v at =
    let apart =
      subst (NotShared (run actions b).publisher) at (run-IsBoard actions b v).not_shared in
    (apart, act-keeps next (run actions b) i apart)
