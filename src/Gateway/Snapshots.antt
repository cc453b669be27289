-- ===== src/Gateway/Snapshots.antt =====
-- `publishStats` and `snapshotStats` (core/gateway.cpp) as they interleave: the CAN task publishes
-- statistics into one of three buffers while readers on the other core copy the active one. Each
-- atomic load or store is one action, and so is the copy of a buffer; one reader is followed, and
-- the pins of the others are counted. Fewer than 2 ^ 16 readers are in a buffer.
pub mod Steps
pub mod Whole
use signal_scope_api.Base.{
  ℕ, suc, ◌+◌, ◌-◌, ◌%◌, ◌^◌, Bool, true, false, ltb, ◌==◌, if◌then◌else◌, List, [], ◌∷◌, Array,
  store,
}
use signal_scope_api.Frame.{u8}
use signal_scope_api.Gateway.State.{GatewayStats, stats_snapshot_count}

-- Where the publisher is in publishStats: before it, at the test of the candidate with an offset,
-- in the copy to a candidate, and after that copy.
pub data Publisher : Type 0 where
  idle : Publisher
  trying : ℕ → Publisher
  copying : ℕ → Publisher
  copied : ℕ → Publisher

-- Where the reader is in snapshotStats: before a load of the active index, after it, after the
-- increment, in the copy of a confirmed buffer, and before the decrement.
pub data Reader : Type 0 where
  outside : Reader
  loaded : ℕ → Reader
  counted : ℕ → Reader
  confirmed : ℕ → Reader
  leaving : ℕ → Reader

pub record Board : Type 0 where
  pub publisher : Publisher
  pub reader : Reader
  pub stats : GatewayStats
  pub published_stats : Array GatewayStats
  pub active_stats_snapshot : ℕ
  pub stats_snapshot_readers : Array ℕ
  pub other_readers : Array ℕ

pub data Action : Type 0 where
  publisher_starts publisher_checks publisher_copies publisher_stores : Action
  reader_loads reader_counts reader_checks reader_copies reader_leaves : Action
  other_enters other_leaves : ℕ → Action
  stats_change : GatewayStats → Action

abbrev pub candidate_of : ℕ → ℕ → ℕ
candidate_of active offset = u8 ((active + offset) % stats_snapshot_count)

abbrev pub start_publisher : Publisher → Publisher
start_publisher idle = trying 1
start_publisher p = p

abbrev pub next_try : ℕ → Publisher
next_try offset = if ltb (offset + 1) stats_snapshot_count then trying (offset + 1) else idle

abbrev pub check_publisher : Publisher → ℕ → Array ℕ → Publisher
check_publisher (trying offset) active readers =
    if readers (candidate_of active offset) == 0
    then copying (candidate_of active offset)
    else next_try offset
check_publisher p active readers = p

abbrev pub copy_publisher : Publisher → Board → Board
copy_publisher (copying c) b = record b {
  publisher = copied c;
  published_stats = store b.published_stats c b.stats;
}
copy_publisher p b = b

abbrev pub store_publisher : Publisher → Board → Board
store_publisher (copied c) b = record b { publisher = idle; active_stats_snapshot = c }
store_publisher p b = b

abbrev pub load_reader : Reader → ℕ → Reader
load_reader outside active = loaded active
load_reader r active = r

abbrev pub count_reader : Reader → Board → Board
count_reader (loaded i) b = record b {
  reader = counted i;
  stats_snapshot_readers = store b.stats_snapshot_readers i (b.stats_snapshot_readers i + 1);
}
count_reader r b = b

abbrev pub check_reader : Reader → ℕ → Reader
check_reader (counted i) active = if active == i then confirmed i else leaving i
check_reader r active = r

abbrev pub copy_reader : Reader → Reader
copy_reader (confirmed i) = leaving i
copy_reader r = r

abbrev pub leave_reader : Reader → Board → Board
leave_reader (leaving i) b = record b {
  reader = outside;
  stats_snapshot_readers = store b.stats_snapshot_readers i (b.stats_snapshot_readers i - 1);
}
leave_reader r b = b

-- One action; an action that is not the next one of its task changes nothing.
unfoldable pub act : Action → Board → Board
act publisher_starts b = record b { publisher = start_publisher b.publisher }
act publisher_checks b = record b {
  publisher = check_publisher b.publisher b.active_stats_snapshot b.stats_snapshot_readers;
}
act publisher_copies b = copy_publisher b.publisher b
act publisher_stores b = store_publisher b.publisher b
act reader_loads b = record b { reader = load_reader b.reader b.active_stats_snapshot }
act reader_counts b = count_reader b.reader b
act reader_checks b = record b { reader = check_reader b.reader b.active_stats_snapshot }
act reader_copies b = record b { reader = copy_reader b.reader }
act reader_leaves b = leave_reader b.reader b
act (other_enters k) b = record b {
  stats_snapshot_readers = store b.stats_snapshot_readers k (b.stats_snapshot_readers k + 1);
  other_readers = store b.other_readers k (b.other_readers k + 1);
}
act (other_leaves k) b = if b.other_readers k == 0 then b else record b {
  stats_snapshot_readers = store b.stats_snapshot_readers k (b.stats_snapshot_readers k - 1);
  other_readers = store b.other_readers k (b.other_readers k - 1);
}
act (stats_change s) b = record b { stats = s }

unfoldable pub run : List Action → Board → Board
unfolding act
run [] b = b
run (a ∷ rest) b = run rest (act a b)
