-- ===== src/Tests/Samples.antt =====
-- A gateway with a few frames in its rings, and what it calls, as concrete values.
use signal_scope_api.Base.{
  ℕ, ◌+◌, ◌*◌, refl, arith, Bool, true, false, [], Array, ◌==◌, if◌then◌else◌,
}
use signal_scope_api.Frame.{CanFrame, Direction, a_to_b, b_to_a, Bytes, both_lanes, lane, u32}
use signal_scope_api.Gateway.State.{Gateway, Peers, PreparedFrame}
use signal_scope_api.Gateway.Settings.{no_stats}
use signal_scope_api.Gateway.Queues.Ingress.{IsIngress}
use signal_scope_api.Gateway.Queues.Egress.{IsEgress}
use signal_scope_api.Gateway.Forward.{System}
use signal_scope_api.Gateway.Forward.Steps.{KeepsIdentity}
use signal_scope_api.Gateway.Poll.Order.{IsSound}

abbrev pub payload : Bytes
payload i = 16 * i + 5

abbrev pub frame_of : ℕ → Direction → CanFrame
frame_of id d = record { id = id; dlc = 8; bytes = payload; timestamp_us = 7; direction = d }

-- A clock that advances by 3, a driver that refuses every second frame, and one rule for frame 0x101.
abbrev pub sample_peers : Peers
sample_peers = record {
  World = ℕ × Bool;
  tx_driver = λ d f w. (w.1, (w.0, if w.1 then false else true));
  micros = λ w. (u32 (w.0), (u32 (w.0 + 3), w.1));
  millis = λ w. (u32 (w.0), (u32 (w.0 + 3), w.1));
  has_rules_for_frame = λ id d w. id == 0x101;
  apply_frame_mutations = λ f w. (1, record f { bytes = λ i. 255 }, w);
  is_observed = λ id d w. id == 0x102;
  dbc_loaded = λ w. true;
  decode_observed_frame = λ f w. (2, w);
  frame_cache_update = λ f now m g syn w. w;
  frame_cache_update_passive = λ f now syn w. w;
  ingress_frame_cache_update = λ f now syn w. w;
  trace_callback = λ f g m syn w. w;
}

pub sample_peers-KeepsIdentity : KeepsIdentity sample_peers
sample_peers-KeepsIdentity = record { id-apply = λ f w. refl; direction-apply = λ f w. refl }

abbrev frames_of : Direction → Array CanFrame
frames_of d i = frame_of (0x100 + i) d

abbrev prepared_of : Direction → Array PreparedFrame
prepared_of d i = record {
  frame = frame_of (0x200 + i) d;
  processing_start_us = 1;
  active_path = false;
}

-- Three frames of direction A to B at ingress, across the end of the ring, and one of B to A; two
-- frames wait for the driver of direction A to B.
abbrev pub sample_gateway : Gateway
sample_gateway = record {
  raw = record {
    lane_a_to_b = record { frames = frames_of a_to_b; head = 1; tail = 126 };
    lane_b_to_a = record { frames = frames_of b_to_a; head = 3; tail = 2 };
  };
  next_raw_direction = a_to_b;
  egress = record {
    lane_a_to_b = record { frames = prepared_of a_to_b; head = 1; tail = 63; count = 2 };
    lane_b_to_a = record { frames = prepared_of b_to_a; head = 5; tail = 5; count = 0 };
  };
  next_egress_flush_direction = b_to_a;
  wiring = record {
    mutation_engine = true;
    replay_engine = true;
    tx_driver = true;
    trace_callback = false;
    frame_cache = true;
    ingress_frame_cache = true;
    signal_cache = true;
    observation_manager = true;
    dbc_active_ptr = true;
  };
  signal_decode_enabled = true;
  signal_decode_readers = 0;
  active_can_writes_allowed = true;
  mutation_direction_mask = 3;
  ready_gate = true;
  stats = no_stats;
  published_stats = λ i. no_stats;
  active_stats_snapshot = 2;
  stats_snapshot_readers = λ i. if i == 0 then 1 else 0;
}

abbrev pub sample_system : System (ℕ × Bool)
sample_system = record { core = sample_gateway; world = (1000, true); sent = both_lanes [] }

pub sample-IsIngress : (d : Direction) → IsIngress d (lane d sample_gateway.raw)
sample-IsIngress a_to_b = record {
  head_in = omega arith;
  tail_in = omega arith;
  directions = (refl, (refl, (refl, tt)));
}
sample-IsIngress b_to_a = record {
  head_in = omega arith;
  tail_in = omega arith;
  directions = (refl, tt);
}

pub sample-IsEgress : (d : Direction) → IsEgress d (lane d sample_gateway.egress)
sample-IsEgress a_to_b = record {
  tail_in = omega arith;
  count_in = omega arith;
  head_at = refl;
  directions = (refl, (refl, tt));
}
sample-IsEgress b_to_a = record {
  tail_in = omega arith;
  count_in = omega arith;
  head_at = refl;
  directions = tt;
}

pub sample-IsSound : IsSound sample_gateway.raw sample_gateway.egress
sample-IsSound = record { ingress_sound = sample-IsIngress; egress_sound = sample-IsEgress }
