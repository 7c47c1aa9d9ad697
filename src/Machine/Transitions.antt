-- ===== src/Machine/Transitions.antt =====
-- The moves of an abstract transition system of the states and events of
-- src/capture_state_machine.cpp.
use hamstercam.Base.{◌≡◌, ◌≢◌, ◌⊎◌, true, false, ◌∷◌, add_u64}
use hamstercam.Event.{EventType, plain_event, format_event, change_event}
use hamstercam.Stats.{device_absent, awaiting_producer, streaming}
use hamstercam.Machine.State.{Machine}

-- `Move m n`: what a step from `m` to `n` may do to the state, to the flags that tell the two kinds
-- of `awaiting_producer` and the first stream apart, and to the events.
pub data Move {W F : Type 0} (m n : Machine W F) : Type 0 where
  stay :
      n.state ≡ m.state
      → n.recovering ≡ m.recovering
      → n.has_streamed_before ≡ m.has_streamed_before
      → n.events ≡ m.events
      → n.stats.stalls ≡ m.stats.stalls
      → n.stats.reconnects ≡ m.stats.reconnects
      → Move m n
  open_move :
      m.state ≡ device_absent
      → n.state ≡ awaiting_producer
      → n.recovering ≡ false
      → n.has_streamed_before ≡ m.has_streamed_before
      → n.events
        ≡ plain_event EventType.awaiting_producer ∷ plain_event EventType.device_opened ∷ m.events
      → n.stats.stalls ≡ m.stats.stalls
      → n.stats.reconnects ≡ m.stats.reconnects
      → Move m n
  first_stream_move :
      m.state ≡ awaiting_producer
      → m.recovering ≡ false
      → m.has_streamed_before ≡ false
      → n.state ≡ streaming
      → n.has_streamed_before ≡ true
      → n.events ≡ format_event EventType.streaming_started n.current_format ∷ m.events
      → n.stats.stalls ≡ m.stats.stalls
      → n.stats.reconnects ≡ m.stats.reconnects
      → Move m n
  reconnect_move :
      m.state ≡ awaiting_producer
      → m.recovering ≡ false
      → m.has_streamed_before ≡ true
      → n.state ≡ streaming
      → n.has_streamed_before ≡ true
      → n.events ≡ plain_event EventType.reconnecting ∷ m.events
      → n.stats.stalls ≡ m.stats.stalls
      → n.stats.reconnects ≡ add_u64 m.stats.reconnects 1
      → Move m n
  release_move :
      m.state ≡ streaming
      → n.state ≡ awaiting_producer
      → n.recovering ≡ true
      → n.has_streamed_before ≡ m.has_streamed_before
      → n.events ≡ plain_event EventType.stall_detected ∷ m.events
      → n.stats.stalls ≡ add_u64 m.stats.stalls 1
      → n.stats.reconnects ≡ m.stats.reconnects
      → Move m n
  resume_move :
      m.state ≡ awaiting_producer
      → m.recovering ≡ true
      → n.state ≡ streaming
      → n.has_streamed_before ≡ m.has_streamed_before
      → n.current_format ≡ m.current_format
      → n.events
        ≡ format_event EventType.streaming_started n.current_format
          ∷ plain_event EventType.stall_cleared
          ∷ m.events
      → n.stats.stalls ≡ m.stats.stalls
      → n.stats.reconnects ≡ m.stats.reconnects
      → Move m n
  resume_changed_move :
      m.state ≡ awaiting_producer
      → m.recovering ≡ true
      → n.state ≡ streaming
      → n.has_streamed_before ≡ m.has_streamed_before
      → n.current_format ≢ m.current_format
      → n.events
        ≡ format_event EventType.streaming_started n.current_format
          ∷ change_event EventType.format_changed n.current_format m.current_format
          ∷ plain_event EventType.stall_cleared
          ∷ m.events
      → n.stats.stalls ≡ m.stats.stalls
      → n.stats.reconnects ≡ m.stats.reconnects
      → Move m n
  lose_move :
      (m.state ≡ streaming) ⊎ ((m.state ≡ awaiting_producer) × (m.recovering ≡ true))
      → n.state ≡ device_absent
      → n.has_streamed_before ≡ m.has_streamed_before
      → n.events ≡ plain_event EventType.device_lost ∷ m.events
      → n.stats.stalls ≡ m.stats.stalls
      → n.stats.reconnects ≡ m.stats.reconnects
      → Move m n
