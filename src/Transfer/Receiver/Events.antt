-- ===== src/Transfer/Receiver/Events.antt =====
-- The receiver as a machine: what can happen to it, one event after the other.
use unseen_fyi.Prelude.{ℕ, Bool, Option, String, List, [], ◌∷◌, ltb, if◌then◌else◌}
use unseen_fyi.Wire.Envelope.{FileCancelReason, FileCancelSide}
use unseen_fyi.Transfer.Chunks.{ChunkPlaintext}
use unseen_fyi.Transfer.Receiver.{Worker, State, get_receiving_state}
use unseen_fyi.Transfer.Receiver.Arrival.{
  WorkerOut, handle_worker_message, handle_worker_error, receive_chunk, dispatch_complete,
  cleanup_finished,
}
use unseen_fyi.Transfer.Receiver.Acceptance.{
  Spawn, dispatch_offer, offer_timer_fires, accept_offer, continue_accept,
}
use unseen_fyi.Transfer.Receiver.Ending.{
  stall_timer_fires, decline_offer, cancel_active, dispatch_cancel, page_hidden, on_ws_close,
  shutdown,
}

-- In `chunk_arrived` and `worker_said` the flag is whether the post to the worker that may follow
-- throws; in `answered` it is what `workerReady` or `sendEnvelope` gave.
pub data Event : Type 0 where
  offered : String → String → ℕ → Event
  accept_clicked : Spawn → Event
  answered : Bool → Event
  decline_clicked : Event
  cancel_requested : FileCancelReason → Event
  chunk_arrived : Bool → ChunkPlaintext → Event
  completed : String → String → Event
  cancelled : String → FileCancelSide → FileCancelReason → Event
  worker_said : Bool → ℕ → WorkerOut → Worker → Event
  worker_failed : Worker → Event
  offer_timed stall_timed cleaned hidden ws_closed shut_down : Event
  sender_changed : Bool → Event

module _ (sanitize : String → Option String) where
  -- `sender_changed` is the file sender's, which starts a transfer only while none comes in.
  unfoldable pub step : Event → State → State
  step (offered tid name size) s = dispatch_offer sanitize tid name size s
  step (accept_clicked sp) s = accept_offer sp s
  step (answered answer) s = continue_accept answer s.accepting s
  step decline_clicked s = decline_offer s
  step (cancel_requested reason) s = cancel_active reason s
  step (chunk_arrived throws parsed) s = receive_chunk throws parsed (get_receiving_state s) s
  step (completed tid sha) s = dispatch_complete tid sha s
  step (cancelled tid side reason) s = dispatch_cancel tid side reason s
  step (worker_said throws now msg w) s = handle_worker_message throws now msg w s
  step (worker_failed w) s = handle_worker_error w s
  step offer_timed s = offer_timer_fires s
  step stall_timed s = stall_timer_fires s
  step cleaned s = if ltb 0 s.failing then cleanup_finished s else s
  step hidden s = page_hidden s
  step ws_closed s = on_ws_close s
  step shut_down s = shutdown s
  step (sender_changed active) s = record s { transfer_active = active }

  unfoldable pub run : List Event → State → State
  unfolding step
  run [] s = s
  run (e ∷ events) s = run events (step e s)
