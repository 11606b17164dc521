-- ===== src/SafeStream/Buffer/Tests.antt =====
-- Runs of `SendDataBuffer`.
use aether_client_cpp_new.Prelude.{ℕ, ◌≡◌, arith, List, [], ◌∷◌, true, All}
use aether_client_cpp_new.SafeStream.Action.{
  SendingDataAction, waiting, sent_confirmed, mark_failed, mark_stopped,
}
use aether_client_cpp_new.SafeStream.Buffer.{SendDataBuffer, get_slice, confirm, reject, stop}
use aether_client_cpp_new.SafeStream.Buffer.Marks.{shapes}
use aether_client_cpp_new.SafeStream.Buffer.Contiguous.{joined, Contiguous, get_slice_lem}
use aether_client_cpp_new.SafeStream.Buffer.Release.{
  Released, IsNear, IsCounted, confirm_lem, reject_lem, stop_lem,
}
use aether_client_cpp_new.SafeStream.Buffer.FarAhead.{confirm_far_ahead}

abbrev action : ℕ → List ℕ → SendingDataAction
action offset bytes = record {
  offset = offset;
  bytes = bytes;
  state = record { changed = true; state = waiting };
}

abbrev buffer : SendDataBuffer
buffer = record {
  window_size = 20;
  views = action 5 (1 ∷ 2 ∷ 3 ∷ []) ∷ action 8 (4 ∷ 5 ∷ []) ∷ [];
  finished = [];
  buffer_size = 5;
}

get_slice_lem_example :
    let (bytes, b') = get_slice buffer 6 3 in
    (bytes ≡ 2 ∷ 3 ∷ 4 ∷ [])
    × Contiguous b'.window_size 5 b'.views
    × (joined b'.views ≡ 1 ∷ 2 ∷ 3 ∷ 4 ∷ 5 ∷ [])
    × (b'.buffer_size ≡ 5)
    × (shapes b'.views ≡ (5, 1 ∷ 2 ∷ 3 ∷ []) ∷ (8, 4 ∷ 5 ∷ []) ∷ [])
get_slice_lem_example =
    get_slice_lem buffer 5 6 3 (omega arith) (omega arith) (omega arith) (omega arith)

buffer-IsNear : All (IsNear 20 8) buffer.views
buffer-IsNear = omega arith

buffer-IsCounted : IsCounted buffer
buffer-IsCounted = omega arith

confirm_lem_example :
    Released sent_confirmed
      (action 5 (1 ∷ 2 ∷ 3 ∷ []) ∷ [])
      (action 8 (4 ∷ 5 ∷ []) ∷ [])
      buffer
      (confirm buffer 8)
confirm_lem_example =
    confirm_lem buffer 8 (omega arith) (omega arith) buffer-IsNear buffer-IsCounted

reject_lem_example :
    Released mark_failed
      (action 5 (1 ∷ 2 ∷ 3 ∷ []) ∷ action 8 (4 ∷ 5 ∷ []) ∷ [])
      []
      buffer
      (reject buffer 8)
reject_lem_example = reject_lem buffer 8 (omega arith) (omega arith) buffer-IsNear buffer-IsCounted

stop_lem_example :
    Released mark_stopped
      (action 5 (1 ∷ 2 ∷ 3 ∷ []) ∷ action 8 (4 ∷ 5 ∷ []) ∷ [])
      []
      buffer
      (stop buffer 8)
stop_lem_example = stop_lem buffer 8 (omega arith) (omega arith) buffer-IsNear buffer-IsCounted

-- Data at offset 30 with a window of 20, when offset 4 is confirmed.
abbrev ahead : SendDataBuffer
ahead = record buffer { views = action 30 (1 ∷ 2 ∷ 3 ∷ []) ∷ []; buffer_size = 3 }

confirm_far_ahead_example :
    ((confirm ahead 4).views ≡ [])
    × ((confirm ahead 4).finished ≡ sent_confirmed (action 30 (1 ∷ 2 ∷ 3 ∷ [])) ∷ [])
confirm_far_ahead_example = confirm_far_ahead ahead 4 (omega arith) (omega arith)
