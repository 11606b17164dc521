-- ===== src/SafeStream/Action.antt =====
-- aether/stream_api/safe_stream/sending_data_action.cpp: one write of the user and its state.
use aether_client_cpp_new.Prelude.{
  ℕ, Bool, true, false, Option, none, some, List, if◌then◌else◌, length,
}
use aether_client_cpp_new.Ring.{plus}
use aether_client_cpp_new.StateMachine.{StateMachine, of_state, set, acquire}
use aether_client_cpp_new.SafeStream.Types.{max_index, u16, sub_size, OffsetRange}

-- `SendingDataAction::State`
pub data State : Type 0 where
  waiting sending done stopped failed : State

unfoldable pub State-discrete : Discrete State
State-discrete = hlevel

-- `SendingDataAction` with its `SendingData`
pub record SendingDataAction : Type 0 where
  pub offset : ℕ
  pub bytes : List ℕ
  pub state : StateMachine State

-- the constructor
unfoldable pub new_action : ℕ → List ℕ → SendingDataAction
unfolding of_state
new_action offset bytes = record { offset = offset; bytes = bytes; state = of_state waiting }

-- `get_offset_range`
unfoldable pub get_offset_range : SendingDataAction → ℕ → OffsetRange
get_offset_range a window_size = record {
  begin = a.offset;
  end = plus max_index a.offset (u16 (sub_size (length a.bytes) 1));
  window_size = window_size;
}

unfoldable pub set_state : State → SendingDataAction → SendingDataAction
unfolding set State-discrete
set_state s a = record a { state = (set State-discrete s a.state).0 }

-- `Sending`, `SentConfirmed`, `Stopped` and `Failed`
unfoldable pub mark_sending : SendingDataAction → SendingDataAction
unfolding set_state
mark_sending = set_state sending

unfoldable pub sent_confirmed : SendingDataAction → SendingDataAction
unfolding set_state
sent_confirmed = set_state done

unfoldable pub mark_stopped : SendingDataAction → SendingDataAction
unfolding set_state
mark_stopped = set_state stopped

unfoldable pub mark_failed : SendingDataAction → SendingDataAction
unfolding set_state
mark_failed = set_state failed

-- `Stop`: whether the stop event is emitted
unfoldable pub stop_requested : SendingDataAction → Bool
stop_requested a = elim a.state.state [ sending ↦ false | _ ↦ true ]

-- what `Update` reports to the subscribers of the action
pub data Notice : Type 0 where
  result stop error : Notice

unfoldable pub notice_of : State → Option Notice
notice_of waiting = none
notice_of sending = none
notice_of done = some result
notice_of stopped = some stop
notice_of failed = some error

unfoldable pub update : SendingDataAction → SendingDataAction × Option Notice
unfolding notice_of acquire
update a =
    if a.state.changed
    then (let (s, m) = acquire a.state in (record a { state = m }, notice_of s))
    else (a, none)
