-- ===== src/StateMachine.antt =====
-- aether/state_machine.h: `StateMachine<TEnum>`, a state with a flag that it changed.
pub mod Laws
use aether_client_cpp_new.Prelude.{Bool, true, false, Option, none, some}
use mathlib.Core.Logic.{ite}

pub record StateMachine (A : Type 0) : Type 0 where
  pub changed : Bool
  pub state : A

module _ {A : Type 0} where
  -- the constructor from a value
  unfoldable pub of_state : A → StateMachine A
  of_state val = record { changed = true; state = val }

  -- `Acquire`: the state, and the machine marked unchanged
  unfoldable pub acquire : StateMachine A → A × StateMachine A
  acquire m = (m.state, record m { changed = false })

  -- `Set`, with what `changed_event_` emits; `eq` decides `!=` on the enumeration
  unfoldable pub set : Discrete A → A → StateMachine A → StateMachine A × Option A
  set eq val m = ite (eq m.state val) (m, none) (record { changed = true; state = val }, some val)
