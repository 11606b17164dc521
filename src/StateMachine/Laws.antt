-- ===== src/StateMachine/Laws.antt =====
-- The state after `Set` of state_machine.h.
use aether_client_cpp_new.Prelude.{◌≡◌, refl, Option, none, some, true}
use mathlib.Core.Logic.{ite}
use aether_client_cpp_new.StateMachine.{StateMachine, set}

module _ {A : Type 0} where
  pub set-state : (eq : Discrete A) (val : A) (m : StateMachine A) → (set eq val m).0.state ≡ val
  unfolding set
  set-state eq val m = by_case (eq m.state val)
    where
      by_case :
          (d : Dec (m.state ≡ val))
          → (ite {C = StateMachine A × Option A} d
              (m, none)
              (record { changed = true; state = val }, some val)).0.state
            ≡ val
      by_case (yes e) = e
      by_case (no n) = refl
