-- ===== src/Registration/Run.antt =====
-- Runs of registration.cpp: messages, events of the transport, failed writes and updates in any order.
use aether_client_cpp_new.Prelude.{ℕ, ◌≡◌, Bool, List, [], ◌∷◌, ◌++◌}
use aether_client_cpp_new.StateMachine.Laws.{set-state}
use aether_client_cpp_new.Registration.{
  State, State-discrete, Registration, Effect, set_state, on_connection_success,
  on_connection_error, on_raw_write_error, on_write_error, on_confirm_registration,
  on_resolve_cloud_response, update, on_get_keys_response, on_response_pow_params,
}

pub data Event (Key Sign PowParams : Type 0) : Type 0 where
  connection_success connection_error raw_write_error write_error : Event Key Sign PowParams
  get_keys_response : Sign → Key → Event Key Sign PowParams
  response_pow_params : Sign → Key → PowParams → Event Key Sign PowParams
  confirm_registration : ℕ → ℕ → List ℕ → Event Key Sign PowParams
  resolve_cloud_response : Bool → List ℕ → Event Key Sign PowParams
  tick : Bool → ℕ → Event Key Sign PowParams

module _ {Key Sign PowParams : Type 0} (crypto_sign_verify : Sign → Key → Key → Bool) where
  unfoldable pub step :
      Registration Key Sign PowParams
      → Event Key Sign PowParams
      → Registration Key Sign PowParams × List (Effect Key Sign PowParams)
  step r connection_success = (on_connection_success r, [])
  step r connection_error = (on_connection_error r, [])
  step r raw_write_error = (on_raw_write_error r, [])
  step r write_error = (on_write_error r, [])
  step r (get_keys_response sign key) = (on_get_keys_response crypto_sign_verify sign key r, [])
  step r (response_pow_params sign key params) =
      (on_response_pow_params crypto_sign_verify sign key params r, [])
  step r (confirm_registration ephemeral_uid uid cloud) =
      (on_confirm_registration ephemeral_uid uid cloud r, [])
  step r (resolve_cloud_response aether servers) = on_resolve_cloud_response aether servers r
  step r (tick aether now) = let (time, r', effects) = update aether now r in (r', effects)

  unfoldable pub run :
      Registration Key Sign PowParams
      → List (Event Key Sign PowParams)
      → Registration Key Sign PowParams × List (Effect Key Sign PowParams)
  unfolding step
  run r [] = (r, [])
  run r (e ∷ es) = let (r', first) = step r e in let (r'', rest) = run r' es in (r'', first ++ rest)

module _ {Key Sign PowParams : Type 0} where
  pub set_state-state :
      (s : State) (r : Registration Key Sign PowParams) → (set_state s r).state.state ≡ s
  unfolding set_state
  set_state-state s r = set-state State-discrete s r.state
