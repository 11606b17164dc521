-- ===== src/Registration/Tests.antt =====
-- Runs of a registration. A signature is right here if it is the key itself.
use aether_client_cpp_new.Prelude.{ℕ, ◌≡◌, refl, Bool, true, some, List, [], ◌∷◌, ◌++◌, All, ◌==◌}
use aether_client_cpp_new.Registration.{
  Registration, registered, plain, encrypted, connect, get_asymmetric_public_key,
  request_proof_of_work_data, registration, set_master_key, null_dereference, set_config, create,
  update, on_connection_success, on_connection_error, on_get_keys_response, on_response_pow_params,
  on_resolve_cloud_response,
}
use aether_client_cpp_new.Registration.Run.{
  Event, connection_success, connection_error, get_keys_response, response_pow_params,
  resolve_cloud_response, tick, run,
}
use aether_client_cpp_new.Registration.Keys.{IsTrusted}
use aether_client_cpp_new.Registration.Trust.{run_trusts}
use aether_client_cpp_new.Registration.Servers.{connects, run-connects}

abbrev verify : ℕ → ℕ → ℕ → Bool
verify sign key pinned = sign == key

abbrev start : Registration ℕ ℕ ℕ
start = create (1 ∷ 2 ∷ []) 5

-- The first server fails, the second one answers.
abbrev history : List (Event ℕ ℕ ℕ)
history =
    tick true 1
    ∷ connection_error
    ∷ tick true 2
    ∷ connection_success
    ∷ tick true 3
    ∷ tick true 4
    ∷ get_keys_response 7 7
    ∷ tick true 5
    ∷ []

written :
    (run verify start history).1
    ≡ connect 1
      ∷ connect 2
      ∷ get_asymmetric_public_key plain
      ∷ request_proof_of_work_data (encrypted (some 7))
      ∷ []
unfolding run create update on_connection_success on_connection_error on_get_keys_response
written = refl

run_trusts_example : All (IsTrusted verify 5) (run verify start history).1
run_trusts_example = run_trusts verify 5 (1 ∷ 2 ∷ []) history

run-connects_example :
    let out = run verify start history in connects out.1 ++ out.0.servers ≡ 1 ∷ 2 ∷ []
run-connects_example = run-connects verify (1 ∷ 2 ∷ []) 5 history

-- A response that nothing asked for registers the client, with an identity that it never got.
unasked :
    (run verify start (resolve_cloud_response true (9 ∷ []) ∷ [])).1 ≡ set_config 0 0 (9 ∷ []) ∷ []
unfolding run create on_resolve_cloud_response
unasked = refl

ends_registered :
    (run verify start (resolve_cloud_response true (9 ∷ []) ∷ [])).0.state.state ≡ registered
unfolding run create on_resolve_cloud_response
ends_registered = refl

-- The connection fails after the request for the proof of work. The response comes when the next
-- connection has its plain stream, and the registration is written through that one.
abbrev reconnected : List (Event ℕ ℕ ℕ)
reconnected =
    tick true 1
    ∷ connection_success
    ∷ tick true 2
    ∷ tick true 3
    ∷ get_keys_response 7 7
    ∷ tick true 4
    ∷ connection_error
    ∷ tick true 5
    ∷ connection_success
    ∷ tick true 6
    ∷ response_pow_params 8 8 3
    ∷ tick true 7
    ∷ []

plain_registration :
    (run verify start reconnected).1
    ≡ connect 1
      ∷ get_asymmetric_public_key plain
      ∷ request_proof_of_work_data (encrypted (some 7))
      ∷ connect 2
      ∷ registration (some 3) plain
      ∷ set_master_key (some 8) plain
      ∷ []
unfolding run create update on_connection_success on_connection_error on_get_keys_response
    on_response_pow_params
plain_registration = refl

-- Parameters that nothing asked for make it use keys and a stream that are not there.
unasked_params :
    (run verify start (response_pow_params 8 8 3 ∷ tick true 1 ∷ [])).1 ≡ null_dereference ∷ []
unfolding run create update on_response_pow_params
unasked_params = refl
