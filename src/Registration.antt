-- ===== src/Registration.antt =====
-- aether/ae_actions/registration/registration.h and .cpp: the registration of a client. What the code
-- writes to its streams and what it reports are results of the step. A subscription is told by whether
-- it is there; `Once` takes it away when it is called. Keys, signatures and the parameters of the proof
-- of work are opaque, and so is `CryptoSignVerify`. A stream is told by the key of its `CryptoGate`. Reading the servers of the cloud into objects is
-- left out: the configuration of the client holds the message's servers. So are the keys that the code
-- generates itself, and the other gates of the streams. The use of a null pointer is an effect of its
-- own, after which nothing that the model says counts.
pub mod Types
pub mod Run
pub mod Keys
pub mod Trust
pub mod Servers
mod Tests
use aether_client_cpp_new.Prelude.{
  ℕ, ◌+◌, Bool, true, false, Option, none, some, List, [], ◌∷◌, ltb, if◌then◌else◌,
}
use aether_client_cpp_new.StateMachine.{StateMachine, of_state, set, acquire}
pub use aether_client_cpp_new.Registration.Types.{
  State, connection, waiting_connection, connected, get_keys, wait_keys, get_pow_params,
  make_registration, request_cloud_resolving, registered, registration_failed, State-discrete,
  Stream, plain, encrypted, Registration, Effect, connect, get_asymmetric_public_key,
  request_proof_of_work_data, registration, set_master_key, resolve_servers, set_config,
  null_dereference, result, error,
}

module _ {Key Sign PowParams : Type 0} where
  -- `state_.Set`
  unfoldable pub set_state :
      State → Registration Key Sign PowParams → Registration Key Sign PowParams
  unfolding set State-discrete
  set_state s r = record r { state = (set State-discrete s r.state).0 }

  -- the constructor
  unfoldable pub create : List ℕ → Key → Registration Key Sign PowParams
  unfolding of_state
  create servers sign_pk = record {
    servers = servers;
    current_server_transport = none;
    state = of_state connection;
    response_timeout = 20;
    last_request_time = 0;
    sign_pk = sign_pk;
    server_pub_key = none;
    aether_global_key = none;
    pow_params = none;
    uid = 0;
    ephemeral_uid = 0;
    cloud = [];
    server_sync_key_provider = false;
    reg_server_stream = none;
    connection_success_subscription = false;
    connection_error_subscription = false;
    raw_transport_send_action_subscription = false;
    reg_server_write_subscription = false;
  }

  -- `IterateConnection`
  unfoldable pub iterate_connection :
      Registration Key Sign PowParams
      → Registration Key Sign PowParams × List (Effect Key Sign PowParams)
  unfolding set_state
  iterate_connection r = elim r.servers [
    | [] ↦ (set_state registration_failed r, [])
    | server ∷ more ↦ (
      set_state waiting_connection (record r {
        current_server_transport = some server;
        connection_success_subscription = true;
        connection_error_subscription = true;
        servers = more;
      }),
      connect server ∷ [],
    )
  ]

  -- the handlers of the transport's events
  unfoldable pub on_connection_success :
      Registration Key Sign PowParams → Registration Key Sign PowParams
  unfolding set_state
  on_connection_success r =
      if r.connection_success_subscription
      then set_state connected (record r { connection_success_subscription = false })
      else r

  unfoldable pub on_connection_error :
      Registration Key Sign PowParams → Registration Key Sign PowParams
  unfolding set_state
  on_connection_error r =
      if r.connection_error_subscription
      then set_state connection (record r { connection_error_subscription = false })
      else r

  -- `Connected`; `aether` tells whether the weak pointer still has its object.
  unfoldable pub connected_to :
      Bool → Registration Key Sign PowParams → Registration Key Sign PowParams
  unfolding set_state
  connected_to aether r =
      if aether then set_state get_keys (record r { reg_server_stream = some plain }) else r

  -- what is written through `reg_server_stream_`, and what follows
  unfoldable pub write_through :
      (Stream Key → List (Effect Key Sign PowParams))
      → Registration Key Sign PowParams
      → Registration Key Sign PowParams
      → Registration Key Sign PowParams × List (Effect Key Sign PowParams)
  write_through effects r r' = elim r.reg_server_stream [
    | none ↦ (r, null_dereference ∷ [])
    | some stream ↦ (r', effects stream)
  ]

  -- `GetKeys`
  unfoldable pub request_keys :
      ℕ
      → Registration Key Sign PowParams
      → Registration Key Sign PowParams × List (Effect Key Sign PowParams)
  unfolding set_state write_through
  request_keys current_time r =
      write_through (λ stream. get_asymmetric_public_key stream ∷ []) (set_state wait_keys r)
        (record (set_state wait_keys r) {
          raw_transport_send_action_subscription = true;
          last_request_time = current_time;
        })

  -- the handlers of a failed write, of the request for keys and of the others
  unfoldable pub on_raw_write_error :
      Registration Key Sign PowParams → Registration Key Sign PowParams
  unfolding set_state
  on_raw_write_error r =
      if r.raw_transport_send_action_subscription then set_state connection r else r

  unfoldable pub on_write_error : Registration Key Sign PowParams → Registration Key Sign PowParams
  unfolding set_state
  on_write_error r =
      if r.reg_server_write_subscription
      then set_state registration_failed (record r { reg_server_write_subscription = false })
      else r

  -- `WaitKeys`
  unfoldable pub wait_for_keys :
      ℕ → Registration Key Sign PowParams → ℕ × Registration Key Sign PowParams
  unfolding set_state
  wait_for_keys current_time r =
      if ltb (r.last_request_time + r.response_timeout) current_time
      then (current_time, set_state get_keys r)
      else (r.last_request_time + r.response_timeout, r)

  -- `RequestPowParams`, with `CreateRegServerStream`
  unfoldable pub request_pow_params :
      Bool
      → Registration Key Sign PowParams
      → Registration Key Sign PowParams × List (Effect Key Sign PowParams)
  unfolding write_through
  request_pow_params aether r =
      let made : Registration Key Sign PowParams = record r {
        server_sync_key_provider = true;
        reg_server_stream = if aether then some (encrypted r.server_pub_key) else none;
      } in
      write_through (λ stream. request_proof_of_work_data stream ∷ []) made
        (record made { reg_server_write_subscription = true })

  -- `MakeRegistration`, with `CreateGlobalRegServerStream`. The message of the registration, with the
  -- key of `server_sync_key_provider_`, is added behind the `CryptoGate` of the global key.
  unfoldable pub make_client :
      Registration Key Sign PowParams
      → Registration Key Sign PowParams × List (Effect Key Sign PowParams)
  unfolding write_through
  make_client r =
      if r.server_sync_key_provider
      then write_through
          (λ stream.
            registration r.pow_params stream ∷ set_master_key r.aether_global_key stream ∷ [])
          r (record r { reg_server_write_subscription = true })
      else (r, null_dereference ∷ [])

  -- `OnConfirmRegistration`
  unfoldable pub on_confirm_registration :
      ℕ → ℕ → List ℕ → Registration Key Sign PowParams → Registration Key Sign PowParams
  unfolding set_state
  on_confirm_registration ephemeral_uid uid cloud r =
      set_state request_cloud_resolving
        (record r { ephemeral_uid = ephemeral_uid; uid = uid; cloud = cloud })

  -- `ResolveCloud`
  unfoldable pub resolve_cloud :
      Registration Key Sign PowParams
      → Registration Key Sign PowParams × List (Effect Key Sign PowParams)
  unfolding write_through
  resolve_cloud r =
      write_through (λ stream. resolve_servers r.cloud stream ∷ []) r
        (record r { reg_server_write_subscription = true })

  -- `OnResolveCloudResponse`
  unfoldable pub on_resolve_cloud_response :
      Bool
      → List ℕ
      → Registration Key Sign PowParams
      → Registration Key Sign PowParams × List (Effect Key Sign PowParams)
  unfolding set_state
  on_resolve_cloud_response aether servers r =
      if aether
      then (set_state registered r, set_config r.uid r.ephemeral_uid servers ∷ [])
      else (r, [])

  -- the first `switch` of `Update`, on the state that `Acquire` returns
  unfoldable pub act_on :
      State
      → Bool
      → ℕ
      → Registration Key Sign PowParams
      → Registration Key Sign PowParams × List (Effect Key Sign PowParams)
  unfolding iterate_connection connected_to request_keys request_pow_params make_client
      resolve_cloud
  act_on connection aether current_time r = iterate_connection r
  act_on waiting_connection aether current_time r = (r, [])
  act_on connected aether current_time r = (connected_to aether r, [])
  act_on get_keys aether current_time r = request_keys current_time r
  act_on wait_keys aether current_time r = (r, [])
  act_on get_pow_params aether current_time r = request_pow_params aether r
  act_on make_registration aether current_time r = make_client r
  act_on request_cloud_resolving aether current_time r = resolve_cloud r
  act_on registered aether current_time r = (r, result ∷ [])
  act_on registration_failed aether current_time r = (r, error ∷ [])

  -- the second one
  unfoldable pub wait_on :
      State → ℕ → Registration Key Sign PowParams → ℕ × Registration Key Sign PowParams
  unfolding wait_for_keys
  wait_on wait_keys current_time r = wait_for_keys current_time r
  wait_on s current_time r = (current_time, r)

  unfoldable pub acquired :
      Bool
      → ℕ
      → Registration Key Sign PowParams
      → Registration Key Sign PowParams × List (Effect Key Sign PowParams)
  unfolding acquire act_on
  acquired aether current_time r =
      let (s, m) = acquire r.state in
      if r.state.changed then act_on s aether current_time (record r { state = m }) else (r, [])

  -- `Update`
  unfoldable pub update :
      Bool
      → ℕ
      → Registration Key Sign PowParams
      → ℕ × Registration Key Sign PowParams × List (Effect Key Sign PowParams)
  unfolding acquired wait_on
  update aether current_time r =
      let (r', effects) = acquired aether current_time r in
      let (time, r'') = wait_on r'.state.state current_time r' in (time, r'', effects)

module _ {Key Sign PowParams : Type 0} (crypto_sign_verify : Sign → Key → Key → Bool) where
  -- `OnGetKeysResponse`
  unfoldable pub on_get_keys_response :
      Sign → Key → Registration Key Sign PowParams → Registration Key Sign PowParams
  unfolding set_state
  on_get_keys_response sign key r =
      if crypto_sign_verify sign key r.sign_pk
      then set_state get_pow_params (record r { server_pub_key = some key })
      else set_state registration_failed r

  -- `OnResponsePowParams`
  unfoldable pub on_response_pow_params :
      Sign → Key → PowParams → Registration Key Sign PowParams → Registration Key Sign PowParams
  unfolding set_state
  on_response_pow_params sign key params r =
      if crypto_sign_verify sign key r.sign_pk
      then set_state make_registration
          (record r { aether_global_key = some key; pow_params = some params })
      else set_state registration_failed r
