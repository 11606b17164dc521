-- ===== src/Registration/Types.antt =====
-- The state of registration.h, and what registration.cpp does to its surroundings.
use aether_client_cpp_new.Prelude.{ℕ, Bool, Option, List}
use aether_client_cpp_new.StateMachine.{StateMachine}

-- `Registration::State`
pub data State : Type 0 where
  connection waiting_connection connected get_keys wait_keys get_pow_params make_registration :
      State
  request_cloud_resolving registered registration_failed : State

unfoldable pub State-discrete : Discrete State
State-discrete = hlevel

-- `reg_server_stream_`: the plain one of `Connected`, or the one of `CreateRegServerStream` with the
-- public key that it encrypts with
pub data Stream (Key : Type 0) : Type 0 where
  plain : Stream Key
  encrypted : Option Key → Stream Key

module _ (Key Sign PowParams : Type 0) where
  -- `Registration`; `servers` are those from the list's iterator on
  pub record Registration : Type 0 where
    pub servers : List ℕ
    pub current_server_transport : Option ℕ
    pub state : StateMachine State
    pub response_timeout : ℕ
    pub last_request_time : ℕ
    pub sign_pk : Key
    pub server_pub_key : Option Key
    pub aether_global_key : Option Key
    pub pow_params : Option PowParams
    pub uid : ℕ
    pub ephemeral_uid : ℕ
    pub cloud : List ℕ
    pub server_sync_key_provider : Bool
    pub reg_server_stream : Option (Stream Key)
    pub connection_success_subscription : Bool
    pub connection_error_subscription : Bool
    pub raw_transport_send_action_subscription : Bool
    pub reg_server_write_subscription : Bool

  -- What the code does to its surroundings, and the stream that a message is written through. The
  -- master key goes through the `CryptoGate` of the global key first, `registration` behind it.
  pub data Effect : Type 0 where
    connect : ℕ → Effect
    get_asymmetric_public_key : Stream Key → Effect
    request_proof_of_work_data : Stream Key → Effect
    registration : Option PowParams → Stream Key → Effect
    set_master_key : Option Key → Stream Key → Effect
    resolve_servers : List ℕ → Stream Key → Effect
    set_config : ℕ → ℕ → List ℕ → Effect
    null_dereference result error : Effect
