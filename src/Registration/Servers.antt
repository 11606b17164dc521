-- ===== src/Registration/Servers.antt =====
-- The servers that registration.cpp connects to.
use aether_client_cpp_new.Prelude.{
  ℕ, ◌≡◌, refl, ap, ◌∙◌, Bool, true, false, Option, none, some, List, [], ◌∷◌, ◌++◌, append_assoc,
  if◌then◌else◌, Bool-cases, inl, inr, ltb, ◌+◌,
}
use aether_client_cpp_new.StateMachine.{acquire}
use aether_client_cpp_new.Registration.{
  State, connection, waiting_connection, connected, get_keys, wait_keys, get_pow_params,
  make_registration, request_cloud_resolving, registered, registration_failed, Registration, Effect,
  Stream, connect, get_asymmetric_public_key, request_proof_of_work_data, registration,
  set_master_key, null_dereference, write_through, resolve_servers, set_config, result, error,
  set_state, create, iterate_connection, on_connection_success, on_connection_error, connected_to,
  request_keys, on_raw_write_error, on_write_error, wait_for_keys, request_pow_params, make_client,
  on_confirm_registration, resolve_cloud, on_resolve_cloud_response, act_on, wait_on, acquired,
  update, on_get_keys_response, on_response_pow_params,
}
use aether_client_cpp_new.Registration.Run.{
  Event, connection_success, connection_error, raw_write_error, write_error, get_keys_response,
  response_pow_params, confirm_registration, resolve_cloud_response, tick, step, run,
}

module _ {Key Sign PowParams : Type 0} where
  -- the servers that are connected to, in turn
  abbrev pub connects : List (Effect Key Sign PowParams) → List ℕ
  connects [] = []
  connects (connect server ∷ es) = server ∷ connects es
  connects (get_asymmetric_public_key stream ∷ es) = connects es
  connects (request_proof_of_work_data stream ∷ es) = connects es
  connects (registration params stream ∷ es) = connects es
  connects (set_master_key key stream ∷ es) = connects es
  connects (resolve_servers cloud stream ∷ es) = connects es
  connects (null_dereference ∷ es) = connects es
  connects (set_config uid ephemeral_uid servers ∷ es) = connects es
  connects (result ∷ es) = connects es
  connects (error ∷ es) = connects es

  connects-append :
      (es fs : List (Effect Key Sign PowParams)) → connects (es ++ fs) ≡ connects es ++ connects fs
  connects-append [] fs = refl
  connects-append (connect server ∷ es) fs = ap (λ l. server ∷ l) (connects-append es fs)
  connects-append (get_asymmetric_public_key stream ∷ es) fs = connects-append es fs
  connects-append (request_proof_of_work_data stream ∷ es) fs = connects-append es fs
  connects-append (registration params stream ∷ es) fs = connects-append es fs
  connects-append (set_master_key key stream ∷ es) fs = connects-append es fs
  connects-append (resolve_servers cloud stream ∷ es) fs = connects-append es fs
  connects-append (null_dereference ∷ es) fs = connects-append es fs
  connects-append (set_config uid ephemeral_uid servers ∷ es) fs = connects-append es fs
  connects-append (result ∷ es) fs = connects-append es fs
  connects-append (error ∷ es) fs = connects-append es fs

  -- What is connected to and what is left are the servers from before.
  Takes : List ℕ → Registration Key Sign PowParams × List (Effect Key Sign PowParams) → Type 0
  Takes servers out = connects out.1 ++ out.0.servers ≡ servers

  servers-if :
      (servers : List ℕ) (b : Bool) (r r' : Registration Key Sign PowParams)
      → r.servers ≡ servers
      → r'.servers ≡ servers
      → (if b then r else r').servers ≡ servers
  servers-if servers true r r' h h' = h
  servers-if servers false r r' h h' = h'

  Takes-if :
      (servers : List ℕ) (b : Bool)
      (out out' : Registration Key Sign PowParams × List (Effect Key Sign PowParams))
      → Takes servers out
      → Takes servers out'
      → Takes servers (if b then out else out')
  Takes-if servers true out out' h h' = h
  Takes-if servers false out out' h h' = h'

  iterate-Takes : (r : Registration Key Sign PowParams) → Takes r.servers (iterate_connection r)
  unfolding iterate_connection set_state Takes
  iterate-Takes r = by_servers r.servers refl
    where
      by_servers :
          (servers : List ℕ)
          → r.servers ≡ servers
          → Takes servers (elim servers [
            | [] ↦ (set_state registration_failed r, [])
            | server ∷ more ↦ (
              set_state waiting_connection (record r {
                current_server_transport = some server;
                connection_success_subscription = true;
                connection_error_subscription = true;
                servers = more;
              }),
              connect server ∷ [],
            )
          ])
      by_servers [] e = e
      by_servers (server ∷ more) e = refl

  write_through-Takes :
      (effects : Stream Key → List (Effect Key Sign PowParams))
      (r r' : Registration Key Sign PowParams)
      → r'.servers ≡ r.servers
      → ((stream : Stream Key) → connects (effects stream) ≡ [])
      → Takes r.servers (write_through effects r r')
  unfolding write_through Takes
  write_through-Takes effects r r' same none_of = by_stream r.reg_server_stream
    where
      by_stream :
          (o : Option (Stream Key))
          → Takes r.servers
              (elim o [ none ↦ (r, null_dereference ∷ []) | some stream ↦ (r', effects stream) ])
      by_stream none = refl
      by_stream (some stream) = ap (λ l. l ++ r'.servers) (none_of stream) ∙ same

  act_on-Takes :
      (s : State) (aether : Bool) (now : ℕ) (r : Registration Key Sign PowParams)
      → Takes r.servers (act_on s aether now r)
  unfolding act_on connected_to request_keys request_pow_params make_client resolve_cloud set_state
  act_on-Takes connection aether now r = iterate-Takes r
  act_on-Takes waiting_connection aether now r = unfold Takes in refl
  act_on-Takes connected aether now r = unfold Takes in servers-if r.servers aether _ _ refl refl
  act_on-Takes get_keys aether now r = write_through-Takes _ _ _ refl (λ stream. refl)
  act_on-Takes wait_keys aether now r = unfold Takes in refl
  act_on-Takes get_pow_params aether now r = write_through-Takes _ _ _ refl (λ stream. refl)
  act_on-Takes make_registration aether now r =
      Takes-if r.servers r.server_sync_key_provider _ _
        (write_through-Takes _ _ _ refl (λ stream. refl)) (unfold Takes in refl)
  act_on-Takes request_cloud_resolving aether now r =
      write_through-Takes _ _ _ refl (λ stream. refl)
  act_on-Takes registered aether now r = unfold Takes in refl
  act_on-Takes registration_failed aether now r = unfold Takes in refl

  wait_on-servers :
      (s : State) (now : ℕ) (r : Registration Key Sign PowParams)
      → (wait_on s now r).1.servers ≡ r.servers
  unfolding wait_on wait_for_keys set_state
  wait_on-servers wait_keys now r =
      elim (Bool-cases (ltb (r.last_request_time + r.response_timeout) now)) [
        | inl e ↦ rw e refl
        | inr e ↦ rw e refl
      ]
  wait_on-servers connection now r = refl
  wait_on-servers waiting_connection now r = refl
  wait_on-servers connected now r = refl
  wait_on-servers get_keys now r = refl
  wait_on-servers get_pow_params now r = refl
  wait_on-servers make_registration now r = refl
  wait_on-servers request_cloud_resolving now r = refl
  wait_on-servers registered now r = refl
  wait_on-servers registration_failed now r = refl

  acquired-Takes :
      (aether : Bool) (now : ℕ) (r : Registration Key Sign PowParams)
      → Takes r.servers (acquired aether now r)
  unfolding acquired acquire
  acquired-Takes aether now r =
      let quiet : Registration Key Sign PowParams = record r {
        state = record r.state { changed = false };
      } in
      Takes-if r.servers r.state.changed _ _ (act_on-Takes r.state.state aether now quiet)
        (unfold Takes in refl)

module _ {Key Sign PowParams : Type 0} (crypto_sign_verify : Sign → Key → Key → Bool) where
  step-Takes :
      (r : Registration Key Sign PowParams) (e : Event Key Sign PowParams)
      → Takes r.servers (step crypto_sign_verify r e)
  unfolding step on_connection_success on_connection_error on_raw_write_error on_write_error
      on_confirm_registration on_resolve_cloud_response on_get_keys_response on_response_pow_params
      update set_state Takes
  step-Takes r connection_success =
      servers-if r.servers r.connection_success_subscription _ _ refl refl
  step-Takes r connection_error = servers-if r.servers r.connection_error_subscription _ _ refl refl
  step-Takes r raw_write_error =
      servers-if r.servers r.raw_transport_send_action_subscription _ _ refl refl
  step-Takes r write_error = servers-if r.servers r.reg_server_write_subscription _ _ refl refl
  step-Takes r (get_keys_response sign key) =
      servers-if r.servers (crypto_sign_verify sign key r.sign_pk) _ _ refl refl
  step-Takes r (response_pow_params sign key params) =
      servers-if r.servers (crypto_sign_verify sign key r.sign_pk) _ _ refl refl
  step-Takes r (confirm_registration ephemeral_uid uid cloud) = refl
  step-Takes r (resolve_cloud_response true servers) = refl
  step-Takes r (resolve_cloud_response false servers) = refl
  step-Takes r (tick aether now) =
      let out = acquired aether now r in
      ap (λ l. connects out.1 ++ l) (wait_on-servers out.0.state.state now out.0)
      ∙ acquired-Takes aether now r

  run-Takes :
      (r : Registration Key Sign PowParams) (es : List (Event Key Sign PowParams))
      → Takes r.servers (run crypto_sign_verify r es)
  unfolding run Takes
  run-Takes r [] = refl
  run-Takes r (e ∷ es) =
      let (r', first) = step crypto_sign_verify r e in
      let (r'', rest) = run crypto_sign_verify r' es in
      ap (λ l. l ++ r''.servers) (connects-append first rest)
      ∙ (append_assoc (connects first) (connects rest) r''.servers
          ∙ (ap (λ l. connects first ++ l) (run-Takes r' es) ∙ step-Takes r e))

  -- In every run of a new registration the servers that it connects to, followed by those that it has
  -- left, are the servers of its list: it tries the entries in their order, each at most once, however often a
  -- connection or a write fails.
  pub run-connects :
      (servers : List ℕ) (pinned : Key) (es : List (Event Key Sign PowParams))
      → let out = run crypto_sign_verify (create servers pinned) es in
        connects out.1 ++ out.0.servers ≡ servers
  unfolding Takes create
  run-connects servers pinned es = run-Takes (create servers pinned) es
