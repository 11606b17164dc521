-- ===== src/Registration/Trust.antt =====
-- Which keys registration.cpp uses.
use aether_client_cpp_new.Prelude.{
  ℕ, ◌≡◌, refl, sym, ap, ◌∙◌, Bool, true, false, some, List, [], ◌∷◌, All, All-append, Bool-cases,
  inl, inr, ltb, ◌+◌,
}
use aether_client_cpp_new.StateMachine.{acquire}
use aether_client_cpp_new.Registration.{
  State, connection, waiting_connection, connected, get_keys, wait_keys, get_pow_params,
  make_registration, request_cloud_resolving, registered, registration_failed, Registration, plain,
  connect, write_through, set_state, create, iterate_connection, on_connection_success,
  on_connection_error, connected_to, request_keys, on_raw_write_error, on_write_error,
  wait_for_keys, request_pow_params, make_client, on_confirm_registration, resolve_cloud,
  on_resolve_cloud_response, act_on, wait_on, acquired, update, on_get_keys_response,
  on_response_pow_params,
}
use aether_client_cpp_new.Registration.Run.{
  Event, connection_success, connection_error, raw_write_error, write_error, get_keys_response,
  response_pow_params, confirm_registration, resolve_cloud_response, tick, step, run,
}
use aether_client_cpp_new.Registration.Keys.{
  IsTrusted, Safe, Outcome, Safe-set_state, write_through-Outcome, Safe-if, Outcome-if,
}

module _ {Key Sign PowParams : Type 0} (crypto_sign_verify : Sign → Key → Key → Bool)
    (pinned : Key) where
  iterate-Outcome :
      (r : Registration Key Sign PowParams)
      → Safe crypto_sign_verify pinned r
      → Outcome crypto_sign_verify pinned (iterate_connection r)
  unfolding iterate_connection
  iterate-Outcome r h = by_servers r.servers
    where
      by_servers :
          (servers : List ℕ)
          → Outcome crypto_sign_verify pinned {PowParams = PowParams} (elim servers [
            | [] ↦ (set_state registration_failed r, [])
            | server ∷ more ↦ (
              set_state waiting_connection (record r {
                current_server_transport = some server;
                connection_success_subscription = true;
                connection_error_subscription = true;
                servers = more;
              }),
              connect server ∷ [],
            )
          ])
      by_servers [] = record {
        safe = Safe-set_state crypto_sign_verify pinned registration_failed r h.key tt h.stream;
        effects = tt;
      }
      by_servers (server ∷ more) = record {
        safe =
            Safe-set_state crypto_sign_verify pinned waiting_connection
              (record r {
                current_server_transport = some server;
                connection_success_subscription = true;
                connection_error_subscription = true;
                servers = more;
              })
              h.key tt h.stream;
        effects = (tt, tt);
      }

  act_on-Outcome :
      (s : State) (aether : Bool) (now : ℕ) (r : Registration Key Sign PowParams)
      → r.state.state ≡ s
      → Safe crypto_sign_verify pinned r
      → Outcome crypto_sign_verify pinned (act_on s aether now r)
  unfolding act_on connected_to request_keys request_pow_params make_client resolve_cloud
      write_through set_state
  act_on-Outcome connection aether now r e h = iterate-Outcome r h
  act_on-Outcome waiting_connection aether now r e h = record { safe = h; effects = tt }
  act_on-Outcome connected aether now r e h = record {
    safe =
        Safe-if crypto_sign_verify pinned aether _ _
          (λ e.
            Safe-set_state crypto_sign_verify pinned get_keys
              (record r { reg_server_stream = some plain }) h.key tt tt)
          h;
    effects = tt;
  }
  act_on-Outcome get_keys aether now r e h =
      let s = Safe-set_state crypto_sign_verify pinned wait_keys r h.key tt h.stream in
      write_through-Outcome crypto_sign_verify pinned _ _ _ s
        (record { key = s.key; needs = s.needs; stream = s.stream }) (λ stream g. (g, tt))
  act_on-Outcome wait_keys aether now r e h = record { safe = h; effects = tt }
  act_on-Outcome get_pow_params true now r e h = record {
    safe = record { key = h.key; needs = h.needs; stream = rw e at h.needs };
    effects = (rw e at h.needs, tt);
  }
  act_on-Outcome get_pow_params false now r e h = record {
    safe = record { key = h.key; needs = h.needs; stream = tt };
    effects = (tt, tt);
  }
  act_on-Outcome make_registration aether now r e h =
      Outcome-if crypto_sign_verify pinned r.server_sync_key_provider _ _
        (write_through-Outcome crypto_sign_verify pinned _ _ _ h
          (record { key = h.key; needs = h.needs; stream = h.stream })
          (λ stream g. (g, ((rw e at h.needs, g), tt))))
        (record { safe = h; effects = (tt, tt) })
  act_on-Outcome request_cloud_resolving aether now r e h =
      write_through-Outcome crypto_sign_verify pinned _ _ _ h
        (record { key = h.key; needs = h.needs; stream = h.stream }) (λ stream g. (g, tt))
  act_on-Outcome registered aether now r e h = record { safe = h; effects = (tt, tt) }
  act_on-Outcome registration_failed aether now r e h = record { safe = h; effects = (tt, tt) }

  wait_on-Safe :
      (s : State) (now : ℕ) (r : Registration Key Sign PowParams)
      → Safe crypto_sign_verify pinned r
      → Safe crypto_sign_verify pinned (wait_on s now r).1
  unfolding wait_on wait_for_keys
  wait_on-Safe wait_keys now r h =
      elim (Bool-cases (ltb (r.last_request_time + r.response_timeout) now)) [
        | inl e ↦ rw e (Safe-set_state crypto_sign_verify pinned get_keys r h.key tt h.stream)
        | inr e ↦ rw e h
      ]
  wait_on-Safe connection now r h = h
  wait_on-Safe waiting_connection now r h = h
  wait_on-Safe connected now r h = h
  wait_on-Safe get_keys now r h = h
  wait_on-Safe get_pow_params now r h = h
  wait_on-Safe make_registration now r h = h
  wait_on-Safe request_cloud_resolving now r h = h
  wait_on-Safe registered now r h = h
  wait_on-Safe registration_failed now r h = h

  acquired-Outcome :
      (aether : Bool) (now : ℕ) (r : Registration Key Sign PowParams)
      → Safe crypto_sign_verify pinned r
      → Outcome crypto_sign_verify pinned (acquired aether now r)
  unfolding acquired acquire
  acquired-Outcome aether now r h =
      let quiet : Registration Key Sign PowParams = record r {
        state = record r.state { changed = false };
      } in
      Outcome-if crypto_sign_verify pinned r.state.changed _ _
        (act_on-Outcome r.state.state aether now quiet refl
          (record { key = h.key; needs = h.needs; stream = h.stream }))
        (record { safe = h; effects = tt })

  step-Outcome :
      (r : Registration Key Sign PowParams) (e : Event Key Sign PowParams)
      → Safe crypto_sign_verify pinned r
      → Outcome crypto_sign_verify pinned (step crypto_sign_verify r e)
  unfolding step on_connection_success on_connection_error on_raw_write_error on_write_error
      on_confirm_registration on_resolve_cloud_response on_get_keys_response on_response_pow_params
      update
  step-Outcome r connection_success h = record {
    safe =
        Safe-if crypto_sign_verify pinned r.connection_success_subscription _ _
          (λ e.
            Safe-set_state crypto_sign_verify pinned connected
              (record r { connection_success_subscription = false }) h.key tt h.stream)
          h;
    effects = tt;
  }
  step-Outcome r connection_error h = record {
    safe =
        Safe-if crypto_sign_verify pinned r.connection_error_subscription _ _
          (λ e.
            Safe-set_state crypto_sign_verify pinned connection
              (record r { connection_error_subscription = false }) h.key tt h.stream)
          h;
    effects = tt;
  }
  step-Outcome r raw_write_error h = record {
    safe =
        Safe-if crypto_sign_verify pinned r.raw_transport_send_action_subscription _ _
          (λ e. Safe-set_state crypto_sign_verify pinned connection r h.key tt h.stream) h;
    effects = tt;
  }
  step-Outcome r write_error h = record {
    safe =
        Safe-if crypto_sign_verify pinned r.reg_server_write_subscription _ _
          (λ e.
            Safe-set_state crypto_sign_verify pinned registration_failed
              (record r { reg_server_write_subscription = false }) h.key tt h.stream)
          h;
    effects = tt;
  }
  step-Outcome r (get_keys_response sign key) h = record {
    safe =
        Safe-if crypto_sign_verify pinned (crypto_sign_verify sign key r.sign_pk) _ _
          (λ e.
            Safe-set_state crypto_sign_verify pinned get_pow_params
              (record r { server_pub_key = some key }) h.key
              (sign, ap (crypto_sign_verify sign key) (sym h.key) ∙ e) h.stream)
          (Safe-set_state crypto_sign_verify pinned registration_failed r h.key tt h.stream);
    effects = tt;
  }
  step-Outcome r (response_pow_params sign key params) h = record {
    safe =
        Safe-if crypto_sign_verify pinned (crypto_sign_verify sign key r.sign_pk) _ _
          (λ e.
            Safe-set_state crypto_sign_verify pinned make_registration
              (record r { aether_global_key = some key; pow_params = some params }) h.key
              (sign, ap (crypto_sign_verify sign key) (sym h.key) ∙ e) h.stream)
          (Safe-set_state crypto_sign_verify pinned registration_failed r h.key tt h.stream);
    effects = tt;
  }
  step-Outcome r (confirm_registration ephemeral_uid uid cloud) h = record {
    safe =
        Safe-set_state crypto_sign_verify pinned request_cloud_resolving
          (record r { ephemeral_uid = ephemeral_uid; uid = uid; cloud = cloud }) h.key tt h.stream;
    effects = tt;
  }
  step-Outcome r (resolve_cloud_response true servers) h = record {
    safe = Safe-set_state crypto_sign_verify pinned registered r h.key tt h.stream;
    effects = (tt, tt);
  }
  step-Outcome r (resolve_cloud_response false servers) h = record { safe = h; effects = tt }
  step-Outcome r (tick aether now) h =
      let out = acquired-Outcome aether now r h in
      let r' = (acquired aether now r).0 in
      record { safe = wait_on-Safe r'.state.state now r' out.safe; effects = out.effects }

  run-IsTrusted :
      (r : Registration Key Sign PowParams) (es : List (Event Key Sign PowParams))
      → Safe crypto_sign_verify pinned r
      → All (IsTrusted crypto_sign_verify pinned) (run crypto_sign_verify r es).1
  unfolding run
  run-IsTrusted r [] h = tt
  run-IsTrusted r (e ∷ es) h =
      let out = step-Outcome r e h in
      let next = (step crypto_sign_verify r e).0 in
      All-append (IsTrusted crypto_sign_verify pinned) (step crypto_sign_verify r e).1
        (run crypto_sign_verify next es).1 out.effects (run-IsTrusted next es out.safe)

  -- In every run of a new registration, whatever messages come and in whatever order: each request
  -- for the proof of work is written through a stream that encrypts under a key, and each master key
  -- under the global key, and some signature of that key was verified with the pinned one. Any other
  -- message, that of the registration too, is written through a stream that encrypts under such a key,
  -- or through the plain one.
  pub run_trusts :
      (servers : List ℕ) (es : List (Event Key Sign PowParams))
      → All
          (IsTrusted crypto_sign_verify pinned)
          (run crypto_sign_verify (create servers pinned) es).1
  unfolding create
  run_trusts servers es =
      run-IsTrusted (create servers pinned) es (record { key = refl; needs = tt; stream = tt })
