-- ===== src/Registration/Keys.antt =====
-- The keys that registration.cpp may write under, and what each of its states needs of them.
use aether_client_cpp_new.Prelude.{
  ◌≡◌, refl, Bool, true, false, Option, none, some, List, [], ◌∷◌, All, if◌then◌else◌,
}
use aether_client_cpp_new.Registration.{
  State, get_pow_params, make_registration, Registration, Effect, Stream, plain, encrypted,
  get_asymmetric_public_key, request_proof_of_work_data, registration, set_master_key,
  resolve_servers, null_dereference, write_through, set_state,
}
use aether_client_cpp_new.Registration.Run.{set_state-state}

module _ {Key Sign : Type 0} (crypto_sign_verify : Sign → Key → Key → Bool) (pinned : Key) where
  -- a key that was signed with the pinned one
  abbrev pub Signed : Option Key → Type 0
  Signed none = ⊥
  Signed (some key) = (sign : Sign) × (crypto_sign_verify sign key pinned ≡ true)

  -- a stream whose key was signed, and one that has none or such a key
  abbrev pub IsSecure : Stream Key → Type 0
  IsSecure plain = ⊥
  IsSecure (encrypted key) = Signed key

  abbrev pub IsGenuine : Stream Key → Type 0
  IsGenuine plain = Unit
  IsGenuine (encrypted key) = Signed key

  abbrev pub Holds : Option (Stream Key) → Type 0
  Holds none = Unit
  Holds (some stream) = IsGenuine stream

  -- what a state needs of the keys
  abbrev pub Needs : State → Option Key → Option Key → Type 0
  Needs get_pow_params server global = Signed server
  Needs make_registration server global = Signed global
  Needs s server global = Unit

  module _ {PowParams : Type 0} where
    -- what is required of the keys that a message is written under
    abbrev pub IsTrusted : Effect Key Sign PowParams → Type 0
    IsTrusted (get_asymmetric_public_key stream) = IsGenuine stream
    IsTrusted (request_proof_of_work_data stream) = IsSecure stream
    IsTrusted (registration params stream) = IsGenuine stream
    IsTrusted (set_master_key key stream) = Signed key × IsGenuine stream
    IsTrusted (resolve_servers cloud stream) = IsGenuine stream
    IsTrusted e = Unit

    pub record Safe (r : Registration Key Sign PowParams) : Type 0 where
      pub key : r.sign_pk ≡ pinned
      pub needs : Needs r.state.state r.server_pub_key r.aether_global_key
      pub stream : Holds r.reg_server_stream

    pub record Outcome (out : Registration Key Sign PowParams × List (Effect Key Sign PowParams))
        : Type 0 where
      pub safe : Safe out.0
      pub effects : All IsTrusted out.1

    pub Safe-set_state :
        (s : State) (r : Registration Key Sign PowParams)
        → r.sign_pk ≡ pinned
        → Needs s r.server_pub_key r.aether_global_key
        → Holds r.reg_server_stream
        → Safe (set_state s r)
    unfolding set_state
    Safe-set_state s r k n h = record { key = k; needs = rw (set_state-state s r) n; stream = h }

    pub write_through-Outcome :
        (effects : Stream Key → List (Effect Key Sign PowParams))
        (r r' : Registration Key Sign PowParams)
        → Safe r
        → Safe r'
        → ((stream : Stream Key) → IsGenuine stream → All IsTrusted (effects stream))
        → Outcome (write_through effects r r')
    unfolding write_through
    write_through-Outcome effects r r' h h' k = by_stream r.reg_server_stream h.stream
      where
        by_stream :
            (o : Option (Stream Key))
            → Holds o
            → Outcome
                (elim o [ none ↦ (r, null_dereference ∷ []) | some stream ↦ (r', effects stream) ])
        by_stream none g = record { safe = h; effects = (tt, tt) }
        by_stream (some stream) g = record { safe = h'; effects = k stream g }

    pub Safe-if :
        (b : Bool) (r r' : Registration Key Sign PowParams)
        → (b ≡ true → Safe r)
        → Safe r'
        → Safe (if b then r else r')
    Safe-if true r r' h h' = h refl
    Safe-if false r r' h h' = h'

    pub Outcome-if :
        (b : Bool) (out out' : Registration Key Sign PowParams × List (Effect Key Sign PowParams))
        → Outcome out
        → Outcome out'
        → Outcome (if b then out else out')
    Outcome-if true out out' h h' = h
    Outcome-if false out out' h h' = h'
