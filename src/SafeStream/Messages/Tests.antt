-- ===== src/SafeStream/Messages/Tests.antt =====
-- A message packed and loaded.
use aether_client_cpp_new.Prelude.{◌≡◌, refl, arith, some, false, [], ◌∷◌, ◌++◌}
use aether_client_cpp_new.MStream.{to_bytes, VectorReader}
use aether_client_cpp_new.MStream.Ahead.{Ahead}
use aether_client_cpp_new.Packed.{limit, first_limit, next_limit, serialize}
use aether_client_cpp_new.SafeStream.Messages.{
  Message, repeat, code_of, pack, save, save_data, load_factory,
}
use aether_client_cpp_new.SafeStream.Messages.RoundTrip.{IsValid, load_factory-save}

abbrev message : Message
message = repeat 2 300 (7 ∷ 8 ∷ 9 ∷ [])

pack-message : pack message ≡ 8 ∷ 2 ∷ 0 ∷ 44 ∷ 1 ∷ 3 ∷ 7 ∷ 8 ∷ 9 ∷ []
unfolding pack save save_data code_of serialize to_bytes limit first_limit next_limit
pack-message = refl

-- a reader at the start of its fields
abbrev reader : VectorReader
reader = record { bytes = save message ++ (5 ∷ []); offset = 0; result = false }

reader-Ahead : Ahead reader (save message ++ (5 ∷ []))
reader-Ahead = record { bytes = refl; inside = omega arith }

message-IsValid : IsValid message
unfolding limit first_limit next_limit
message-IsValid = (omega arith, (omega arith, omega arith))

load_factory-save_example :
    ((load_factory (code_of message) 0 reader).0 ≡ some message)
    × Ahead (load_factory (code_of message) 0 reader).1 (5 ∷ [])
load_factory-save_example = load_factory-save message 0 reader (5 ∷ []) message-IsValid reader-Ahead
