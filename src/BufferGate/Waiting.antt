-- ===== src/BufferGate/Waiting.antt =====
-- What waits in the queue of buffer_gate.cpp, and what its functions on the queue do to it.
use aether_client_cpp_new.Prelude.{
  ℕ, ◌≡◌, refl, ap, ap₂, ◌∙◌, append-nil, Bool, true, false, some, List, [], ◌∷◌, ◌++◌, ◌==◌,
  if◌then◌else◌, Bool-cases, inl, inr, arith,
}
use mathlib.Core.List.{Sublistᴰ}
use mathlib.Core.List.Sublistᴰ as Sub
use aether_client_cpp_new.BufferGate.{
  BufferedWrite, BufferGate, Effect, wrote, stopped_out, declined, updated, set_soft_writeable,
  drain_buffer, drained, find_write, erase_write, set_write,
}
use aether_client_cpp_new.BufferGate.Actions.{
  Event, on_write, on_stop, on_update, on_out_finished, on_out_changed, on_gate_update,
}

-- the data of a write with its time
abbrev pub Data : Type 0
Data = List ℕ × ℕ

-- the writes that a list of effects hands on
abbrev pub written : List Effect → List Data
written [] = []
written (wrote bytes now ∷ more) = (bytes, now) ∷ written more
written (stopped_out id ∷ more) = written more
written (declined ∷ more) = written more
written (updated ∷ more) = written more

-- the queued writes that are not sent yet
abbrev pub waiting : List BufferedWrite → List Data
waiting [] = []
waiting (a ∷ more) =
    let rest = waiting more in if a.is_sent then rest else (a.bytes, a.current_time) ∷ rest

-- what the events of a run ask the gate to write
abbrev pub offered : List Event → List Data
offered [] = []
offered (on_write bytes now ∷ es) = (bytes, now) ∷ offered es
offered (on_stop id ∷ es) = offered es
offered (on_update id ∷ es) = offered es
offered (on_out_finished id ∷ es) = offered es
offered (on_out_changed id state ∷ es) = offered es
offered (on_gate_update info ∷ es) = offered es

pub written-append : (xs ys : List Effect) → written (xs ++ ys) ≡ written xs ++ written ys
written-append [] ys = refl
written-append (wrote bytes now ∷ xs) ys = ap (λ l. (bytes, now) ∷ l) (written-append xs ys)
written-append (stopped_out id ∷ xs) ys = written-append xs ys
written-append (declined ∷ xs) ys = written-append xs ys
written-append (updated ∷ xs) ys = written-append xs ys

pub waiting-append : (q r : List BufferedWrite) → waiting (q ++ r) ≡ waiting q ++ waiting r
waiting-append [] r = refl
waiting-append (a ∷ q) r = elim (Bool-cases a.is_sent) [
  | inl e ↦ rw e (waiting-append q r)
  | inr e ↦ rw e (ap (λ l. (a.bytes, a.current_time) ∷ l) (waiting-append q r))
]

-- Into a writable out gate `DrainBuffer` writes all that waits, in order.
pub drain_buffer-open :
    (q : List BufferedWrite)
    → (written (drain_buffer true q).1 ≡ waiting q) × (waiting (drain_buffer true q).0 ≡ [])
unfolding drain_buffer
drain_buffer-open [] = (refl, refl)
drain_buffer-open (a ∷ q) = elim (Bool-cases a.is_sent) [
  | inl e ↦ rw e (drain_buffer-open q)
  | inr e ↦ rw e (
      let (out, none_left) = drain_buffer-open q in
      (ap (λ l. (a.bytes, a.current_time) ∷ l) out, none_left))
]

-- Into any other it writes nothing.
pub drain_buffer-closed : (q : List BufferedWrite) → drain_buffer false q ≡ (q, [])
unfolding drain_buffer
drain_buffer-closed [] = refl
drain_buffer-closed (a ∷ q) = refl

-- what the effects of a call hand on, and after it what waits
abbrev pub outgoing : BufferGate × List Effect → List Data
outgoing (g, effects) = written effects ++ waiting g.queue

pub outgoing-drained : (g : BufferGate) → outgoing (drained g) ≡ waiting g.queue
unfolding drained
outgoing-drained g = elim (Bool-cases g.last_out_info.is_writeble) [
  | inl e ↦ rw e (
      let (out, none_left) = drain_buffer-open g.queue in
      ap₂ ◌++◌ out none_left ∙ append-nil (waiting g.queue))
  | inr e ↦ rw (e, drain_buffer-closed g.queue) refl
]

pub set_soft_writeable-quiet :
    (g : BufferGate) (value : Bool)
    → (written (set_soft_writeable g value).1 ≡ [])
      × ((set_soft_writeable g value).0.queue ≡ g.queue)
unfolding set_soft_writeable
set_soft_writeable-quiet g value = ground arith

pub outgoing-noted :
    (notes effects : List Effect) (g : BufferGate)
    → written notes ≡ []
    → outgoing (g, notes ++ effects) ≡ outgoing (g, effects)
outgoing-noted notes effects g e =
    ap (λ l. l ++ waiting g.queue) (written-append notes effects ∙ ap (λ l. l ++ written effects) e)

pub find_write-id :
    (id : ℕ) (q : List BufferedWrite) (a : BufferedWrite) → find_write id q ≡ some a → a.id ≡ id
unfolding find_write
find_write-id id [] a e = grind arith
find_write-id id (b ∷ q) a e = elim (Bool-cases (b.id == id)) [
  | inl t ↦ ground (arith, e, t)
  | inr t ↦ find_write-id id q a (rw t at e)
]

pub waiting-erase_write :
    (id : ℕ) (q : List BufferedWrite) → Sublistᴰ (waiting (erase_write id q)) (waiting q)
unfolding erase_write
waiting-erase_write id [] = Sub.slnil
waiting-erase_write id (a ∷ q) = elim (Bool-cases (a.id == id)) [
  | inl t ↦ rw t (elim (Bool-cases a.is_sent) [
    | inl e ↦ rw e (Sub.refl (waiting q))
    | inr e ↦ rw e (Sub.cons (Sub.refl (waiting q)))
  ])
  | inr t ↦ rw t (elim (Bool-cases a.is_sent) [
    | inl e ↦ rw e (waiting-erase_write id q)
    | inr e ↦ rw e (Sub.cons-cons refl (waiting-erase_write id q))
  ])
]

-- A write put back with what it carries unchanged leaves what waits unchanged.
pub waiting-set_write :
    (b a : BufferedWrite) (q : List BufferedWrite)
    → find_write b.id q ≡ some a
    → b.is_sent ≡ a.is_sent
    → b.bytes ≡ a.bytes
    → b.current_time ≡ a.current_time
    → waiting (set_write b q) ≡ waiting q
unfolding set_write find_write
waiting-set_write b a [] f s d dt = refl
waiting-set_write b a (c ∷ q) f s d dt = elim (Bool-cases (c.id == b.id)) [
  | inl t ↦ ground (arith, t, f, s, d, dt)
  | inr t ↦ ground (arith, t, f, waiting-set_write b a q (rw t at f) s d dt)
]
