-- ===== src/BufferGate/Drain.antt =====
-- When the queue of buffer_gate.cpp is emptied.
use aether_client_cpp_new.Prelude.{
  ℕ, ◌≡◌, refl, sym, ap, ◌∙◌, Bool, true, false, some, List, [], ◌∷◌, ◌==◌, if◌then◌else◌,
  Bool-cases, inl, inr, arith,
}
use aether_client_cpp_new.BufferGate.{
  StreamInfo, stopped, BufferedWrite, BufferGate, Effect, same_info, drained, update_gate,
  find_write,
}
use aether_client_cpp_new.BufferGate.Waiting.{written, waiting, drain_buffer-open, find_write-id}
use aether_client_cpp_new.BufferGate.Actions.{
  set_state, stop_write, on_stop, on_gate_update, with_write, step,
}
use mathlib.Core.Bool.{false≢true}
use mathlib.Core.List.{Memᴰ}
use mathlib.Core.Path.{subst}
use mathlib.Core.Option.{some-injective}
use aether_client_cpp_new.BufferGate.Waiting.{waiting-set_write, Data}
use aether_client_cpp_new.BufferGate.Room.{IsRoomy, step-IsRoomy, same_flag-eq}

abbrev Emptied : BufferGate → BufferGate × List Effect → Type 0
Emptied g out = (written out.1 ≡ waiting g.queue) × (waiting out.0.queue ≡ [])

Emptied-if :
    (g : BufferGate) (test : Bool) (x y : BufferGate × List Effect)
    → test ≡ true
    → Emptied g x
    → Emptied g (if test then x else y)
Emptied-if g true x y e p = p
Emptied-if g false x y e p = absurd (false≢true e)

drained-Emptied : (g : BufferGate) → g.last_out_info.is_writeble ≡ true → Emptied g (drained g)
unfolding drained
drained-Emptied g w = rw w (drain_buffer-open g.queue)

same_info-flags :
    (a b : StreamInfo)
    → same_info a b ≡ true
    → (a.is_linked ≡ b.is_linked) × (a.is_writeble ≡ b.is_writeble)
unfolding same_info
same_info-flags a b e = (
  same_flag-eq a.is_linked b.is_linked (ground (arith, e)),
  same_flag-eq a.is_writeble b.is_writeble (ground (arith, e)),
)

-- For a gate that has room as `IsRoomy` says, which every run keeps: when the out gate says that it is
-- linked and writable, all that waits is written to it in order, and nothing waits any more.
pub update_gate-open :
    (g : BufferGate) (info : StreamInfo)
    → IsRoomy g
    → info.is_linked ≡ true
    → info.is_writeble ≡ true
    → (written (update_gate g info).1 ≡ waiting g.queue)
      × (waiting (update_gate g info).0.queue ≡ [])
unfolding update_gate
update_gate-open g info v l w =
    let g' : BufferGate = record g {
      info = record info { is_soft_writable = g.info.is_soft_writable };
      last_out_info = info;
    } in
    elim (Bool-cases (same_info g.last_out_info info)) [
      | inl e ↦
          let (linked, writable) = same_info-flags g.last_out_info info e in
          rw e (
            Emptied-if g g.info.is_linked _ _ (v.linked ∙ (linked ∙ l))
              (drained-Emptied g (writable ∙ w)))
      | inr e ↦ rw e (Emptied-if g info.is_linked _ _ l (drained-Emptied g' w))
    ]

waiting-if :
    (test : Bool) (x y : BufferGate × List Effect) (q : List Data)
    → waiting x.0.queue ≡ q
    → waiting y.0.queue ≡ q
    → waiting (if test then x else y).0.queue ≡ q
waiting-if true x y q e f = e
waiting-if false x y q e f = f

waiting-stop_write :
    (g : BufferGate) (a : BufferedWrite)
    → find_write a.id g.queue ≡ some a
    → waiting (stop_write g a).0.queue ≡ waiting g.queue
unfolding stop_write set_state
waiting-stop_write g a f =
    waiting-if a.is_sent _ _ _ refl
      (waiting-set_write (set_state a stopped) a g.queue f refl refl refl)

find_write-waiting :
    (id : ℕ) (q : List BufferedWrite) (a : BufferedWrite)
    → find_write id q ≡ some a
    → a.is_sent ≡ false
    → Memᴰ (a.bytes, a.current_time) (waiting q)
unfolding find_write
find_write-waiting id [] a f s = grind arith
find_write-waiting id (b ∷ q) a f s = elim (Bool-cases (b.id == id)) [
  | inl t ↦
      let same : b ≡ a = some-injective b a (rw t at f) in
      let unsent : b.is_sent ≡ false = ap (λ c. c.is_sent) same ∙ s in
      subst (λ c. Memᴰ (c.bytes, c.current_time) (waiting (b ∷ q))) same
        (rw unsent (Memᴰ.head refl))
  | inr t ↦
      let later = find_write-waiting id q a (rw t at f) s in
      elim (Bool-cases b.is_sent) [ inl e ↦ rw e later | inr e ↦ rw e (Memᴰ.tail later) ]
]

-- In a gate that has room as `IsRoomy` says, a queued write that is not sent yet and is stopped is
-- written all the same, if the out gate says that it is linked and writable before the action is
-- updated.
pub stopped_write_written :
    (g : BufferGate) (id : ℕ) (a : BufferedWrite) (info : StreamInfo)
    → IsRoomy g
    → find_write id g.queue ≡ some a
    → a.is_sent ≡ false
    → info.is_linked ≡ true
    → info.is_writeble ≡ true
    → Memᴰ
        (a.bytes, a.current_time)
        (written (step (step g (on_stop id)).0 (on_gate_update info)).1)
unfolding step with_write
stopped_write_written g id a info v f s l w =
    let out = update_gate-open (step g (on_stop id)).0 info (step-IsRoomy g (on_stop id) v) l w in
    let kept : waiting (step g (on_stop id)).0.queue ≡ waiting g.queue = rw f (
      waiting-stop_write g a (ap (λ n. find_write n g.queue) (find_write-id id g.queue a f) ∙ f)) in
    subst (λ l. Memᴰ (a.bytes, a.current_time) l) (sym (out.0 ∙ kept))
      (find_write-waiting id g.queue a f s)
