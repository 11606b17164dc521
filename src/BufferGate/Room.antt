-- ===== src/BufferGate/Room.antt =====
-- The room in the queue of buffer_gate.cpp, what the gate says of it, and when the queue is emptied.
use aether_client_cpp_new.Prelude.{
  ℕ, suc, ◌+◌, ◌≤◌, ◌<◌, ◌≡◌, refl, sym, ap, ◌∙◌, Bool, true, false, not, ◌||◌, Option, none, some,
  List, [], ◌∷◌, ◌++◌, ltb, ltb→lt, lt→ltb, ◌==◌, if◌then◌else◌, length, length-append, Bool-cases,
  inl, inr, arith,
}
use aether_client_cpp_new.BufferGate.{
  StreamInfo, WriteState, stopped, BufferedWrite, BufferGate, Effect, same_flag, same_info, create,
  new_write, set_soft_writeable, drain_buffer, drained, is_empty, buffered, write, update_gate,
  find_write, erase_write, set_write, remove_action,
}
use aether_client_cpp_new.BufferGate.Waiting.{find_write-id}
use aether_client_cpp_new.BufferGate.Actions.{
  set_state, stop_write, is_stop, update_write, out_changed, out_finished, Event, on_write, on_stop,
  on_update, on_out_finished, on_out_changed, on_gate_update, with_write, step, run,
}

-- The queue holds at most as many writes as it may, the gate says that it takes more exactly while
-- there are fewer, and it repeats what the out gate said of its link.
pub record IsRoomy (g : BufferGate) : Type 0 where
  pub positive : 0 < g.buffer_max
  pub room : length g.queue ≤ g.buffer_max
  pub soft : g.info.is_soft_writable ≡ ltb (length g.queue) g.buffer_max
  pub linked : g.info.is_linked ≡ g.last_out_info.is_linked

IsRoomy-if :
    (test : Bool) (x y : BufferGate × List Effect)
    → (test ≡ true → IsRoomy x.0)
    → (test ≡ false → IsRoomy y.0)
    → IsRoomy (if test then x else y).0
IsRoomy-if true x y h k = h refl
IsRoomy-if false x y h k = k refl

length-drain_buffer :
    (open_out : Bool) (q : List BufferedWrite) → length (drain_buffer open_out q).0 ≡ length q
unfolding drain_buffer
length-drain_buffer open_out [] = refl
length-drain_buffer open_out (a ∷ q) = ground (arith, length-drain_buffer open_out q)

length-set_write : (b : BufferedWrite) (q : List BufferedWrite) → length (set_write b q) ≡ length q
unfolding set_write
length-set_write b [] = refl
length-set_write b (a ∷ q) = ground (arith, length-set_write b q)

length-erase_write :
    (id : ℕ) (q : List BufferedWrite) (a : BufferedWrite)
    → find_write id q ≡ some a
    → suc (length (erase_write id q)) ≡ length q
unfolding erase_write find_write
length-erase_write id [] a f = grind arith
length-erase_write id (b ∷ q) a f = elim (Bool-cases (b.id == id)) [
  | inl t ↦ rw t refl
  | inr t ↦ rw t (ap suc (length-erase_write id q a (rw t at f)))
]

-- only the length of the queue matters
IsRoomy-queue :
    (g : BufferGate) (q : List BufferedWrite)
    → length q ≡ length g.queue
    → IsRoomy g
    → IsRoomy (record g { queue = q })
IsRoomy-queue g q e v = record {
  positive = v.positive;
  room = omega (arith, v.room);
  soft = v.soft ∙ ap (λ n. ltb n g.buffer_max) (sym e);
  linked = v.linked;
}

drained-IsRoomy : (g : BufferGate) → IsRoomy g → IsRoomy (drained g).0
unfolding drained
drained-IsRoomy g v = IsRoomy-queue g _ (length-drain_buffer g.last_out_info.is_writeble g.queue) v

pub same_flag-eq : (a b : Bool) → same_flag a b ≡ true → a ≡ b
unfolding same_flag
same_flag-eq true b e = sym e
same_flag-eq false true e = e
same_flag-eq false false e = refl

set_soft_writeable-IsRoomy :
    (g : BufferGate) (value : Bool)
    → 0 < g.buffer_max
    → length g.queue ≤ g.buffer_max
    → value ≡ ltb (length g.queue) g.buffer_max
    → g.info.is_linked ≡ g.last_out_info.is_linked
    → IsRoomy (set_soft_writeable g value).0
unfolding set_soft_writeable
set_soft_writeable-IsRoomy g value p r s l =
    IsRoomy-if (same_flag g.info.is_soft_writable value) _ _
      (λ e. record { positive = p; room = r; soft = same_flag-eq _ _ e ∙ s; linked = l })
      (λ e. record { positive = p; room = r; soft = s; linked = l })

remove_action-IsRoomy :
    (g : BufferGate) (id : ℕ) (a : BufferedWrite)
    → find_write id g.queue ≡ some a
    → IsRoomy g
    → IsRoomy (remove_action g id).0
unfolding remove_action
remove_action-IsRoomy g id a f v =
    let one_less = length-erase_write id g.queue a f in
    drained-IsRoomy _ (
      set_soft_writeable-IsRoomy (record g { queue = erase_write id g.queue }) true v.positive
        (omega (arith, v.room)) (ground (arith, v.room, one_less)) v.linked)

buffered-IsRoomy :
    (g : BufferGate) (bytes : List ℕ) (now : ℕ)
    → g.info.is_soft_writable ≡ true
    → IsRoomy g
    → IsRoomy (buffered g bytes now).0
unfolding buffered
buffered-IsRoomy g bytes now s v =
    let g' : BufferGate = record g {
      queue = g.queue ++ (new_write g.next_id bytes now ∷ []);
      next_id = g.next_id + 1;
    } in
    let longer : length g'.queue ≡ length g.queue + 1 =
      length-append g.queue (new_write g.next_id bytes now ∷ []) in
    let less : length g.queue < g.buffer_max =
      ltb→lt (length g.queue) g.buffer_max (sym v.soft ∙ s) in
    IsRoomy-if (length g'.queue == g.buffer_max) (set_soft_writeable g' false) (g', [])
      (λ f.
        set_soft_writeable-IsRoomy g' false v.positive (omega (arith, less, longer))
          (ground (arith, f)) v.linked)
      (λ f. record {
        positive = v.positive;
        room = omega (arith, less, longer);
        soft = s ∙ ground (arith, f, less, longer);
        linked = v.linked;
      })

write-IsRoomy :
    (g : BufferGate) (bytes : List ℕ) (now : ℕ) → IsRoomy g → IsRoomy (write g bytes now).0
unfolding write
write-IsRoomy g bytes now v =
    let add_to_buffer = not g.last_out_info.is_writeble || not g.last_out_info.is_linked in
    IsRoomy-if (add_to_buffer || not (is_empty g.queue)) _ _
      (λ e. IsRoomy-if g.info.is_soft_writable _ _ (λ s. buffered-IsRoomy g bytes now s v) (λ s. v))
      (λ e. v)

update_gate-IsRoomy :
    (g : BufferGate) (info : StreamInfo) → IsRoomy g → IsRoomy (update_gate g info).0
unfolding update_gate
update_gate-IsRoomy g info v =
    let g' : BufferGate = record g {
      info = record info { is_soft_writable = g.info.is_soft_writable };
      last_out_info = info;
    } in
    let v' : IsRoomy g' = record {
      positive = v.positive;
      room = v.room;
      soft = v.soft;
      linked = refl;
    } in
    elim (Bool-cases (same_info g.last_out_info info)) [
      | inl e ↦ rw e (IsRoomy-if g.info.is_linked _ _ (λ l. drained-IsRoomy g v) (λ l. v))
      | inr e ↦ rw e (IsRoomy-if info.is_linked _ _ (λ l. drained-IsRoomy g' v') (λ l. v'))
    ]

module _ (g : BufferGate) (v : IsRoomy g) (a : BufferedWrite)
    (f : find_write a.id g.queue ≡ some a) where
  replaced-IsRoomy : (b : BufferedWrite) → IsRoomy (record g { queue = set_write b g.queue })
  replaced-IsRoomy b = IsRoomy-queue g _ (length-set_write b g.queue) v

  stop_write-IsRoomy : IsRoomy (stop_write g a).0
  unfolding stop_write
  stop_write-IsRoomy =
      IsRoomy-if a.is_sent _ _ (λ e. v) (λ e. replaced-IsRoomy (set_state a stopped))

  update_write-IsRoomy : IsRoomy (update_write g a).0
  unfolding update_write
  update_write-IsRoomy =
      IsRoomy-if a.state.changed _ _
        (λ e.
          IsRoomy-if (is_stop a.state.state) _ _ (λ s. remove_action-IsRoomy g a.id a f v)
            (λ s. replaced-IsRoomy _))
        (λ e. v)

  out_changed-IsRoomy : (state : WriteState) → IsRoomy (out_changed g state a).0
  unfolding out_changed
  out_changed-IsRoomy state =
      IsRoomy-if a.is_sent _ _ (λ e. replaced-IsRoomy (set_state a state)) (λ e. v)

  out_finished-IsRoomy : IsRoomy (out_finished g a).0
  unfolding out_finished
  out_finished-IsRoomy = IsRoomy-if a.is_sent _ _ (λ e. remove_action-IsRoomy g a.id a f v) (λ e. v)

with_write-IsRoomy :
    (g : BufferGate) (act : BufferedWrite → BufferGate × List Effect) (id : ℕ)
    → IsRoomy g
    → ((a : BufferedWrite) → find_write a.id g.queue ≡ some a → IsRoomy (act a).0)
    → (o : Option BufferedWrite) → find_write id g.queue ≡ o
    → IsRoomy (with_write g act o).0
unfolding with_write
with_write-IsRoomy g act id v h none f = v
with_write-IsRoomy g act id v h (some a) f =
    h a (ap (λ n. find_write n g.queue) (find_write-id id g.queue a f) ∙ f)

pub step-IsRoomy : (g : BufferGate) (e : Event) → IsRoomy g → IsRoomy (step g e).0
unfolding step
step-IsRoomy g (on_write bytes now) v = write-IsRoomy g bytes now v
step-IsRoomy g (on_stop id) v = with_write-IsRoomy g _ id v (stop_write-IsRoomy g v) _ refl
step-IsRoomy g (on_update id) v = with_write-IsRoomy g _ id v (update_write-IsRoomy g v) _ refl
step-IsRoomy g (on_out_finished id) v =
    with_write-IsRoomy g _ id v (out_finished-IsRoomy g v) _ refl
step-IsRoomy g (on_out_changed id state) v =
    with_write-IsRoomy g _ id v (λ a f. out_changed-IsRoomy g v a f state) _ refl
step-IsRoomy g (on_gate_update info) v = update_gate-IsRoomy g info v

run-IsRoomy : (g : BufferGate) (es : List Event) → IsRoomy g → IsRoomy (run g es).0
unfolding run
run-IsRoomy g [] v = v
run-IsRoomy g (e ∷ es) v = run-IsRoomy (step g e).0 es (step-IsRoomy g e v)

-- A gate made with a positive limit never queues more writes than the limit, and after every run it
-- says that it is soft writable exactly while it queues fewer.
pub run_keeps_room :
    (buffer_max : ℕ) (es : List Event) → 0 < buffer_max → IsRoomy (run (create buffer_max) es).0
unfolding create
run_keeps_room buffer_max es p =
    run-IsRoomy (create buffer_max) es (record {
      positive = p;
      room = omega arith;
      soft = sym (lt→ltb 0 buffer_max p);
      linked = refl;
    })
