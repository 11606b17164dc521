-- ===== src/BufferGate/Order.antt =====
-- The order in which the writes of buffer_gate.cpp reach the out gate.
use aether_client_cpp_new.Prelude.{
  ℕ, ◌+◌, ◌≡◌, refl, sym, ap, ap₂, subst, ◌∙◌, append_assoc, append-nil, Bool, true, false, not,
  ◌||◌, Option, none, some, List, [], ◌∷◌, ◌++◌, ◌==◌, if◌then◌else◌, length, Bool-cases, inl, inr,
  arith,
}
use mathlib.Core.Path.{subst₂}
use mathlib.Core.List.{Sublistᴰ}
use mathlib.Core.List.Sublistᴰ as Sub
use aether_client_cpp_new.BufferGate.{
  StreamInfo, WriteState, stopped, BufferedWrite, BufferGate, Effect, same_info, set_soft_writeable,
  drained, is_empty, buffered, new_write, write, update_gate, find_write, erase_write, set_write,
  remove_action,
}
use aether_client_cpp_new.BufferGate.Actions.{
  set_state, stop_write, is_stop, update_write, out_changed, out_finished, Event, on_write, on_stop,
  on_update, on_out_finished, on_out_changed, on_gate_update, with_write, step, run,
}
use aether_client_cpp_new.BufferGate.Waiting.{
  Data, written, waiting, offered, written-append, waiting-append, outgoing, outgoing-drained,
  set_soft_writeable-quiet, outgoing-noted, find_write-id, waiting-erase_write, waiting-set_write,
}

-- The writes that a call hands on or leaves waiting are among those that waited before it and the
-- ones offered to it, in the same order.
record Keeps (before : List Data) (extra : List Data) (out : BufferGate × List Effect)
    : Type 0 where
  order : Sublistᴰ (outgoing out) (before ++ extra)

Keeps-eq :
    (before extra : List Data) (out : BufferGate × List Effect)
    → outgoing out ≡ before ++ extra
    → Keeps before extra out
Keeps-eq before extra out e = record {
  order = subst (λ l. Sublistᴰ (outgoing out) l) e (Sub.refl (outgoing out));
}

Keeps-same :
    (before : List Data) (out : BufferGate × List Effect)
    → outgoing out ≡ before
    → Keeps before [] out
Keeps-same before out e = Keeps-eq before [] out (e ∙ sym (append-nil before))

Keeps-if :
    (before extra : List Data) (test : Bool) (x y : BufferGate × List Effect)
    → (test ≡ true → Keeps before extra x)
    → (test ≡ false → Keeps before extra y)
    → Keeps before extra (if test then x else y)
Keeps-if before extra true x y h k = h refl
Keeps-if before extra false x y h k = k refl

remove_action-Keeps : (g : BufferGate) (id : ℕ) → Keeps (waiting g.queue) [] (remove_action g id)
unfolding remove_action
remove_action-Keeps g id =
    let soft = set_soft_writeable (record g { queue = erase_write id g.queue }) true in
    let (quiet, same) =
      set_soft_writeable-quiet (record g { queue = erase_write id g.queue }) true in
    let left : outgoing (remove_action g id) ≡ waiting (erase_write id g.queue) =
      outgoing-noted soft.1 (drained soft.0).1 (drained soft.0).0 quiet
      ∙ (outgoing-drained soft.0 ∙ ap waiting same) in
    record {
      order =
          subst₂ (λ l l'. Sublistᴰ l l') (sym left) (sym (append-nil (waiting g.queue)))
            (waiting-erase_write id g.queue);
    }

buffered-Keeps :
    (g : BufferGate) (bytes : List ℕ) (now : ℕ)
    → Keeps (waiting g.queue) ((bytes, now) ∷ []) (buffered g bytes now)
unfolding buffered new_write
buffered-Keeps g bytes now =
    let added = waiting-append g.queue (new_write g.next_id bytes now ∷ []) in
    let g' : BufferGate = record g {
      queue = g.queue ++ (new_write g.next_id bytes now ∷ []);
      next_id = g.next_id + 1;
    } in
    let (quiet, same) = set_soft_writeable-quiet g' false in
    Keeps-if _ _ (length g'.queue == g.buffer_max) _ _
      (λ e. Keeps-eq _ _ (set_soft_writeable g' false) (ap₂ ◌++◌ quiet (ap waiting same ∙ added)))
      (λ e. Keeps-eq _ _ _ added)

is_empty-nil : (q : List BufferedWrite) → is_empty q ≡ true → q ≡ []
unfolding is_empty
is_empty-nil [] e = refl
is_empty-nil (a ∷ q) e = grind arith

or_not-false : (a b : Bool) → (a || not b) ≡ false → b ≡ true
or_not-false a b e = ground arith

-- an offered write that is declined
declined-Keeps : (before : List Data) (x : Data) → Sublistᴰ before (before ++ (x ∷ []))
declined-Keeps before x =
    subst (λ l. Sublistᴰ l (before ++ (x ∷ []))) (append-nil before)
      (Sub.append (Sub.refl before) (Sub.nil-sublist (x ∷ [])))

write-Keeps :
    (g : BufferGate) (bytes : List ℕ) (now : ℕ)
    → Keeps (waiting g.queue) ((bytes, now) ∷ []) (write g bytes now)
unfolding write
write-Keeps g bytes now =
    let add_to_buffer = not g.last_out_info.is_writeble || not g.last_out_info.is_linked in
    Keeps-if _ _ (add_to_buffer || not (is_empty g.queue)) _ _
      (λ e.
        Keeps-if _ _ g.info.is_soft_writable _ _ (λ s. buffered-Keeps g bytes now)
          (λ s. record { order = declined-Keeps (waiting g.queue) (bytes, now) }))
      (λ e.
        let none_left = is_empty-nil g.queue (or_not-false add_to_buffer (is_empty g.queue) e) in
        Keeps-eq _ _ _ (
          ap (λ q. (bytes, now) ∷ waiting q) none_left
          ∙ sym (ap (λ q. waiting q ++ ((bytes, now) ∷ [])) none_left)))

update_gate-Keeps :
    (g : BufferGate) (info : StreamInfo) → Keeps (waiting g.queue) [] (update_gate g info)
unfolding update_gate
update_gate-Keeps g info =
    let g' : BufferGate = record g {
      info = record info { is_soft_writable = g.info.is_soft_writable };
      last_out_info = info;
    } in
    elim (Bool-cases (same_info g.last_out_info info)) [
      | inl e ↦ rw e (
          Keeps-if _ _ g.info.is_linked _ _ (λ l. Keeps-same _ _ (outgoing-drained g))
            (λ l. Keeps-same _ _ refl))
      | inr e ↦ rw e (
          Keeps-if _ _ info.is_linked _ _ (λ l. Keeps-same _ _ (outgoing-drained g'))
            (λ l. Keeps-same _ _ refl))
    ]

-- A write put back with another state changes nothing of what waits.
replaced-Keeps :
    (g : BufferGate) (a b : BufferedWrite)
    → find_write b.id g.queue ≡ some a
    → b.is_sent ≡ a.is_sent
    → b.bytes ≡ a.bytes
    → b.current_time ≡ a.current_time
    → Keeps (waiting g.queue) [] (record g { queue = set_write b g.queue }, [])
replaced-Keeps g a b f s d dt = Keeps-same _ _ (waiting-set_write b a g.queue f s d dt)

module _ (g : BufferGate) (a : BufferedWrite) (f : find_write a.id g.queue ≡ some a) where
  stop_write-Keeps : Keeps (waiting g.queue) [] (stop_write g a)
  unfolding stop_write set_state
  stop_write-Keeps =
      Keeps-if _ _ a.is_sent _ _ (λ e. Keeps-same _ _ refl)
        (λ e. replaced-Keeps g a (set_state a stopped) f refl refl refl)

  update_write-Keeps : Keeps (waiting g.queue) [] (update_write g a)
  unfolding update_write
  update_write-Keeps =
      Keeps-if _ _ a.state.changed _ _
        (λ e.
          Keeps-if _ _ (is_stop a.state.state) _ _ (λ s. remove_action-Keeps g a.id)
            (λ s.
              replaced-Keeps g a (record a { state = record a.state { changed = false } }) f refl
                refl refl))
        (λ e. Keeps-same _ _ refl)

  out_changed-Keeps : (state : WriteState) → Keeps (waiting g.queue) [] (out_changed g state a)
  unfolding out_changed set_state
  out_changed-Keeps state =
      Keeps-if _ _ a.is_sent _ _ (λ e. replaced-Keeps g a (set_state a state) f refl refl refl)
        (λ e. Keeps-same _ _ refl)

  out_finished-Keeps : Keeps (waiting g.queue) [] (out_finished g a)
  unfolding out_finished
  out_finished-Keeps =
      Keeps-if _ _ a.is_sent _ _ (λ e. remove_action-Keeps g a.id) (λ e. Keeps-same _ _ refl)

with_write-Keeps :
    (g : BufferGate) (act : BufferedWrite → BufferGate × List Effect) (id : ℕ)
    → ((a : BufferedWrite) → find_write a.id g.queue ≡ some a → Keeps (waiting g.queue) [] (act a))
    → (o : Option BufferedWrite) → find_write id g.queue ≡ o
    → Keeps (waiting g.queue) [] (with_write g act o)
unfolding with_write
with_write-Keeps g act id h none f = Keeps-same _ _ refl
with_write-Keeps g act id h (some a) f =
    h a (ap (λ n. find_write n g.queue) (find_write-id id g.queue a f) ∙ f)

step-Keeps : (g : BufferGate) (e : Event) → Keeps (waiting g.queue) (offered (e ∷ [])) (step g e)
unfolding step
step-Keeps g (on_write bytes now) = write-Keeps g bytes now
step-Keeps g (on_stop id) = with_write-Keeps g _ id (stop_write-Keeps g) _ refl
step-Keeps g (on_update id) = with_write-Keeps g _ id (update_write-Keeps g) _ refl
step-Keeps g (on_out_finished id) = with_write-Keeps g _ id (out_finished-Keeps g) _ refl
step-Keeps g (on_out_changed id state) =
    with_write-Keeps g _ id (λ a f. out_changed-Keeps g a f state) _ refl
step-Keeps g (on_gate_update info) = update_gate-Keeps g info

offered-cons : (e : Event) (es : List Event) → offered (e ∷ es) ≡ offered (e ∷ []) ++ offered es
offered-cons (on_write bytes now) es = refl
offered-cons (on_stop id) es = refl
offered-cons (on_update id) es = refl
offered-cons (on_out_finished id) es = refl
offered-cons (on_out_changed id state) es = refl
offered-cons (on_gate_update info) es = refl

-- In every run the writes that reach the out gate, followed by those that still wait, are among the
-- writes that waited at the start and those offered since, in the same order, and none twice.
pub run_ordered :
    (g : BufferGate) (es : List Event)
    → Sublistᴰ (written (run g es).1 ++ waiting (run g es).0.queue) (waiting g.queue ++ offered es)
unfolding run
run_ordered g [] =
    subst (λ l. Sublistᴰ (waiting g.queue) l) (sym (append-nil (waiting g.queue)))
      (Sub.refl (waiting g.queue))
run_ordered g (e ∷ es) =
    let out = step g e in
    let later = run out.0 es in
    let now : Sublistᴰ (outgoing out) (waiting g.queue ++ offered (e ∷ [])) =
      (step-Keeps g e).order in
    let rest = Sub.append (Sub.refl (written out.1)) (run_ordered out.0 es) in
    let both : Sublistᴰ (written out.1 ++ (written later.1 ++ waiting later.0.queue))
        ((waiting g.queue ++ offered (e ∷ [])) ++ offered es) =
      Sub.trans
        (subst (λ l. Sublistᴰ (written out.1 ++ (written later.1 ++ waiting later.0.queue)) l)
          (sym (append_assoc (written out.1) (waiting out.0.queue) (offered es))) rest)
        (Sub.append now (Sub.refl (offered es))) in
    subst₂ (λ l l'. Sublistᴰ l l')
      (sym (append_assoc (written out.1) (written later.1) (waiting later.0.queue))
        ∙ sym (ap (λ l. l ++ waiting later.0.queue) (written-append out.1 later.1)))
      (append_assoc (waiting g.queue) (offered (e ∷ [])) (offered es)
        ∙ sym (ap (λ l. waiting g.queue ++ l) (offered-cons e es)))
      both
