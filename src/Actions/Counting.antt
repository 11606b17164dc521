-- ===== src/Actions/Counting.antt =====
-- Counters and holders in the runs of action_registry.cpp.
use aether_client_cpp_new.Prelude.{
  ℕ, ◌≤◌, ◌≡◌, refl, arith, false, Option, none, some, List, [], ◌∷◌, Bool-cases, inl, inr,
}
use aether_client_cpp_new.Actions.{
  Index, ActionRegistry, IndexShare, find, empty_share, make_share, copy_share, move_share,
  destroy_share, copy_assign, move_assign, erase_action, register_action,
}
use aether_client_cpp_new.Actions.Shares.{
  counter_at, holders, counter_at-retain, counter_at-clear, counter_at-append, found_last,
}
use aether_client_cpp_new.Actions.Run.{
  World, world, Event, pick, add_action, hold, make_empty, copy, move, destroy, assign_copy,
  assign_move, drop_action, act, run, overwrites, Careful, holders-bring, Grows, Sound, even,
  copied, destroyed,
}

module _ (r : ActionRegistry) (shares : List IndexShare) (k : ℕ) where
  added-Grows : (action : ℕ) → Grows false k (world r shares) (act (add_action action) r shares)
  unfolding act register_action make_share Grows
  added-Grows action =
      let last : Index = record { counter = 0; action = some action } in
      let (index, there) = found_last r.next_node r.action_list last in
      even _ _ _ (
        omega (
          arith,
          counter_at-retain k r.next_node index _ there,
          counter_at-append k r.next_node r.action_list (some action),
        ))

  held-Grows :
      (it : ℕ) (o : Option Index)
      → find it r.action_list ≡ o
      → Grows false k (world r shares) (elim o [
        | none ↦ world r shares
        | some index ↦ let (r', s) = make_share r it in world r' (s ∷ shares)
      ])
  unfolding make_share Grows
  held-Grows it none e = even _ _ _ (omega arith)
  held-Grows it (some index) e =
      even _ _ _ (omega (arith, counter_at-retain k it index r.action_list e))

act-Grows :
    (e : Event) (r : ActionRegistry) (shares : List IndexShare)
    → Sound r shares
    → (k : ℕ) → Grows (overwrites e shares) k (world r shares) (act e r shares)
unfolding act Sound Grows copy_share copy_assign move_share move_assign empty_share destroy_share
    erase_action
act-Grows (pick n) r shares h k = even _ _ _ (omega (arith, holders-bring k n shares))
act-Grows (add_action action) r shares h k = added-Grows r shares k action
act-Grows (hold it) r shares h k = held-Grows r shares k it (find it r.action_list) refl
act-Grows make_empty r shares h k = even _ _ _ (omega arith)
act-Grows copy r [] h k = even _ _ _ (omega arith)
act-Grows copy r (s ∷ shares) h k = even _ _ _ (omega (arith, copied r s shares k h))
act-Grows move r [] h k = even _ _ _ (omega arith)
act-Grows move r (s ∷ shares) h k = even _ _ _ (omega arith)
act-Grows destroy r [] h k = even _ _ _ (omega arith)
act-Grows destroy r (s ∷ shares) h k = even _ _ _ (omega (arith, destroyed r s shares k, h k))
act-Grows assign_copy r [] h k = even _ _ _ (omega arith)
act-Grows assign_copy r (s ∷ []) h k = even _ _ _ (omega arith)
act-Grows assign_copy r (s ∷ (t ∷ shares)) h k =
    let counted = copied r t shares k (λ n. omega (arith, h n)) in
    (omega (arith, counted), λ free. rw free (omega (arith, counted)))
act-Grows assign_move r [] h k = even _ _ _ (omega arith)
act-Grows assign_move r (s ∷ []) h k = even _ _ _ (omega arith)
act-Grows assign_move r (s ∷ (t ∷ shares)) h k = (omega arith, λ free. rw free (omega arith))
act-Grows drop_action r [] h k = even _ _ _ (omega arith)
act-Grows drop_action r (s ∷ shares) h k = elim (Bool-cases s.registry) [
  | inl e ↦ rw e (even _ _ _ (omega (arith, counter_at-clear k s.it r.action_list)))
  | inr e ↦ rw e (even _ _ _ (omega arith))
]

run-Sound :
    (w : World) (es : List Event)
    → Sound w.registry w.shares
    → Sound (run w es).registry (run w es).shares
unfolding run
run-Sound w [] h = h
run-Sound w (e ∷ es) h =
    run-Sound (act e w.registry w.shares) es
      (unfold Sound Grows in λ k. omega (arith, h k, (act-Grows e w.registry w.shares h k).0))

run_exact :
    (w : World) (es : List Event)
    → Careful w es
    → ((k : ℕ) → holders k w.shares ≡ counter_at k w.registry.action_list)
    → (k : ℕ) → holders k (run w es).shares ≡ counter_at k (run w es).registry.action_list
unfolding run
run_exact w [] careful h = h
run_exact w (e ∷ es) (free, careful) h = run_exact (act e w.registry w.shares) es careful (
    unfold Sound Grows in
    λ k. omega (arith, h k, (act-Grows e w.registry w.shares (λ n. omega (arith, h n)) k).1 free))

abbrev pub fresh : World
fresh = world (record { action_list = []; next_node = 0 }) []

-- After any events of a program that starts without shares and nodes, the counter of every node is at
-- least the number of the shares that hold it. A node that is not in the list counts 0.
pub run_counts :
    (es : List Event) (k : ℕ)
    → holders k (run fresh es).shares ≤ counter_at k (run fresh es).registry.action_list
unfolding Sound
run_counts es k =
    let start : Sound fresh.registry fresh.shares = unfold Sound find in λ n. omega arith in
    (run-Sound fresh es start) k

-- If none of the events assigns to a share that holds a node, the counter of every node is exactly the
-- number of the shares that hold it. A node that is not in the list counts 0.
pub run_counts_exact :
    (es : List Event) (k : ℕ)
    → Careful fresh es
    → holders k (run fresh es).shares ≡ counter_at k (run fresh es).registry.action_list
run_counts_exact es k careful = run_exact fresh es careful start k
  where
    start : (n : ℕ) → holders n fresh.shares ≡ counter_at n fresh.registry.action_list
    start n = unfold find in omega arith
