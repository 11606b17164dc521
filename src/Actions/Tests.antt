-- ===== src/Actions/Tests.antt =====
-- Runs of the action registry and processor.
use aether_client_cpp_new.Prelude.{ℕ, ◌≤◌, ◌≡◌, refl, List, [], ◌∷◌, ltb, if◌then◌else◌}
use aether_client_cpp_new.Actions.{ActionRegistry, find, register_action, replica, update}
use aether_client_cpp_new.Actions.Shares.{counter_at, holders}
use aether_client_cpp_new.Actions.Run.{
  Event, pick, add_action, copy, destroy, assign_copy, run, act, Careful,
}
use aether_client_cpp_new.Actions.Counting.{fresh, run_counts, run_counts_exact}
use aether_client_cpp_new.Actions.Schedule.{IsNext, times_of, update-IsNext}

abbrev busy : List Event
busy = add_action 5 ∷ copy ∷ add_action 6 ∷ pick 2 ∷ assign_copy ∷ destroy ∷ []

run_counts_example :
    holders 0 (run fresh busy).shares ≤ counter_at 0 (run fresh busy).registry.action_list
run_counts_example = run_counts busy 0

-- The share of action 5 that was assigned to is not counted off.
node_kept :
    counter_at 0
      (run fresh (
        add_action 5
        ∷ add_action 6
        ∷ pick 1
        ∷ assign_copy
        ∷ destroy
        ∷ destroy
        ∷ [])).registry.action_list
    ≡ 1
unfolding run find
node_kept = refl

abbrev careful : List Event
careful = add_action 5 ∷ copy ∷ destroy ∷ destroy ∷ []

careful_free : Careful fresh careful
unfolding act
careful_free = (refl, (refl, (refl, (refl, tt))))

run_counts_exact_example :
    holders 0 (run fresh careful).shares ≡ counter_at 0 (run fresh careful).registry.action_list
run_counts_exact_example = run_counts_exact careful 0 careful_free

abbrev two_actions : ActionRegistry
two_actions = (register_action (register_action fresh.registry 5).0 6).0

-- action 5 asks for 30, action 6 for 20
abbrev asks : ℕ → ℕ → ActionRegistry × ℕ → (ActionRegistry × ℕ) × ℕ
asks action now state = (state, if ltb action 6 then 30 else 20)

update-IsNext_example :
    let (registry', entries) = replica two_actions two_actions.action_list in
    IsNext 10 (times_of asks 10 entries (registry', 0)) (update asks 10 (two_actions, 0)).1
update-IsNext_example = update-IsNext asks 10 two_actions 0

twenty : (update asks 10 (two_actions, 0)).1 ≡ 20
unfolding update register_action
twenty = refl
