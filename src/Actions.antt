-- ===== src/Actions.antt =====
-- aether/actions/action_registry.h and .cpp, action_processor.cpp: the list of the actions that run,
-- the shares that keep its nodes, and the processor's update. A node of the list is told by a number,
-- and `std::list::erase` removes the node with that number. An action is a number too; none stands for
-- the null pointer.
pub mod Shares
pub mod Run
pub mod Counting
pub mod Schedule
mod Tests
use aether_client_cpp_new.Prelude.{
  ℕ, zero, suc, ◌+◌, ◌-◌, Bool, true, false, not, ◌&&◌, Option, none, some, List, [], ◌∷◌, ◌++◌,
  ltb, ◌==◌, if◌then◌else◌, min, max,
}

-- `ActionRegistry::Index`
pub record Index : Type 0 where
  pub counter : ℕ
  pub action : Option ℕ

-- `ActionRegistry`: the list in its order, and the number of the next node
pub record ActionRegistry : Type 0 where
  pub action_list : List (ℕ × Index)
  pub next_node : ℕ

-- `ActionRegistry::IndexShare`: `registry` tells whether the pointer is not null.
pub record IndexShare : Type 0 where
  pub it : ℕ
  pub registry : Bool

-- `it_->`
unfoldable pub find : ℕ → List (ℕ × Index) → Option Index
find it [] = none
find it ((n, index) ∷ more) = if n == it then some index else find it more

unfoldable pub modify : ℕ → (Index → Index) → List (ℕ × Index) → List (ℕ × Index)
modify it f [] = []
modify it f ((n, index) ∷ more) =
    if n == it then (n, f index) ∷ more else (n, index) ∷ modify it f more

unfoldable pub erase_node : ℕ → List (ℕ × Index) → List (ℕ × Index)
erase_node it [] = []
erase_node it ((n, index) ∷ more) =
    if n == it then erase_node it more else (n, index) ∷ erase_node it more

-- `++it_->counter`
unfoldable pub retain : ℕ → List (ℕ × Index) → List (ℕ × Index)
unfolding modify
retain it list = modify it (λ index. record index { counter = index.counter + 1 }) list

-- `--it_->counter`, and the node is erased if that was the last
unfoldable pub release : ℕ → List (ℕ × Index) → List (ℕ × Index)
unfolding modify erase_node find
release it list =
    let list' = modify it (λ index. record index { counter = index.counter - 1 }) list in
    elim (find it list') [
      | none ↦ list'
      | some index ↦ if index.counter == 0 then erase_node it list' else list'
    ]

-- the constructors of `IndexShare`
unfoldable pub empty_share : IndexShare
empty_share = record { it = 0; registry = false }

unfoldable pub make_share : ActionRegistry → ℕ → ActionRegistry × IndexShare
unfolding retain
make_share r it =
    (record r { action_list = retain it r.action_list }, record { it = it; registry = true })

unfoldable pub copy_share : ActionRegistry → IndexShare → ActionRegistry × IndexShare
unfolding retain
copy_share r other =
    (if other.registry then record r { action_list = retain other.it r.action_list } else r, other)

-- the new share, and what is left in the other
unfoldable pub move_share : IndexShare → IndexShare × IndexShare
move_share other = (other, record other { registry = false })

-- the destructor
unfoldable pub destroy_share : ActionRegistry → IndexShare → ActionRegistry
unfolding release
destroy_share r s = if s.registry then record r { action_list = release s.it r.action_list } else r

-- `operator=` for two different shares; to itself a share is assigned without effect. What the share
-- had before is not released.
unfoldable pub copy_assign : ActionRegistry → IndexShare → IndexShare → ActionRegistry × IndexShare
unfolding copy_share
copy_assign r this other = copy_share r other

unfoldable pub move_assign : IndexShare → IndexShare → IndexShare × IndexShare
unfolding move_share
move_assign this other = move_share other

-- `get`
unfoldable pub get : ActionRegistry → IndexShare → Option ℕ
unfolding find
get r s =
    if s.registry
    then (elim (find s.it r.action_list) [ none ↦ none | some index ↦ index.action ])
    else none

-- `Erase`
unfoldable pub erase_action : ActionRegistry → IndexShare → ActionRegistry
unfolding modify
erase_action r s =
    if s.registry
    then record r {
      action_list = modify s.it (λ index. record index { action = none }) r.action_list;
    }
    else r

-- `Register`
unfoldable pub register_action : ActionRegistry → ℕ → ActionRegistry × IndexShare
unfolding make_share
register_action r action =
    make_share
      (record {
        action_list =
            r.action_list ++ ((r.next_node, record { counter = 0; action = some action }) ∷ []);
        next_node = r.next_node + 1;
      })
      r.next_node

-- `ActionRegistryReplica`
unfoldable pub replica : ActionRegistry → List (ℕ × Index) → ActionRegistry × List IndexShare
unfolding make_share
replica r [] = (r, [])
replica r ((n, index) ∷ more) =
    let (r', s) = make_share r n in let (r'', shares) = replica r' more in (r'', s ∷ shares)

-- `SelectNextUpdate`
unfoldable pub select_next_update : ℕ → ℕ → ℕ → ℕ
select_next_update new_time old_time current_time =
    if ltb current_time new_time
    then (if not (old_time == current_time) then min new_time old_time else new_time)
    else max old_time current_time

unfoldable pub destroy_all : ActionRegistry → List IndexShare → ActionRegistry
unfolding destroy_share
destroy_all r [] = r
destroy_all r (s ∷ shares) = destroy_all (destroy_share r s) shares

-- The update of an action may change the registry and the program's other state.
module _ {S : Type 0} (update_action : ℕ → ℕ → ActionRegistry × S → (ActionRegistry × S) × ℕ) where
  -- the loop of `Update`: the state and the next update
  unfoldable pub update_loop :
      ℕ → List IndexShare → ActionRegistry × S → ℕ → (ActionRegistry × S) × ℕ
  unfolding get select_next_update
  update_loop current_time [] state next_update = (state, next_update)
  update_loop current_time (entry ∷ entries) state next_update = elim (get state.0 entry) [
    | none ↦ update_loop current_time entries state next_update
    | some action ↦
        let (state', new_time) = update_action action current_time state in
        update_loop current_time entries state'
          (select_next_update new_time next_update current_time)
  ]

  -- `ActionProcessor::Update`
  unfoldable pub update : ℕ → ActionRegistry × S → (ActionRegistry × S) × ℕ
  unfolding update_loop replica destroy_all
  update current_time (registry, rest) =
      let (registry', entries) = replica registry registry.action_list in
      let ((registry'', rest'), next_update) =
        update_loop current_time entries (registry', rest) current_time in
      ((destroy_all registry'' entries, rest'), next_update)
