-- ===== src/Actions/Run.antt =====
-- Runs of a program that makes, copies, moves, assigns and destroys shares of action_registry.cpp.
use aether_client_cpp_new.Prelude.{
  ℕ, zero, suc, ◌+◌, ◌-◌, ◌≤◌, ◌<◌, ◌≡◌, refl, arith, Bool, true, false, none, some, List, [], ◌∷◌,
  Bool-cases, inl, inr,
}
use aether_client_cpp_new.Actions.{
  ActionRegistry, IndexShare, find, retain, empty_share, make_share, copy_share, move_share,
  destroy_share, copy_assign, move_assign, erase_action, register_action,
}
use aether_client_cpp_new.Actions.Shares.{
  counter_at, holders, one_at, counter_at-retain, counter_at-release, found,
}

-- the registry, and the shares that live
pub record World : Type 0 where
  pub registry : ActionRegistry
  pub shares : List IndexShare

-- What the program does to the first shares, and `pick`, which brings another one to the front.
pub data Event : Type 0 where
  pick add_action hold : ℕ → Event
  make_empty copy move destroy assign_copy assign_move drop_action : Event

unfoldable pub bring : ℕ → List IndexShare → List IndexShare
bring zero shares = shares
bring (suc n) [] = []
bring (suc n) (s ∷ shares) = elim (bring n shares) [ [] ↦ s ∷ [] | t ∷ more ↦ t ∷ (s ∷ more) ]

abbrev pub world : ActionRegistry → List IndexShare → World
world r shares = record { registry = r; shares = shares }

-- An event whose shares are missing changes nothing.
unfoldable pub act : Event → ActionRegistry → List IndexShare → World
unfolding bring empty_share make_share copy_share move_share destroy_share copy_assign move_assign
    erase_action register_action
act (pick n) r shares = world r (bring n shares)
act (add_action action) r shares = let (r', s) = register_action r action in world r' (s ∷ shares)
act (hold it) r shares = elim (find it r.action_list) [
  | none ↦ world r shares
  | some index ↦ let (r', s) = make_share r it in world r' (s ∷ shares)
]
act make_empty r shares = world r (empty_share ∷ shares)
act copy r [] = world r []
act copy r (other ∷ shares) = let (r', s) = copy_share r other in world r' (s ∷ (other ∷ shares))
act move r [] = world r []
act move r (other ∷ shares) = let (s, left) = move_share other in world r (s ∷ (left ∷ shares))
act destroy r [] = world r []
act destroy r (s ∷ shares) = world (destroy_share r s) shares
act assign_copy r [] = world r []
act assign_copy r (this ∷ []) = world r (this ∷ [])
act assign_copy r (this ∷ (other ∷ shares)) =
    let (r', s) = copy_assign r this other in world r' (s ∷ (other ∷ shares))
act assign_move r [] = world r []
act assign_move r (this ∷ []) = world r (this ∷ [])
act assign_move r (this ∷ (other ∷ shares)) =
    let (s, left) = move_assign this other in world r (s ∷ (left ∷ shares))
act drop_action r [] = world r []
act drop_action r (s ∷ shares) = world (erase_action r s) (s ∷ shares)

unfoldable pub run : World → List Event → World
unfolding act
run w [] = w
run w (e ∷ es) = run (act e w.registry w.shares) es

-- whether an event assigns to a share that holds a node
abbrev pub overwrites : Event → List IndexShare → Bool
overwrites assign_copy (this ∷ (other ∷ shares)) = this.registry
overwrites assign_move (this ∷ (other ∷ shares)) = this.registry
overwrites e shares = false

-- No event of the run does so.
abbrev pub Careful : World → List Event → Type 0
Careful w [] = Unit
Careful w (e ∷ es) = (overwrites e w.shares ≡ false) × Careful (act e w.registry w.shares) es

pub holders-bring :
    (k n : ℕ) (shares : List IndexShare) → holders k (bring n shares) ≡ holders k shares
unfolding bring
holders-bring k zero shares = refl
holders-bring k (suc n) [] = refl
holders-bring k (suc n) (s ∷ shares) = front (bring n shares) (holders-bring k n shares)
  where
    front :
        (out : List IndexShare)
        → holders k out ≡ holders k shares
        → holders k (elim out [ [] ↦ s ∷ [] | t ∷ more ↦ t ∷ (s ∷ more) ]) ≡ holders k (s ∷ shares)
    front [] e = omega (arith, e)
    front (t ∷ more) e = omega (arith, e)

-- The counter of a node grows by at least as much as the number of its holders, and by the same if
-- nothing is overwritten.
unfoldable pub Grows : Bool → ℕ → World → World → Type 0
Grows over k w w' =
    (counter_at k w.registry.action_list + holders k w'.shares
      ≤ counter_at k w'.registry.action_list + holders k w.shares)
    × (over ≡ false
        → counter_at k w.registry.action_list + holders k w'.shares
          ≡ counter_at k w'.registry.action_list + holders k w.shares)

unfoldable pub Sound : ActionRegistry → List IndexShare → Type 0
Sound r shares = (k : ℕ) → holders k shares ≤ counter_at k r.action_list

pub even : (over : Bool) (a b : ℕ) → a ≡ b → (a ≤ b) × (over ≡ false → a ≡ b)
even over a b e = (omega (arith, e), λ _. e)

-- A node that a share holds is in the list, and retained.
pub retained :
    (r : ActionRegistry) (s : IndexShare) (shares : List IndexShare) (k : ℕ)
    → Sound r (s ∷ shares)
    → s.registry ≡ true
    → counter_at k (retain s.it r.action_list) ≡ counter_at k r.action_list + one_at s.it k
unfolding Sound
retained r s shares k h e =
    let held : 0 < counter_at s.it r.action_list = ground (arith, h s.it) in
    let (index, there) = found s.it r.action_list held in
    counter_at-retain k s.it index r.action_list there

pub copied :
    (r : ActionRegistry) (s : IndexShare) (shares : List IndexShare) (k : ℕ)
    → Sound r (s ∷ shares)
    → counter_at k (copy_share r s).0.action_list ≡ counter_at k r.action_list + holders k (s ∷ [])
unfolding copy_share
copied r s shares k h = elim (Bool-cases s.registry) [
  | inl e ↦ rw e (ground (arith, retained r s shares k h e))
  | inr e ↦ rw e (omega arith)
]

pub destroyed :
    (r : ActionRegistry) (s : IndexShare) (shares : List IndexShare) (k : ℕ)
    → counter_at k (destroy_share r s).action_list ≡ counter_at k r.action_list - holders k (s ∷ [])
unfolding destroy_share
destroyed r s shares k = elim (Bool-cases s.registry) [
  | inl e ↦ rw e (omega (arith, counter_at-release k s.it r.action_list))
  | inr e ↦ rw e (omega arith)
]
