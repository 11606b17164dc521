-- ===== src/Telemetry/Accounts.antt =====
-- The runs of the telemetry, with the ledger that is kept beside them.
use aether_client_cpp_new.Prelude.{
  ℕ, ◌+◌, ◌%◌, ◌^◌, ◌≡◌, refl, ap, arith, Option, none, some, List, [], ◌∷◌, ◌==◌, if◌then◌else◌,
}
use aether_client_cpp_new.Telemetry.{StatisticsStore, new_store}
use aether_client_cpp_new.Telemetry.Tele.{
  Config, Call, is_any_metrics, start_metric, construct, Event, make_tele, destroy_tele, Program,
  fresh, step, run,
}
use aether_client_cpp_new.Telemetry.Changes.{IsStore}
use aether_client_cpp_new.Telemetry.Totals.{Ledger, Holds}
use aether_client_cpp_new.Telemetry.Records.{new_store-Holds}
use aether_client_cpp_new.Telemetry.Steps.{
  counted, logged, measured, Serves, Serves-le, Serves-if, Goes, started-Goes, logged-Goes,
  destroyed-Goes,
}

-- The ledger, the index of each object that is not destroyed and has a metric, and their number.
pub record Account : Type 0 where
  pub ledger : Ledger
  pub asked : ℕ → Option ℕ
  pub count : ℕ

abbrev pub no_account : Account
no_account = record {
  ledger = record { counts = λ i. 0; sums = λ i. 0; longest = λ i. 0; entries = [] };
  asked = λ k. none;
  count = 0;
}

module _ (c : Config) where
  abbrev pub note : Event → Account → Account
  note (make_tele a) t = record {
    ledger = logged c a (counted c (a.declaration % 2 ^ 32) t.ledger);
    asked = λ n.
        if n == t.count
        then (if is_any_metrics c then some (a.declaration % 2 ^ 32) else none)
        else t.asked n;
    count = t.count + 1;
  }
  note (destroy_tele k elapsed) t = record t {
    ledger = measured c elapsed (t.asked k) t.ledger;
    asked = λ n. if n == k then none else t.asked n;
  }

  abbrev pub account : List Event → Account → Account
  account [] t = t
  account (e ∷ es) t = account es (note e t)

record Agrees (p : Program) (t : Account) : Type 0 where
  store : IsStore p.store
  holds : Holds p.store t.ledger
  same_count : p.count ≡ t.count
  serves : (k : ℕ) → Serves p.store.made (p.teles k) (t.asked k)

Agrees-make :
    (c : Config) (a : Call) (p : Program) (t : Account)
    → Agrees p t
    → Agrees (step c (make_tele a) p) (note c (make_tele a) t)
unfolding step construct
Agrees-make c a p t g =
    let (started, served) = started-Goes c a.declaration p.store t.ledger g.store g.holds in
    let s = (start_metric c a.declaration p.store).1 in
    let made =
      logged-Goes c a s.made s (counted c (a.declaration % 2 ^ 32) t.ledger) (same_made started) in
    record {
      store = made.is_store;
      holds = made.holds;
      same_count = ap (λ (n : ℕ). n + 1) g.same_count;
      serves = λ n. rw g.same_count (
          Serves-if (n == t.count) _ _ _ _ _
            (Serves-le s.made _ (start_metric c a.declaration p.store).0 _ made.grown served)
            (Serves-le p.store.made _ (p.teles n) (t.asked n)
              (omega (arith, started.grown, made.grown)) (g.serves n)));
    }
  where
    same_made : {m : ℕ} {s : StatisticsStore} {l : Ledger} → Goes m s l → Goes s.made s l
    same_made g = record { is_store = g.is_store; holds = g.holds; grown = omega arith }

Agrees-destroy :
    (c : Config) (k elapsed : ℕ) (p : Program) (t : Account)
    → Agrees p t
    → Agrees (step c (destroy_tele k elapsed) p) (note c (destroy_tele k elapsed) t)
unfolding step
Agrees-destroy c k elapsed p t g =
    let went =
      destroyed-Goes c elapsed (p.teles k) (t.asked k) p.store t.ledger g.store g.holds
        (g.serves k) in
    record {
      store = went.is_store;
      holds = went.holds;
      same_count = g.same_count;
      serves = λ n.
          Serves-if (n == k) _ none (p.teles n) none (t.asked n) tt
            (Serves-le p.store.made _ (p.teles n) (t.asked n) went.grown (g.serves n));
    }

run-Agrees :
    (c : Config) (es : List Event) (p : Program) (t : Account)
    → Agrees p t
    → Agrees (run c es p) (account c es t)
unfolding run
run-Agrees c [] p t g = g
run-Agrees c (make_tele a ∷ es) p t g =
    run-Agrees c es (step c (make_tele a) p) (note c (make_tele a) t) (Agrees-make c a p t g)
run-Agrees c (destroy_tele k elapsed ∷ es) p t g =
    run-Agrees c es (step c (destroy_tele k elapsed) p) (note c (destroy_tele k elapsed) t)
      (Agrees-destroy c k elapsed p t g)

fresh-Agrees : (limit : ℕ) → Agrees (fresh limit) no_account
fresh-Agrees limit = record {
  store = unfold new_store in record { current = refl; unmade = λ u b. refl };
  holds = new_store-Holds limit;
  same_count = refl;
  serves = λ k. tt;
}

pub run-IsStore :
    (c : Config) (limit : ℕ) (es : List Event) → IsStore (run c es (fresh limit)).store
run-IsStore c limit es = (run-Agrees c es (fresh limit) no_account (fresh-Agrees limit)).store

-- Whatever flags are set, and in whatever order objects are made and destroyed, with any limit on the
-- size: all statistics that were made hold together, for each index, as many counts as objects were
-- made with it and the sum of the times until they were destroyed, both modulo 2 to the power of 32,
-- and the longest of the times; their logs, one behind the other, are the entries of the objects in
-- the order in which they were made. The shortest time is always 0. The ledger records this without
-- a store.
pub run-Holds :
    (c : Config) (limit : ℕ) (es : List Event)
    → Holds (run c es (fresh limit)).store (account c es no_account).ledger
run-Holds c limit es = (run-Agrees c es (fresh limit) no_account (fresh-Agrees limit)).holds
