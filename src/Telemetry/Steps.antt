-- ===== src/Telemetry/Steps.antt =====
-- What making and destroying an object adds to the ledger.
use aether_client_cpp_new.Prelude.{
  ℕ, ◌+◌, ◌-◌, ◌%◌, ◌^◌, ◌≤◌, ◌<◌, max, ◌≡◌, refl, arith, Bool, true, false, Option, none, some, [],
  ◌∷◌, ◌++◌, ◌==◌, if◌then◌else◌, Bool-cases, inl, inr, length, leb,
}
use aether_client_cpp_new.Telemetry.{StatisticsStore, modify, get, update_metrics_size}
use aether_client_cpp_new.Telemetry.Trap.{
  MetricStream, metric_stream, add_count, add_duration, close_metric, modify_metric,
}
use aether_client_cpp_new.Telemetry.Tele.{
  Config, Call, is_any_logs, is_any_metrics, log_entry, start_metric, destroy,
}
use aether_client_cpp_new.Telemetry.Changes.{IsStore, get-made, get-IsStore, modify-IsStore}
use aether_client_cpp_new.Telemetry.Logs.{entry_bytes, log_entry-made, log_entry-IsStore}
use aether_client_cpp_new.Telemetry.Totals.{Ledger, Holds}
use aether_client_cpp_new.Telemetry.Records.{
  metric_stream-Holds, add_count-Holds, add_duration-Holds, close_metric-Holds, log_entry-Holds,
}

module _ (c : Config) where
  -- an object is made: it is counted, and its entry is written
  abbrev pub counted : ℕ → Ledger → Ledger
  counted index t =
      if c.count_metrics
      then record t { counts = λ i. if index == i then t.counts i + 1 else t.counts i }
      else t

  abbrev pub logged : Call → Ledger → Ledger
  logged a t = if is_any_logs c then record t { entries = t.entries ++ entry_bytes c a ∷ [] } else t

  -- an object with a metric is destroyed after some time
  abbrev pub measured : ℕ → Option ℕ → Ledger → Ledger
  measured elapsed none t = t
  measured elapsed (some index) t =
      if c.time_metrics
      then record t {
        sums = λ i. if index == i then t.sums i + elapsed else t.sums i;
        longest = λ i. if index == i then max (t.longest i) elapsed else t.longest i;
      }
      else t

-- a stream is the one of the index, in statistics that were made
abbrev pub Serves : ℕ → Option MetricStream → Option ℕ → Type 0
Serves made none none = Unit
Serves made none (some i) = ⊥
Serves made (some st) none = ⊥
Serves made (some st) (some i) = (st.index ≡ i) × (st.statistics < made)

pub Serves-le :
    (m n : ℕ) (o : Option MetricStream) (a : Option ℕ) → m ≤ n → Serves m o a → Serves n o a
Serves-le m n none none l h = tt
Serves-le m n none (some i) l h = h
Serves-le m n (some st) none l h = h
Serves-le m n (some st) (some i) l (e, b) = (e, omega arith)

pub Serves-if :
    (b : Bool) (m : ℕ) (o o' : Option MetricStream) (i i' : Option ℕ)
    → Serves m o i
    → Serves m o' i'
    → Serves m (if b then o else o') (if b then i else i')
Serves-if true m o o' i i' h h' = h
Serves-if false m o o' i i' h h' = h'

-- the store after a step, with the ledger
pub record Goes (made : ℕ) (s : StatisticsStore) (t : Ledger) : Type 0 where
  pub is_store : IsStore s
  pub holds : Holds s t
  pub grown : made ≤ s.made

opened-Goes :
    (i : ℕ) (s : StatisticsStore) (t : Ledger)
    → IsStore s
    → Holds s t
    → Goes s.made (metric_stream i s).1 t
      × ((metric_stream i s).0.statistics < (metric_stream i s).1.made)
unfolding metric_stream modify
opened-Goes i s t v h =
    let w = get-IsStore s v in
    let b : (get s).current < (get s).made = omega (arith, w.current) in
    (
      record {
        is_store = modify-IsStore (get s).current (modify_metric (i % 2 ^ 32) (λ m. m)) (get s) b w;
        holds = metric_stream-Holds i s t v h;
        grown = (get-made s).0;
      },
      b,
    )

pub started-Goes :
    (c : Config) (i : ℕ) (s : StatisticsStore) (t : Ledger)
    → IsStore s
    → Holds s t
    → Goes s.made (start_metric c i s).1 (counted c (i % 2 ^ 32) t)
      × Serves
          (start_metric c i s).1.made
          (start_metric c i s).0
          (if is_any_metrics c then some (i % 2 ^ 32) else none)
unfolding start_metric is_any_metrics metric_stream
started-Goes c i s t v h =
    let (opened, b) = opened-Goes i s t v h in
    let index : (metric_stream i s).0.index ≡ i % 2 ^ 32 = refl in
    elim (Bool-cases c.count_metrics) [
      | inl e ↦ rw e (
        record {
          is_store = counted_store (metric_stream i s).0 (metric_stream i s).1 b opened.is_store;
          holds = add_count-Holds (metric_stream i s).0 1 (metric_stream i s).1 t b opened.holds;
          grown = unfold add_count modify in opened.grown;
        },
        (index, unfold add_count modify in b),
      )
      | inr e ↦ rw e (elim (Bool-cases c.time_metrics) [
        | inl f ↦ rw f (opened, (index, b))
        | inr f ↦ rw f (record { is_store = v; holds = h; grown = omega arith }, tt)
      ])
    ]
  where
    counted_store :
        (st : MetricStream) (x : StatisticsStore)
        → st.statistics < x.made
        → IsStore x
        → IsStore (add_count st 1 x)
    counted_store st x b w = unfold add_count in modify-IsStore st.statistics _ x b w

pub logged-Goes :
    (c : Config) (a : Call) (made : ℕ) (s : StatisticsStore) (t : Ledger)
    → Goes made s t
    → Goes made (if is_any_logs c then log_entry c a s else s) (logged c a t)
logged-Goes c a made s t g = elim (Bool-cases (is_any_logs c)) [
  | inl e ↦ rw e (record {
    is_store = log_entry-IsStore c a s g.is_store;
    holds = log_entry-Holds c a s t g.is_store g.holds;
    grown = omega (arith, log_entry-made c a s, (get-made s).0, g.grown);
  })
  | inr e ↦ rw e g
]

closed-Goes :
    (made : ℕ) (st : MetricStream) (s : StatisticsStore) (t : Ledger)
    → st.statistics < s.made
    → IsStore s
    → Holds s t
    → made ≤ s.made
    → Goes made (close_metric st s) t
unfolding close_metric modify
closed-Goes made st s t b v h l =
    let count = length (s.statistics st.statistics).metrics in
    record {
      is_store = elim (Bool-cases (leb count st.size)) [
        | inl e ↦ rw e v
        | inr e ↦ rw e (modify-IsStore st.statistics (update_metrics_size (count - st.size)) s b v)
      ];
      holds = close_metric-Holds st s t h;
      grown = ground arith;
    }

pub destroyed-Goes :
    (c : Config) (elapsed : ℕ) (o : Option MetricStream) (i : Option ℕ) (s : StatisticsStore)
    (t : Ledger)
    → IsStore s
    → Holds s t
    → Serves s.made o i
    → Goes s.made (destroy c elapsed o s) (measured c elapsed i t)
unfolding destroy
destroyed-Goes c elapsed none none s t v h e = record {
  is_store = v;
  holds = h;
  grown = omega arith;
}
destroyed-Goes c elapsed none (some i) s t v h e = absurd e
destroyed-Goes c elapsed (some st) none s t v h e = absurd e
destroyed-Goes c elapsed (some st) (some i) s t v h (e, b) =
    rw (← e) (elim (Bool-cases c.time_metrics) [
      | inl f ↦ rw f (
          closed-Goes s.made st (add_duration st elapsed s) _ (unfold add_duration modify in b)
            (unfold add_duration in modify-IsStore st.statistics _ s b v)
            (add_duration-Holds st elapsed s t b h) (unfold add_duration modify in omega arith))
      | inr f ↦ rw f (closed-Goes s.made st s t b v h (omega arith))
    ])
