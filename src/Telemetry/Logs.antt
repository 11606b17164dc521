-- ===== src/Telemetry/Logs.antt =====
-- The entry that a `Tele` leaves in the logs, and what the log stream leaves alone.
use aether_client_cpp_new.Prelude.{
  ℕ, zero, suc, ◌-◌, ◌<◌, ◌≡◌, refl, ap, ◌∙◌, sym, arith, Bool, true, false, Option, none, some,
  List, [], ◌∷◌, ◌++◌, append_assoc, append-nil, ◌==◌, if◌then◌else◌, Bool-cases, inl, inr, length,
  leb,
}
use mathlib.Core.Path.{fun_ext}
use aether_client_cpp_new.MStream.{to_bytes}
use aether_client_cpp_new.Telemetry.{Statistics, StatisticsStore, modify, get, update_logs_size}
use aether_client_cpp_new.Telemetry.Trap.{
  LogStream, log_stream, append_at, write_entry, packed_bytes, text_bytes, close_log, index,
  start_time, level, module_number, file, line, name, blob,
}
use aether_client_cpp_new.Telemetry.Changes.{IsStore, get-IsStore, modify-IsStore}
use aether_client_cpp_new.Telemetry.Tele.{Config, Call, log_text, log_call, log_entry}

append_at-append_at :
    (n : ℕ) (a b : List ℕ) (es : List (List ℕ))
    → append_at n b (append_at n a es) ≡ append_at n (a ++ b) es
unfolding append_at
append_at-append_at n a b [] = refl
append_at-append_at zero a b (e ∷ es) = ap (λ x. x ∷ es) (append_assoc e a b)
append_at-append_at (suc n) a b (e ∷ es) = ap (◌∷◌ e) (append_at-append_at n a b es)

append_at-nil : (n : ℕ) (es : List (List ℕ)) → append_at n [] es ≡ es
unfolding append_at
append_at-nil n [] = refl
append_at-nil zero (e ∷ es) = ap (λ x. x ∷ es) (append-nil e)
append_at-nil (suc n) (e ∷ es) = ap (◌∷◌ e) (append_at-nil n es)

append_at-length :
    (bytes : List ℕ) (es : List (List ℕ))
    → append_at (length es) bytes (es ++ [] ∷ []) ≡ es ++ bytes ∷ []
unfolding append_at
append_at-length bytes [] = refl
append_at-length bytes (e ∷ es) = ap (◌∷◌ e) (append_at-length bytes es)

abbrev with_logs : Statistics → List (List ℕ) → Statistics
with_logs x ls = record x { logs = ls }

with_statistics : StatisticsStore → (ℕ → Statistics) → StatisticsStore
with_statistics s f = record s { statistics = f }

write-write :
    (st : LogStream) (a b : List ℕ) (s : StatisticsStore)
    → write_entry st b (write_entry st a s) ≡ write_entry st (a ++ b) s
unfolding write_entry modify with_statistics
write-write st a b s = ap (with_statistics s) (fun_ext λ n. at n (n == st.statistics))
  where
    at :
        (n : ℕ) (t : Bool)
        → (if t
            then with_logs
                (if t
                  then with_logs (s.statistics n) (append_at st.entry a (s.statistics n).logs)
                  else s.statistics n)
                (append_at st.entry b
                  (if t
                    then with_logs (s.statistics n) (append_at st.entry a (s.statistics n).logs)
                    else s.statistics n).logs)
            else (if t
                then with_logs (s.statistics n) (append_at st.entry a (s.statistics n).logs)
                else s.statistics n))
          ≡ (if t
              then with_logs (s.statistics n) (append_at st.entry (a ++ b) (s.statistics n).logs)
              else s.statistics n)
    at n true =
        ap (with_logs (s.statistics n)) (append_at-append_at st.entry a b (s.statistics n).logs)
    at n false = refl

write-nil : (st : LogStream) (s : StatisticsStore) → write_entry st [] s ≡ s
unfolding write_entry modify with_statistics
write-nil st s = ap (with_statistics s) (fun_ext λ n. at n (n == st.statistics))
  where
    at :
        (n : ℕ) (t : Bool)
        → (if t
            then with_logs (s.statistics n) (append_at st.entry [] (s.statistics n).logs)
            else s.statistics n)
          ≡ s.statistics n
    at n true = ap (with_logs (s.statistics n)) (append_at-nil st.entry (s.statistics n).logs)
    at n false = refl

-- a piece that is written under a condition
abbrev pub piece : Bool → List ℕ → List ℕ
piece true bytes = bytes
piece false bytes = []

write-if :
    (st : LogStream) (t : Bool) (a b : List ℕ) (s : StatisticsStore)
    → (if t then write_entry st b (write_entry st a s) else write_entry st a s)
      ≡ write_entry st (a ++ piece t b) s
write-if st true a b s = write-write st a b s
write-if st false a b s = ap (λ x. write_entry st x s) (sym (append-nil a))

write_first :
    (st : LogStream) (t : Bool) (b : List ℕ) (s : StatisticsStore)
    → (if t then write_entry st b s else s) ≡ write_entry st (piece t b) s
write_first st true b s = refl
write_first st false b s = sym (write-nil st s)

write_second :
    (st : LogStream) (t : Bool) (a b d : List ℕ) (s : StatisticsStore)
    → (if t then write_entry st d (write_entry st b (write_entry st a s)) else write_entry st a s)
      ≡ write_entry st (a ++ piece t (b ++ d)) s
write_second st true a b d s =
    ap (write_entry st d) (write-write st a b s)
    ∙ write-write st (a ++ b) d s
    ∙ ap (λ x. write_entry st x s) (append_assoc a b d)
write_second st false a b d s = ap (λ x. write_entry st x s) (sym (append-nil a))

abbrev text_piece : Bool → Option (List ℕ) → List ℕ
text_piece t none = []
text_piece t (some x) = piece t (text_bytes x)

-- the bytes of an entry: what the flags ask for, in this order
abbrev pub entry_bytes : Config → Call → List ℕ
entry_bytes c a =
    piece c.index_logs (packed_bytes a.declaration)
    ++ piece c.start_time_logs (to_bytes 8 a.start)
    ++ piece c.level_module_logs (to_bytes 1 a.level_ ++ to_bytes 4 a.module_)
    ++ piece c.location_logs (text_bytes a.file_ ++ packed_bytes a.line_)
    ++ piece c.name_logs (text_bytes a.name_)
    ++ text_piece c.blob_logs a.text

log_text-write :
    (c : Config) (st : LogStream) (b : List ℕ) (t : Option (List ℕ)) (s : StatisticsStore)
    → log_text c st t (write_entry st b s) ≡ write_entry st (b ++ text_piece c.blob_logs t) s
unfolding log_text blob
log_text-write c st b none s = ap (λ x. write_entry st x s) (sym (append-nil b))
log_text-write c st b (some t) s = write-if st c.blob_logs b (text_bytes t) s

log_call-write :
    (c : Config) (a : Call) (st : LogStream) (s : StatisticsStore)
    → log_call c a st s ≡ write_entry st (entry_bytes c a) s
unfolding log_call index start_time level module_number file line name
log_call-write c a st s =
    let p1 = piece c.index_logs (packed_bytes a.declaration) in
    let p2 = p1 ++ piece c.start_time_logs (to_bytes 8 a.start) in
    let p3 = p2 ++ piece c.level_module_logs (to_bytes 1 a.level_ ++ to_bytes 4 a.module_) in
    let p4 = p3 ++ piece c.location_logs (text_bytes a.file_ ++ packed_bytes a.line_) in
    let p5 = p4 ++ piece c.name_logs (text_bytes a.name_) in
    rw (write_first st c.index_logs (packed_bytes a.declaration) s) (
      rw (write-if st c.start_time_logs p1 (to_bytes 8 a.start) s) (
        rw (write_second st c.level_module_logs p2 (to_bytes 1 a.level_) (to_bytes 4 a.module_) s) (
          rw (write_second st c.location_logs p3 (text_bytes a.file_) (packed_bytes a.line_) s) (
            rw (write-if st c.name_logs p4 (text_bytes a.name_) s)
              (log_text-write c st p5 a.text s)))))

close_log-logs :
    (st : LogStream) (s : StatisticsStore) (u : ℕ)
    → ((close_log st s).statistics u).logs ≡ (s.statistics u).logs
unfolding close_log modify update_logs_size
close_log-logs st s u = ground arith

opened-logs :
    (b : List ℕ) (s : StatisticsStore) (u : ℕ) (t : Bool)
    → (t ≡ true → u ≡ s.current)
    → (if t
        then append_at
            (length (s.statistics s.current).logs)
            b
            (if t then (s.statistics u).logs ++ [] ∷ [] else (s.statistics u).logs)
        else (if t then (s.statistics u).logs ++ [] ∷ [] else (s.statistics u).logs))
      ≡ (if t then (s.statistics u).logs ++ b ∷ [] else (s.statistics u).logs)
opened-logs b s u true same = rw (← (same refl)) (append_at-length b (s.statistics u).logs)
opened-logs b s u false same = refl

-- what a log entry changes: the current statistics, as `get` leaves them, have it behind their logs,
-- and no metric changes
pub log_entry-logs :
    (c : Config) (a : Call) (s : StatisticsStore) (u : ℕ)
    → ((log_entry c a s).statistics u).logs ≡ (
        if u == (get s).current
        then ((get s).statistics u).logs ++ entry_bytes c a ∷ []
        else ((get s).statistics u).logs)
unfolding log_entry log_stream write_entry modify
log_entry-logs c a s u =
    close_log-logs (log_stream s).0 (log_call c a (log_stream s).0 (log_stream s).1) u
    ∙ rw (log_call-write c a (log_stream s).0 (log_stream s).1) (
        rw (if-logs (u == (get s).current) _ _) (
          rw (if-logs (u == (get s).current) _ _) (
            opened-logs (entry_bytes c a) (get s) u (u == (get s).current)
              (λ e. ground (arith, e)))))
  where
    if-logs :
        (t : Bool) (x y : Statistics) → (if t then x else y).logs ≡ (if t then x.logs else y.logs)
    if-logs true x y = refl
    if-logs false x y = refl

pub log_entry-metrics :
    (c : Config) (a : Call) (s : StatisticsStore) (u : ℕ)
    → ((log_entry c a s).statistics u).metrics ≡ ((get s).statistics u).metrics
unfolding log_entry log_stream write_entry modify close_log update_logs_size
log_entry-metrics c a s u = rw (log_call-write c a (log_stream s).0 (log_stream s).1) (ground arith)

pub log_entry-current :
    (c : Config) (a : Call) (s : StatisticsStore) → (log_entry c a s).current ≡ (get s).current
unfolding log_entry log_stream write_entry modify close_log
log_entry-current c a s = rw (log_call-write c a (log_stream s).0 (log_stream s).1) (ground arith)

pub log_entry-made :
    (c : Config) (a : Call) (s : StatisticsStore) → (log_entry c a s).made ≡ (get s).made
unfolding log_entry log_stream write_entry modify close_log
log_entry-made c a s = rw (log_call-write c a (log_stream s).0 (log_stream s).1) (ground arith)

close_log-IsStore :
    (st : LogStream) (s : StatisticsStore)
    → st.statistics < s.made
    → IsStore s
    → IsStore (close_log st s)
unfolding close_log
close_log-IsStore st s b v =
    let count = length (s.statistics st.statistics).logs in
    elim (Bool-cases (leb count st.size)) [
      | inl e ↦ rw e v
      | inr e ↦ rw e (modify-IsStore st.statistics (update_logs_size (count - st.size)) s b v)
    ]

pub log_entry-IsStore :
    (c : Config) (a : Call) (s : StatisticsStore) → IsStore s → IsStore (log_entry c a s)
unfolding log_entry log_stream write_entry modify
log_entry-IsStore c a s v =
    let w = get-IsStore s v in
    let k = (get s).current in
    let b : k < (get s).made = omega (arith, w.current) in
    let opened = modify-IsStore k (λ x. record x { logs = x.logs ++ [] ∷ [] }) (get s) b w in
    let st = (log_stream s).0 in
    let written =
      modify-IsStore k (λ x. record x { logs = append_at st.entry (entry_bytes c a) x.logs })
        (log_stream s).1 b opened in
    rw (log_call-write c a st (log_stream s).1)
      (close_log-IsStore st (write_entry st (entry_bytes c a) (log_stream s).1) b written)
