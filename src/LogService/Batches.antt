-- ===== src/LogService/Batches.antt =====
-- What `LocalSender::send` hands to the pool (log_service/log_sender.h).
use mathlib.Core.List.{append-nil, append_assoc}
use dag_executor.Common.{
  ◌+◌, ◌<◌, ◌≡◌, refl, ap, ◌∙◌, sym, Option, some, List, [], ◌∷◌, ◌++◌, map, arith, length,
  length-append, ◌>>=◌, dec_lt,
}
use dag_executor.ThreadPool
use dag_executor.ThreadPool.{ThreadPool}
use dag_executor.ThreadPool.Dispatch.{submit_all, IsServing, add_task-IsServing}
use dag_executor.Util.{Text}
use dag_executor.LogService.{Save, save_copy, LocalSender, new_sender_on, send_log}

-- `send` for each log of a list.
pub send_all : LocalSender → List Text → Option LocalSender
send_all s [] = some s
send_all s (log ∷ logs) = send_log s log >>= λ t. send_all t logs

-- The logs one behind the other.
abbrev pub concat : List Text → Text
concat [] = []
concat (t ∷ ts) = t ++ concat ts

pub concat-append : (xs ys : List Text) → concat (xs ++ ys) ≡ concat xs ++ concat ys
concat-append [] ys = refl
concat-append (x ∷ xs) ys =
    ap (◌++◌ x) (concat-append xs ys) ∙ sym (append_assoc x (concat xs) (concat ys))

-- Every batch holds ten logs.
abbrev pub AllTens : List (List Text) → Type 0
AllTens [] = Unit
AllTens (b ∷ bs) = (length b ≡ 10) × AllTens bs

abbrev pub join : List (List Text) → List Text
join [] = []
join (b ∷ bs) = b ++ join bs

-- From the state `s`, in which the logs `kept` wait, the logs sent come to `t`: they and the kept
-- ones are cut into batches of ten, each of which was submitted as one text, and a rest that
-- waits in `t`.
pub record Sent (kept : List Text) (s : LocalSender) (logs : List Text) (t : LocalSender)
    : Type 0 where
  pub batches : List (List Text)
  pub rest : List Text
  pub cut : kept ++ logs ≡ join batches ++ rest
  pub tens : AllTens batches
  pub short : length rest < 10
  pub waiting : t.work_string ≡ concat rest
  pub counted : t.work_size ≡ length rest
  pub submitted :
      submit_all s.thread_pool (map (λ b. save_copy (concat b)) batches) ≡ some t.thread_pool

-- The logs `kept` wait in `s`.
pub record Waits (kept : List Text) (s : LocalSender) : Type 0 where
  pub cache : s.log_cache_size ≡ 10
  pub short : length kept < 10
  pub waiting : s.work_string ≡ concat kept
  pub counted : s.work_size ≡ length kept
  pub serving : IsServing s.thread_pool

concat-one : (xs : List Text) (x : Text) → concat (xs ++ x ∷ []) ≡ concat xs ++ x
concat-one xs x = concat-append xs (x ∷ []) ∙ ap (◌++◌ (concat xs)) (append-nil x)

-- A log that does not fill the cache waits.
abbrev keep : LocalSender → Text → LocalSender
keep s log = record s { work_string = s.work_string ++ log; work_size = s.work_size + 1 }

-- The log that fills it empties it.
abbrev flush : LocalSender → ThreadPool Save → LocalSender
flush s pool = record s { work_string = []; work_size = 0; thread_pool = pool }

module _ {kept : List Text} {s : LocalSender} (w : Waits kept s) (log : Text) where
  send_log-keep : length kept < 9 → send_log s log ≡ some (keep s log)
  unfolding send_log
  send_log-keep room = ground (arith, w.cache, w.counted)

  keep-Waits : length kept < 9 → Waits (kept ++ log ∷ []) (keep s log)
  keep-Waits room = record {
    cache = w.cache;
    short = omega (arith, length-append kept (log ∷ []));
    waiting = ap (λ t. t ++ log) w.waiting ∙ sym (concat-one kept log);
    counted = omega (arith, length-append kept (log ∷ []), w.counted);
    serving = w.serving;
  }

  send_log-flush :
      (pool : ThreadPool Save)
      → length kept ≡ 9
      → ThreadPool.add_task s.thread_pool (save_copy (concat (kept ++ log ∷ []))) ≡ some pool
      → send_log s log ≡ some (flush s pool)
  unfolding send_log
  send_log-flush pool full e =
      ground (arith, w.cache, w.counted, rw (concat-one kept log, ← w.waiting) at e)

  flush-Waits : (pool : ThreadPool Save) → IsServing pool → Waits [] (flush s pool)
  flush-Waits pool serving = record {
    cache = w.cache;
    short = omega arith;
    waiting = refl;
    counted = refl;
    serving = serving;
  }

module _ {kept : List Text} {s t : LocalSender} (log : Text) (logs : List Text) where
  Sent-keep : Sent (kept ++ log ∷ []) (keep s log) logs t → Sent kept s (log ∷ logs) t
  Sent-keep sent = record {
    batches = sent.batches;
    rest = sent.rest;
    cut = sym (append_assoc kept (log ∷ []) logs) ∙ sent.cut;
    tens = sent.tens;
    short = sent.short;
    waiting = sent.waiting;
    counted = sent.counted;
    submitted = sent.submitted;
  }

  Sent-flush :
      (pool : ThreadPool Save)
      → length kept ≡ 9
      → ThreadPool.add_task s.thread_pool (save_copy (concat (kept ++ log ∷ []))) ≡ some pool
      → Sent [] (flush s pool) logs t
      → Sent kept s (log ∷ logs) t
  unfolding submit_all
  Sent-flush pool full e sent = record {
    batches = (kept ++ log ∷ []) ∷ sent.batches;
    rest = sent.rest;
    cut =
        sym (append_assoc kept (log ∷ []) logs)
        ∙ ap (◌++◌ (kept ++ log ∷ [])) sent.cut
        ∙ sym (append_assoc (kept ++ log ∷ []) (join sent.batches) sent.rest);
    tens = (omega (arith, length-append kept (log ∷ [])), sent.tens);
    short = sent.short;
    waiting = sent.waiting;
    counted = sent.counted;
    submitted = rw e sent.submitted;
  }

send_all-Sent :
    (logs kept : List Text) (s : LocalSender)
    → Waits kept s
    → (t : LocalSender) × (send_all s logs ≡ some t) × Sent kept s logs t
unfolding send_all submit_all
send_all-Sent [] kept s w = (
  s,
  refl,
  record {
    batches = [];
    rest = kept;
    cut = append-nil kept;
    tens = tt;
    short = w.short;
    waiting = w.waiting;
    counted = w.counted;
    submitted = refl;
  },
)
send_all-Sent (log ∷ logs) kept s w = elim (dec_lt (length kept) 9) [
  | yes room ↦
      let (t, e, sent) =
        send_all-Sent logs (kept ++ log ∷ []) (keep s log) (keep-Waits w log room) in
      (t, rw (send_log-keep w log room) e, Sent-keep log logs sent)
  | no full ↦
      let nine : length kept ≡ 9 = omega (arith, w.short) in
      let (pool, sub, serving) =
        add_task-IsServing s.thread_pool (save_copy (concat (kept ++ log ∷ []))) w.serving in
      let (t, e, sent) = send_all-Sent logs [] (flush s pool) (flush-Waits w log pool serving) in
      (t, rw (send_log-flush w log pool nine sub) e, Sent-flush log logs pool nine sub sent)
]

-- On a pool with workers, any sequence of logs sent through a new `LocalSender` is sent without a
-- fault. It is cut into batches of ten and a rest of fewer: each batch was submitted as one text,
-- its logs in their order, and the rest is what the sender still holds. No log is lost, doubled or
-- out of order on the way to the pool.
pub send_all_lem :
    (pool : ThreadPool Save) (logs : List Text)
    → IsServing pool
    → (t : LocalSender) × (send_all (new_sender_on pool) logs ≡ some t)
      × Sent [] (new_sender_on pool) logs t
unfolding new_sender_on
send_all_lem pool logs serving = send_all-Sent logs [] (new_sender_on pool) (record {
  cache = refl;
  short = omega arith;
  waiting = refl;
  counted = refl;
  serving = serving;
})
