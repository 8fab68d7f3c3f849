-- ===== src/MicroService/Concurrent.antt =====
-- The concurrent clients (micro_service/gen-cpp/AddService.cpp, micro_service/test/gen-cpp/
-- Serv.cpp): a client picks its reply by the number of its call from those of all clients that
-- share the connection. `TConcurrentClientSyncInfo` of thrift is a parameter.
pub mod Order
use dag_executor.Common.{ℕ, zero, suc, Bool, true, false, Option, none, some, List, if◌then◌else◌}
use dag_executor.Common.Int.{ℤ, eqb_ℤ}
use dag_executor.Util.{Text}
use dag_executor.Wire.Result.{
  stuck, Error, invalid_data, application, missing_result, M, return, ◌>>=◌, ◌>>◌,
}
use dag_executor.Wire.Protocol.{MessageType, t_call, Protocol}
use dag_executor.MicroService.Rpc.{Exceptions, is_exception, is_reply, skip_message, put_message}
use dag_executor.MicroService.Add.{
  AddResult, read_add_presult, write_add_pargs, add_name, is_add, add_failed,
}
use dag_executor.MicroService.Student.{Student, read_put_presult, write_put_pargs, put_name, is_put}

-- The head of a message: `fname`, `mtype` and `rseqid`.
abbrev pub Head : Type 0
Head = Text × MessageType × ℤ

-- `TConcurrentClientSyncInfo`; while a client waits for work, others may read.
pub record Sync {ℓ κ} (B : Type ℓ) (S : Type κ) : Type (ℓ ⊔ κ) where
  pub generate_seq_id : S → ℤ × S
  pub get_pending : S → Option Head × S
  pub update_pending : Head → S → S
  pub wait_for_work : ℤ → S → M B S

-- How `recv_…` ends once it has its reply: with a result, its sentry committed, or with an
-- exception, the sentry committed or not.
pub data Ended {ℓ} (A : Type ℓ) : Type ℓ where
  done : A → Ended A
  threw : Error → Bool → Ended A

module _ {ℓ κ} {B : Type ℓ} {D : Type 0} {S : Type κ} (p : Protocol B D) (x : Exceptions B)
    (sync : Sync B S) where
  -- `getPending`, and `readMessageBegin` if there is nothing
  unfoldable pub next_head : S → M B (Head × S)
  next_head s = elim ((sync.get_pending s).0) [
    | some h ↦ return (h, (sync.get_pending s).1)
    | none ↦ p.read_message_begin >>= λ h. return (h, (sync.get_pending s).1)
  ]

  -- What `recv_…` does with its reply.
  unfoldable pub take_reply {μ ν} :
      {R : Type μ} {C : Type ν} → (Text → Bool) → M B R → (R → Ended C) → Head → M B (Ended C)
  take_reply same read_result finish h =
      if is_exception (h.1)
      then (x.read_exception >>= λ e.
          p.read_message_end >> return (Ended.threw (application (e.0) (e.1)) true))
      else ((if is_reply (h.1) then return tt else skip_message p)
          >> (if same (h.0)
              then (read_result >>= λ r. p.read_message_end >> return (finish r))
              else (skip_message p >> return (Ended.threw invalid_data false))))

  -- The loop of `recv_…`, which runs until the number of a head is `seqid`.
  unfoldable pub concurrent_recv {μ ν} :
      {R : Type μ} {C : Type ν} → (Text → Bool) → M B R → (R → Ended C) → ℤ → ℕ → S → M B (Ended C)
  unfolding next_head take_reply
  concurrent_recv same read_result finish seqid zero s bytes = stuck
  concurrent_recv same read_result finish seqid (suc fuel) s bytes =
      (next_head s >>= λ n.
      if eqb_ℤ seqid (n.0.2)
      then take_reply same read_result finish (n.0)
      else (sync.wait_for_work seqid (sync.update_pending (n.0) (n.1)) >>= λ t.
          concurrent_recv same read_result finish seqid fuel t))
        bytes

  -- `AddServiceConcurrentClient::send_add`: the bytes written, the number of the call, the state
  unfoldable pub concurrent_send_add : S → ℤ → ℤ → List B × ℤ × S
  unfolding put_message write_add_pargs
  concurrent_send_add s num1 num2 =
      let id : ℤ × S = sync.generate_seq_id s in
      (put_message p add_name t_call (id.0) (write_add_pargs p num1 num2), id.0, id.1)

  abbrev pub concurrent_finish_add : AddResult → Ended ℤ
  concurrent_finish_add r =
      if r.isset_success
      then Ended.done r.success
      else Ended.threw (application missing_result add_failed) false

  -- `AddServiceConcurrentClient::recv_add`; `memory` is what the uninitialised `_return` holds.
  unfoldable pub concurrent_recv_add : ℕ → ℕ → ℤ → ℤ → S → M B (Ended ℤ)
  unfolding concurrent_recv read_add_presult
  concurrent_recv_add fuel turns memory seqid s =
      concurrent_recv is_add
        (read_add_presult p fuel (record { success = memory; isset_success = false }))
        concurrent_finish_add seqid turns s

  -- `ServConcurrentClient::send_put`
  unfoldable pub concurrent_send_put : S → Student → List B × ℤ × S
  unfolding put_message write_put_pargs
  concurrent_send_put s student =
      let id : ℤ × S = sync.generate_seq_id s in
      (put_message p put_name t_call (id.0) (write_put_pargs p student), id.0, id.1)

  -- `ServConcurrentClient::recv_put`
  unfoldable pub concurrent_recv_put : ℕ → ℕ → ℤ → S → M B (Ended (Unit {0}))
  unfolding concurrent_recv read_put_presult
  concurrent_recv_put fuel turns seqid s =
      concurrent_recv is_put (read_put_presult p fuel) (λ r. Ended.done r) seqid turns s
