-- ===== src/MicroService/Concurrent/Order.antt =====
-- Replies that arrive in any order (micro_service/gen-cpp/AddService.cpp).
use dag_executor.Common.{
  ℕ, suc, ◌≡◌, refl, Bool, true, false, some, none, ap, ◌∙◌, List, [], ◌∷◌, ◌++◌, arith,
}
use dag_executor.Common.Int.{ℤ, eqb_ℤ}
use dag_executor.Util.{Text}
use dag_executor.Wire.Result.{ok, unknown, application, M, ◌>>=◌}
use dag_executor.Wire.Protocol.{MessageType, t_reply, t_exception, Protocol, IsI32}
use dag_executor.Wire.Reads.{Reads, Laws, Reads-return, Reads-bind, Reads-map}
use dag_executor.MicroService.Rpc.{Exceptions, Handled, put_message, answer, invalid_method}
use dag_executor.MicroService.Calls.{ExceptionLaws, Reads-served}
use dag_executor.MicroService.Add.{
  read_add_presult, new_add_args, write_add_result, add_name, is_add, process_add, dispatch_add,
}
use dag_executor.MicroService.Remote.Add.{ReturnsI32}
use dag_executor.MicroService.Remote.AddReads.{pargs-Reads, result-Reads}
use dag_executor.MicroService.Concurrent.{
  Head, Sync, Ended, next_head, take_reply, concurrent_recv, concurrent_send_add,
  concurrent_finish_add, concurrent_recv_add,
}

-- How a call of the handler ends for the caller, whose sentry is committed.
abbrev pub ended {κ} : {R : Type κ} → Handled R → Ended R
ended (Handled.returned r) = Ended.done r
ended (Handled.thrown what) = Ended.threw (application unknown what) true

-- The kind of message that answers a call.
abbrev pub answer_type {κ} : {R : Type κ} → Handled R → MessageType
answer_type (Handled.returned r) = t_reply
answer_type (Handled.thrown what) = t_exception

-- A reply as a client meets it: its head, whether another client has read that already and left it
-- pending, and the rest of its bytes.
pub record Reply (B : Type 0) : Type 0 where
  pub pending : Bool
  pub head : Head
  pub body : List B

module _ {B D S : Type 0} (p : Protocol B D) (sync : Sync B S) where
  -- The bytes of a head that are still on the connection.
  abbrev pub head_bytes : Bool → Head → List B
  head_bytes true h = []
  head_bytes false h = p.write_message_begin (h.0) (h.1) (h.2)

  -- The bytes of the replies to others, and behind them those of the client's own.
  abbrev pub stream : List (Reply B) → List B → List B
  stream [] own = own
  stream (e ∷ es) own = head_bytes e.pending e.head ++ (e.body ++ stream es own)

  -- The head is the pending one, or nothing is pending.
  abbrev pub IsNext : Bool → Head → S → Type 0
  IsNext true h s = (sync.get_pending s).0 ≡ some h
  IsNext false h s = (sync.get_pending s).0 ≡ none

  -- The client's own reply, pending or not, comes behind replies to others; of each head that is
  -- pending `getPending` tells, and while the client waits, the others take the rest of their reply.
  abbrev pub Others : Bool → Head → S → List (Reply B) → Type 0
  Others mine own s [] = IsNext mine own s
  Others mine own s (e ∷ es) =
      IsNext e.pending e.head s
      × (eqb_ℤ (own.2) (e.head.2) ≡ false)
      × IsI32 (e.head.2)
      × ((t : S) × Reads
            (sync.wait_for_work (own.2) (sync.update_pending e.head ((sync.get_pending s).1)))
            e.body t
          × Others mine own t es)

eqb_ℤ-refl : (z : ℤ) → eqb_ℤ z z ≡ true
eqb_ℤ-refl z = ground arith

-- A turn of the loop for each reply.
abbrev pub turns : {B : Type 0} → List (Reply B) → ℕ → ℕ
turns [] fuel = suc fuel
turns (e ∷ es) fuel = suc (turns es fuel)

module _ {B D S : Type 0} {p : Protocol B D} (laws : Laws p) (x : Exceptions B)
    (sync : Sync B S) where
  -- The next head is the pending one, or else the next on the connection.
  next-Reads :
      (s : S) (pending : Bool) (h : Head)
      → IsI32 (h.2)
      → IsNext p sync pending h s
      → Reads (next_head p x sync s) (head_bytes p sync pending h) (h, (sync.get_pending s).1)
  unfolding next_head
  next-Reads s true h small e = rw (e, next_head) (Reads-return _)
  next-Reads s false h small e =
      rw (e, next_head) (Reads-map _ (laws.message_begin (h.0) (h.1) (h.2) small))

  module _ {R C : Type 0} (same : Text → Bool) (read_result : M B R) (finish : R → Ended C)
      (own : Head) (small : IsI32 (own.2)) where
    -- The client's own reply.
    own-Reads :
        {c : Ended C} {left : List B} (fuel : ℕ) (s : S) (mine : Bool)
        → IsNext p sync mine own s
        → Reads (take_reply p x sync same read_result finish own) left c
        → Reads
            (concurrent_recv p x sync same read_result finish (own.2) (suc fuel) s)
            (head_bytes p sync mine own ++ left)
            c
    unfolding concurrent_recv
    own-Reads fuel s mine e r =
        Reads-bind _ (next-Reads s mine own small e) (rw (eqb_ℤ-refl (own.2)) r)

    -- The replies to others, and the client's own behind them.
    stream-Reads :
        {c : Ended C} {left : List B} (es : List (Reply B)) (fuel : ℕ) (s : S) (mine : Bool)
        → Others p sync mine own s es
        → Reads (take_reply p x sync same read_result finish own) left c
        → Reads
            (concurrent_recv p x sync same read_result finish (own.2) (turns es fuel) s)
            (stream p sync es (head_bytes p sync mine own ++ left))
            c
    unfolding concurrent_recv
    stream-Reads [] fuel s mine o r = own-Reads fuel s mine o r
    stream-Reads (e ∷ es) fuel s mine o r =
        Reads-bind _ (next-Reads s e.pending e.head (o.2) (o.0))
          (rw (o.1) (Reads-bind _ (o.3.1) (stream-Reads es fuel (o.3.0) mine (o.3.2) r)))

  -- What follows the head of an answer.
  abbrev left_of : Handled ℤ → List B
  left_of (Handled.returned r) =
      write_add_result p (record { success = r; isset_success = true }) ++ p.write_message_end
  left_of (Handled.thrown what) = x.write_exception unknown what ++ p.write_message_end

  -- What `recv_add` makes of it.
  answer-Reads :
      (xlaws : ExceptionLaws x) (h : Handled ℤ) (seqid memory : ℤ) (fuel : ℕ)
      → ReturnsI32 h
      → Reads
          (take_reply p x sync is_add
            (read_add_presult p
              (suc (suc fuel))
              (record { success = memory; isset_success = false }))
            (concurrent_finish_add p x sync)
            (add_name, answer_type h, seqid))
          (left_of h)
          (ended h)
  unfolding take_reply
  answer-Reads xlaws (Handled.returned r) seqid memory fuel k =
      Reads-bind _ (result-Reads laws fuel _ r k) (Reads-map _ laws.message_end)
  answer-Reads xlaws (Handled.thrown what) seqid memory fuel k =
      Reads-bind _ (xlaws.exception unknown what) (Reads-map _ laws.message_end)

  answer-left :
      (h : Handled ℤ) (seqid : ℤ)
      → answer p x add_name seqid
          (λ v. write_add_result p (record { success = v; isset_success = true }))
          h
        ≡ p.write_message_begin add_name (answer_type h) seqid ++ left_of h
  unfolding answer put_message
  answer-left (Handled.returned r) seqid = refl
  answer-left (Handled.thrown what) seqid = refl

module _ {B D S H : Type 0} (p : Protocol B D) (x : Exceptions B) (sync : Sync B S) (laws : Laws p)
    (xlaws : ExceptionLaws x) where
  -- A call of `add` through a concurrent client is a call of the handler, whatever replies to other
  -- clients come before its own, and whichever of the heads, its own included, other clients have
  -- read from the connection and left pending: the processor reads just the message sent, calls the
  -- handler once and answers with the number of the call; `recv_add` takes a head from `getPending`
  -- where that has one and else from the connection, leaves each reply to another number to the
  -- others, and from its own returns the handler's result, or throws a `TApplicationException` of
  -- type UNKNOWN with the `what()` that was thrown, its sentry committed. The numbers are within
  -- their types; while this client waits for work, the others read the rest of their reply, and
  -- leave what `getPending` then tells.
  pub concurrent_add-remote :
      (add : H → ℤ → ℤ → Handled ℤ × H) (state : H) (a b memory : ℤ) (sender s : S)
      (es : List (Reply B)) (mine : Bool) (fuel more : ℕ) (rest others : List B)
      → IsI32 a
      → IsI32 b
      → ReturnsI32 ((add state a b).0)
      → IsI32 ((concurrent_send_add p x sync sender a b).1)
      → Others p sync mine
          (add_name, answer_type ((add state a b).0), (concurrent_send_add p x sync sender a b).1)
          s
          es
      → (left : List B) × ((p.read_message_begin >>= λ h.
              dispatch_add p x add (suc (suc (suc fuel))) state (h.0) (h.2))
            ((concurrent_send_add p x sync sender a b).0 ++ rest)
          ≡ ok (
            (
              p.write_message_begin add_name
                    (answer_type ((add state a b).0))
                    ((concurrent_send_add p x sync sender a b).1)
                  ++ left,
              (add state a b).1,
            ),
            rest,
          ))
        × (concurrent_recv_add p x sync
              (suc (suc fuel))
              (turns es more)
              memory
              ((concurrent_send_add p x sync sender a b).1)
              s
              (stream p sync es (
                  head_bytes p sync mine (
                    add_name,
                    answer_type ((add state a b).0),
                    (concurrent_send_add p x sync sender a b).1,
                  )
                  ++ left)
                ++ others)
            ≡ ok (ended ((add state a b).0), others))
  unfolding concurrent_send_add dispatch_add process_add concurrent_recv_add
  concurrent_add-remote add state a b memory sender s es mine fuel more rest others h k r n o = (
    left_of laws x sync ((add state a b).0),
    (Reads-served laws x is_add add_name _ _ invalid_method state _ n refl
            (pargs-Reads laws fuel new_add_args a b h k)).run
          rest
        ∙ ap (λ reply. ok ((reply, (add state a b).1), rest))
            (answer-left laws x sync ((add state a b).0) _),
    (stream-Reads laws x sync is_add
          (read_add_presult p (suc (suc fuel)) (record { success = memory; isset_success = false }))
          (concurrent_finish_add p x sync) _ n es more s mine o
          (answer-Reads laws x sync xlaws ((add state a b).0)
            ((concurrent_send_add p x sync sender a b).1) memory fuel r)).run
        others,
  )
