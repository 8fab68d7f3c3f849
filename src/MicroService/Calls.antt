-- ===== src/MicroService/Calls.antt =====
-- A call through the client and the processor of a service with one method
-- (micro_service/gen-cpp/AddService.cpp, micro_service/test/gen-cpp/Serv.cpp).
use dag_executor.Common.{List, [], ◌++◌, ◌≡◌, Bool, true, false}
use dag_executor.Common.Int.{ℤ}
use dag_executor.Util.{Text}
use dag_executor.Wire.Result.{Error, AppError, unknown_method, application, M, ◌>>=◌}
use dag_executor.Wire.Protocol.{
  MessageType, t_call, t_reply, t_exception, t_struct, Protocol, IsI32,
}
use dag_executor.Wire.Reads.{Reads, Laws, Reads-bind, Reads-assoc, Reads-map, Reads-last}
use dag_executor.Wire.Throws.{Throws, Throws-bind, Throws-last, Throws-throw}
use dag_executor.MicroService.Rpc.{
  Exceptions, Handled, put_message, recv, answer, process, dispatch,
}

-- `TApplicationException::read` reads what `write` has written.
pub record ExceptionLaws {ℓ} {B : Type ℓ} (x : Exceptions B) : Type ℓ where
  pub exception :
      (e : AppError) (what : Text) → Reads x.read_exception (x.write_exception e what) (e, what)

module _ {ℓ} {B : Type ℓ} {D : Type 0} {p : Protocol B D} (laws : Laws p) (x : Exceptions B) where
  pub Reads-served {κ μ ν} :
      {A : Type κ} {R : Type μ} {S : Type ν} {read_args : M B A} {args : List B} {a : A}
      (same : Text → Bool) (name : Text) (write_result : R → List B)
      (handler : S → A → Handled R × S) (message : Text → Text) (s : S) (id : ℤ)
      → IsI32 id
      → same name ≡ true
      → Reads read_args args a
      → Reads
          (p.read_message_begin >>= λ h.
            dispatch p x same
              (process p x name read_args write_result handler)
              message
              s
              (h.0)
              (h.2))
          (put_message p name t_call id args)
          (answer p x name id write_result ((handler s a).0), (handler s a).1)
  unfolding put_message dispatch process
  Reads-served same name write_result handler message s id h is_same r =
      Reads-bind _ (laws.message_begin name _ id h)
        (rw is_same (Reads-bind _ r (Reads-map _ laws.message_end)))

  pub Reads-recv {κ μ} :
      {R : Type κ} {C : Type μ} {read_result : M B R} {result : List B} {r : R} {c : C}
      (same : Text → Bool) (name : Text) (id : ℤ) (finish : R → M B C)
      → IsI32 id
      → same name ≡ true
      → Reads read_result result r
      → Reads (finish r) [] c
      → Reads (recv p x same read_result finish) (put_message p name t_reply id result) c
  unfolding recv put_message
  Reads-recv same name id finish h is_same r q =
      Reads-bind _ (laws.message_begin name _ id h)
        (rw is_same (Reads-bind _ r (Reads-last _ laws.message_end q)))

  -- A reply in which something misses.
  pub Throws-reply {κ μ} :
      {R : Type κ} {C : Type μ} {read_result : M B R} {result : List B} {r : R} {e : Error}
      (same : Text → Bool) (name : Text) (id : ℤ) (finish : R → M B C)
      → IsI32 id
      → same name ≡ true
      → Reads read_result result r
      → Throws (finish r) [] e
      → Throws (recv p x same read_result finish) (put_message p name t_reply id result) e
  unfolding recv put_message
  Throws-reply same name id finish h is_same r q =
      Throws-bind _ (laws.message_begin name _ id h)
        (rw is_same (Throws-bind _ r (Throws-last _ laws.message_end q)))

  pub Throws-recv {κ μ} :
      {R : Type κ} {C : Type μ} (xlaws : ExceptionLaws x) (same : Text → Bool) (read_result : M B R)
      (finish : R → M B C) (name : Text) (id : ℤ) (e : AppError) (what : Text)
      → IsI32 id
      → Throws
          (recv p x same read_result finish)
          (put_message p name t_exception id (x.write_exception e what))
          (application e what)
  unfolding recv put_message
  Throws-recv xlaws same read_result finish name id e what h =
      Throws-bind _ (laws.message_begin name _ id h)
        (Throws-bind _ (xlaws.exception e what) (Throws-last _ laws.message_end (Throws-throw _)))

  -- The answer to a call of a method that the service does not have.
  pub Reads-unknown {κ} :
      {S : Type κ} {args : List B} (same : Text → Bool) (found : S → ℤ → M B (List B × S))
      (message : Text → Text) (s : S) (name : Text) (t : MessageType) (id : ℤ)
      → IsI32 id
      → same name ≡ false
      → Reads (p.skip t_struct) args tt
      → Reads
          (p.read_message_begin >>= λ h. dispatch p x same found message s (h.0) (h.2))
          (put_message p name t id args)
          (put_message p name t_exception id (x.write_exception unknown_method (message name)), s)
  unfolding put_message dispatch
  Reads-unknown same found message s name t id h is_other r =
      Reads-bind _ (laws.message_begin name _ id h)
        (rw is_other (Reads-bind _ r (Reads-map _ laws.message_end)))

  -- A reply of another name is skipped, and the result read from what follows.
  pub Reads-astray {κ μ} :
      {R : Type κ} {C : Type μ} {read_result : M B R} {body result : List B} {r : R} {c : C}
      (same : Text → Bool) (name : Text) (id : ℤ) (finish : R → M B C)
      → IsI32 id
      → same name ≡ false
      → Reads (p.skip t_struct) body tt
      → Reads read_result result r
      → Reads (finish r) [] c
      → Reads
          (recv p x same read_result finish)
          (put_message p name t_reply id body ++ (result ++ p.write_message_end))
          c
  unfolding recv put_message
  Reads-astray {body = body} {result} same name id finish h is_other s r q =
      Reads-assoc (p.write_message_begin name t_reply id) (body ++ p.write_message_end)
        (result ++ p.write_message_end)
        (Reads-bind _ (laws.message_begin name _ id h) (
          rw is_other (
            Reads-bind _ (Reads-bind _ s laws.message_end)
              (Reads-bind _ r (Reads-last _ laws.message_end q)))))
