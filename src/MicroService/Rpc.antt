-- ===== src/MicroService/Rpc.antt =====
-- What the generated client and processor of a service with one method consist of
-- (micro_service/gen-cpp/AddService.cpp, micro_service/test/gen-cpp/Serv.cpp). The calls of the
-- transport move no bytes of the message and are left out; no event handler is installed.
use dag_executor.Common.{List, [], ◌∷◌, ◌++◌, Bool, true, false, if◌then◌else◌}
use dag_executor.Common.Int.{ℤ, pos}
use dag_executor.Util.{Text}
use dag_executor.Wire.Result.{
  AppError, unknown, unknown_method, application, M, return, throw, ◌>>=◌, ◌>>◌,
}
use dag_executor.Wire.Protocol.{MessageType, t_call, t_reply, t_exception, t_struct, Protocol}

-- `TApplicationException::read` and `write` of thrift.
pub record Exceptions {ℓ} (B : Type ℓ) : Type ℓ where
  pub read_exception : M B (AppError × Text)
  pub write_exception : AppError → Text → List B

-- What a call of the handler comes to: a result, or a `std::exception` with its `what()`.
pub data Handled {ℓ} (A : Type ℓ) : Type ℓ where
  returned : A → Handled A
  thrown : Text → Handled A

-- "Invalid method name: '" + fname + "'"
abbrev pub invalid_method : Text → Text
invalid_method fname =
    b'I'
    ∷ b'n'
    ∷ b'v'
    ∷ b'a'
    ∷ b'l'
    ∷ b'i'
    ∷ b'd'
    ∷ b' '
    ∷ b'm'
    ∷ b'e'
    ∷ b't'
    ∷ b'h'
    ∷ b'o'
    ∷ b'd'
    ∷ b' '
    ∷ b'n'
    ∷ b'a'
    ∷ b'm'
    ∷ b'e'
    ∷ b':'
    ∷ b' '
    ∷ 39
    ∷ (fname ++ 39 ∷ [])

abbrev pub is_exception : MessageType → Bool
is_exception t_exception = true
is_exception _ = false

abbrev pub is_reply : MessageType → Bool
is_reply t_reply = true
is_reply _ = false

module _ {ℓ} {B : Type ℓ} {D : Type 0} (p : Protocol B D) where
  -- A message around a body.
  unfoldable pub put_message : Text → MessageType → ℤ → List B → List B
  put_message name t id body = p.write_message_begin name t id ++ (body ++ p.write_message_end)

  -- `send_…`: the arguments in a call with number 0
  unfoldable pub send : Text → List B → List B
  unfolding put_message
  send name args = put_message name t_call (pos 0) args

  -- `iprot_->skip(T_STRUCT)` and the end of the message
  abbrev pub skip_message : M B (Unit {0})
  skip_message = p.skip t_struct >> p.read_message_end

module _ {ℓ} {B : Type ℓ} {D : Type 0} (p : Protocol B D) (x : Exceptions B) where
  -- `recv_…`: `same` compares the name of the message with the method's, `finish` is what stands
  -- behind the result.
  unfoldable pub recv {κ μ} :
      {R : Type κ} {C : Type μ} → (Text → Bool) → M B R → (R → M B C) → M B C
  recv same read_result finish = p.read_message_begin >>= λ h.
      if is_exception (h.1)
      then (x.read_exception >>= λ e. p.read_message_end >> throw (application (e.0) (e.1)))
      else ((if is_reply (h.1) then return tt else skip_message p)
          >> ((if same (h.0) then return tt else skip_message p)
              >> (read_result >>= λ r. p.read_message_end >> finish r)))

  -- The answer to a call that has been handled.
  unfoldable pub answer {κ} : {R : Type κ} → Text → ℤ → (R → List B) → Handled R → List B
  unfolding put_message
  answer name id write_result (Handled.returned r) = put_message p name t_reply id (write_result r)
  answer name id write_result (Handled.thrown what) =
      put_message p name t_exception id (x.write_exception unknown what)

  -- `process_…`: the bytes written, and what the handler's state has become
  unfoldable pub process {κ μ ν} :
      {A : Type κ} {R : Type μ} {S : Type ν}
      → Text
      → M B A
      → (R → List B)
      → (S → A → Handled R × S)
      → S
      → ℤ
      → M B (List B × S)
  unfolding answer
  process name read_args write_result handler s id = read_args >>= λ a.
      p.read_message_end >> return (answer name id write_result ((handler s a).0), (handler s a).1)

  -- `dispatchCall` for a message that names the method `fname`: `found` is the entry of the map
  -- of methods, `same` says whether it has one for the name.
  unfoldable pub dispatch {κ} :
      {S : Type κ}
      → (Text → Bool)
      → (S → ℤ → M B (List B × S))
      → (Text → Text)
      → S
      → Text
      → ℤ
      → M B (List B × S)
  unfolding put_message
  dispatch same found message s fname id =
      if same fname
      then found s id
      else (p.skip t_struct
          >> (p.read_message_end
              >> return (
                put_message p fname t_exception id
                    (x.write_exception unknown_method (message fname)),
                s,
              )))
