-- ===== src/MicroService/Tests.antt =====
-- Calls of the services through the protocol of tokens.
use dag_executor.Common.{
  none, Option, ℕ, ◌+◌, ◌≡◌, refl, some, List, [], ◌∷◌, ◌++◌, true, false, arith,
}
use dag_executor.Common.Int.{ℤ, pos, negsuc}
use dag_executor.Util.{Text}
use dag_executor.Wire.Result.{
  return, AppError, M, ok, err, Error, missing_result, unknown_method, application, ◌>>=◌,
}
use dag_executor.Wire.Protocol.{t_call, t_reply}
use dag_executor.Wire.Tokens.{Token, exception, begin, end, tokens, tokens-Laws, tokens-skip}
use dag_executor.MicroService.Rpc.{Exceptions, Handled, put_message, invalid_method}
use dag_executor.Wire.Protocol.{t_struct}
use dag_executor.Wire.Reads.{Reads, Reads-bind, Reads-map}
use dag_executor.MicroService.Concurrent.{
  Head, Sync, Ended, concurrent_send_add, concurrent_recv_add,
}
use dag_executor.MicroService.Concurrent.Order.{Reply, stream, concurrent_add-remote}
use dag_executor.MicroService.Calls.{ExceptionLaws}
use dag_executor.MicroService.Add.{
  AddArgs, AddResult, write_add_result, add_name, add_failed, send_add, recv_add, dispatch_add,
}
use dag_executor.MicroService.Student.{Student, new_student, send_put, recv_put, dispatch_put}
use dag_executor.MicroService.Multiface.{multiface_add, multiface_put, in_turn}
use dag_executor.MicroService.Remote.Add.{
  add-remote, add-unknown, recv_add-missing, recv_add-astray,
}
use dag_executor.MicroService.Remote.Put.{received_student, put-remote}
use dag_executor.MicroService.Multiface.{multiface-in_turn}

read_token : M Token (AppError × Text)
read_token (exception e what ∷ ts) = ok ((e, what), ts)
read_token _ = err Error.protocol

abbrev exceptions : Exceptions Token
unfolding read_token
exceptions = record {
  read_exception = read_token;
  write_exception = λ e what. exception e what ∷ [];
}

exceptions-Laws : ExceptionLaws exceptions
unfolding exceptions read_token
exceptions-Laws = record { exception = λ e what. record { run = λ rest. refl } }

-- A handler that counts its calls and refuses negative numbers.
abbrev add_counted : ℕ → ℤ → ℤ → Handled ℤ × ℕ
add_counted n (pos a) (pos b) = (Handled.returned (pos (a + b)), n + 1)
add_counted n a b = (Handled.thrown (110 ∷ []), n + 1)

abbrev args : AddArgs
args = record { num1 = pos 2; num2 = negsuc 0; isset_num1 = false; isset_num2 = false }

abbrev result : AddResult
result = record { success = pos 1; isset_success = true }

add-remote_example :
    (reply : List Token) × ((tokens.read_message_begin >>= λ h.
    dispatch_add tokens exceptions add_counted 3 4 (h.0) (h.2))
        (send_add tokens (pos 2) (pos 3) ++ [])
      ≡ ok ((reply, 5), []))
    × (recv_add tokens exceptions 2 (pos 77) (reply ++ []) ≡ ok (pos 5, []))
add-remote_example =
    add-remote tokens exceptions tokens-Laws exceptions-Laws add_counted 4 (pos 2) (pos 3) (pos 77)
      0 [] [] (omega arith) (omega arith) (omega arith)

add-unknown_example :
    (reply : List Token) × ((tokens.read_message_begin >>= λ h.
    dispatch_add tokens exceptions add_counted 1 4 (h.0) (h.2))
        (put_message tokens (100 ∷ []) t_call (pos 6) (begin ∷ end ∷ []) ++ [])
      ≡ ok ((reply, 4), []))
    × (recv_add tokens exceptions 1 (pos 77) (reply ++ [])
        ≡ err (application unknown_method (invalid_method (100 ∷ []))))
add-unknown_example =
    add-unknown tokens exceptions tokens-Laws exceptions-Laws add_counted 4 (100 ∷ []) (pos 6)
      (pos 77) (begin ∷ end ∷ []) 1 [] [] refl (omega arith) tokens-skip

recv_add-missing_example :
    recv_add tokens exceptions 1 (pos 77) (
      put_message tokens add_name t_reply
        (pos 0)
        (write_add_result tokens (record { success = pos 3; isset_success = false }))
      ++ [])
    ≡ err (application missing_result add_failed)
recv_add-missing_example =
    recv_add-missing tokens exceptions tokens-Laws exceptions-Laws (pos 0) (pos 77) (pos 3) 0 []
      (omega arith)

recv_add-astray_example :
    recv_add tokens exceptions 2 (pos 77) (
      (put_message tokens (100 ∷ []) t_reply (pos 0) (begin ∷ end ∷ [])
        ++ (write_add_result tokens result ++ tokens.write_message_end))
      ++ [])
    ≡ ok (pos 1, [])
recv_add-astray_example =
    recv_add-astray tokens exceptions tokens-Laws exceptions-Laws (100 ∷ []) (pos 0) (pos 77)
      (pos 1) (begin ∷ end ∷ []) 0 [] refl (omega arith) (omega arith) tokens-skip

abbrev student : Student
student = record new_student { sno = pos 9; sname = 76 ∷ []; ssex = true; sage = pos 20 }

-- A handler that keeps the students.
abbrev keep : List Student → Student → Handled (Unit {0}) × List Student
keep kept s = (Handled.returned tt, s ∷ kept)

put-remote_example :
    (reply : List Token) × ((tokens.read_message_begin >>= λ h.
    dispatch_put tokens exceptions keep 5 [] (h.0) (h.2))
        (send_put tokens student ++ [])
      ≡ ok ((reply, received_student student ∷ []), []))
    × (recv_put tokens exceptions 1 (reply ++ []) ≡ ok (tt, []))
put-remote_example =
    put-remote tokens exceptions tokens-Laws exceptions-Laws keep [] student 0 [] []
      (omega arith, omega arith)

abbrev ignore : ℕ → Student → Handled (Unit {0}) × ℕ
ignore n s = (Handled.returned tt, n)

multiface-in_turn_example :
    (multiface_add (add_counted ∷ add_counted ∷ []) 0 (negsuc 3) (pos 2)
      ≡ some (
          in_turn
            ((λ t. add_counted t (negsuc 3) (pos 2)) ∷ [])
            (λ t. add_counted t (negsuc 3) (pos 2))
            0))
    × (multiface_put (ignore ∷ []) 0 student ≡ some (in_turn [] (λ t. ignore t student) 0))
multiface-in_turn_example =
    multiface-in_turn (add_counted ∷ []) add_counted (negsuc 3) (pos 2) [] ignore student 0
      (omega arith) (omega arith)

-- The next number of a call, and the head that is pending. While a client waits, another takes the
-- rest of its reply, reads the next head from the connection and leaves it pending.
abbrev counter : Sync Token (ℕ × Option Head)
counter = record {
  generate_seq_id = λ s. (pos s.0, (s.0 + 1, s.1));
  get_pending = λ s. (s.1, (s.0, none));
  update_pending = λ h s. s;
  wait_for_work = λ id s. tokens.skip t_struct >>= λ u.
      tokens.read_message_end >>= λ v. tokens.read_message_begin >>= λ h. return (s.0, some h);
}

abbrev mine : Head
mine = (add_name, t_reply, pos 7)

-- A reply to another, whose head has not been read, and behind it the head of the client's own.
abbrev foreign : List (Reply Token)
foreign =
    record {
      pending = false;
      head = (add_name, t_reply, pos 6);
      body =
          (begin ∷ end ∷ [])
          ++ (tokens.write_message_end ++ tokens.write_message_begin add_name t_reply (pos 7));
    }
    ∷ []

abbrev waits :
    Reads
      (counter.wait_for_work (pos 7) (8, none))
      ((begin ∷ end ∷ [])
        ++ (tokens.write_message_end ++ tokens.write_message_begin add_name t_reply (pos 7)))
      (8, some mine)
waits = Reads-bind _ tokens-skip (
    Reads-bind _ tokens-Laws.message_end
      (Reads-map _ (tokens-Laws.message_begin add_name t_reply (pos 7) (omega arith))))

concurrent_add-remote_example :
    (left : List Token) × ((tokens.read_message_begin >>= λ h.
    dispatch_add tokens exceptions add_counted 3 4 (h.0) (h.2))
        ((concurrent_send_add tokens exceptions counter (7, none) (pos 2) (pos 3)).0 ++ [])
      ≡ ok ((tokens.write_message_begin add_name t_reply (pos 7) ++ left, 5), []))
    × (concurrent_recv_add tokens exceptions counter 2 2
          (pos 77)
          (pos 7)
          (8, none)
          (stream tokens counter foreign left ++ [])
        ≡ ok (Ended.done (pos 5), []))
unfolding concurrent_send_add
concurrent_add-remote_example =
    concurrent_add-remote tokens exceptions counter tokens-Laws exceptions-Laws add_counted 4
      (pos 2) (pos 3) (pos 77) (7, none) (8, none) foreign true 0 0 [] [] (omega arith)
      (omega arith) (omega arith) (omega arith)
      (refl, refl, omega arith, ((8, some mine), waits, refl))
