-- ===== src/Lib.antt =====
-- dag_executor: a pool of worker threads, a scheduler that runs a graph of tasks on it, and the
-- parts of the program that use them.
--
-- The parts and their files:
--   ThreadPool: thread_pool/thread_pool.h and thread_pool.cpp. `Worker` and `ThreadPool` are the
--     classes, `worker_add_task` and `add_task` the two `add_task`s, run alone. ThreadPool/Loop has
--     the threads: `Move` is one step of `Worker::work_`, `Step` one step of any thread, be it a
--     worker, a caller of `add_task` or the caller of `stop`; `Reach` a run. A step is one access
--     to an atomic or one critical section, so every interleaving of these is a run; the two reads
--     that a worker makes without its mutex, of `stop_` and of the queue, are steps of their own.
--     Waits of condition variables may wake spuriously. A second concurrent caller of `stop`, and
--     calls of `add_task` from inside a function, are not in Loop. DagScheduler/Run has the latter.
--     ThreadPool/Destructor has `~ThreadPool`: `Destroy` is a step of a thread of Loop or, behind
--     the return of `stop`, one `join` or one `delete`. ThreadPool/Service is what the pool does for
--     its callers, without threads, locks and places, and ThreadPool/Refines reads a state of Loop
--     as a state of that service. `Alone` of ThreadPool/Drains is a run of one worker alone.
--   DagScheduler: dag_scheduler/task.h, task.cpp, scheduler.h, scheduler.cpp, executor.h and
--     executor.cpp. Tasks are numbers, their addresses, in a heap. `set_precede`, `set_precedes`
--     and `add_task` build the graph; DagScheduler/Run has `Scheduler::execute` and
--     `Task::execute_` on the executor's pool, as steps of the main thread and of the workers. In
--     Run a call of the pool's `add_task` is one step, made of the operation of ThreadPool, and a
--     worker takes from its queue in one step. What a task's `work` does is not modelled, only when
--     it is called and has returned. A graph is ready (DagScheduler/Graph) if no task is in it
--     twice, its tasks have been added to a scheduler, its links stay inside it, each task stands
--     behind those that wait for it, and its conditions count its links.
--   Timer: dag_scheduler/timer.h, the manager's `add` and `execute_timeout`; its clock is a
--     parameter. The constructor, which loops over epoll and timerfd for ever, is not modelled.
--   Util: util/basic_function.h, `serial_log` and `get_chrono_time`. `std::stoi` and
--     `std::to_string` are written out, `std::mktime` is a parameter.
--   LogService: log_service/log_sender.h, `LocalSender` on a pool; `save_string`, which writes a
--     file, appears as the function that is submitted. LogService/Controler is `PrometheusControler`
--     of log_service/controler.h and controler.cpp, with prometheus as a parameter. The senders
--     without a body, the senders for Redis and `RedisControler`, which calls redis++ with fixed
--     keys, are not modelled.
--   DynamicFactory: dynamic_factory/dynamic_factory2.h, the factory with `register_`.
--     `DynamicCreator` keeps a reference to the parameter of its constructor, which is dead when
--     `create` reads it: `create` has no defined behaviour and no model.
--   AccessControl: access_control/init_node.h, return_node.h and dag.h over the scheduler, on the
--     `Context` of ContextData; the nodes' `run_`, declared and not defined in the program, is a
--     parameter.
--   Wire: what the code generated by thrift consists of. `Protocol` is `TProtocol` of thrift, a
--     parameter: a record of its operations on a list of bytes. `Laws` says that what it writes it
--     reads back. Wire/Struct has the loop, the switch's branches and the order of the calls of a
--     generated `read` and `write`, Wire/Containers their loops for lists and maps. A reader
--     returns a value and the bytes left, or an exception; the object that it was filling when it
--     threw is not followed. `InRange` says that the numbers a protocol reads are within their
--     types, `Progress` that reading takes bytes. The counts of bytes that the operations return,
--     and the trackers of the depth of recursion, are left out, and a write is taken not to fail.
--     Wire/Tokens is a protocol on which the tests run.
--   ContextData: access_control/gen-cpp/data_define_template_types.h and .cpp, the classes of the
--     context with their `read` and `write`; each has a definition for its switch.
--     ContextData/Equality has `operator==`, with `==` of `double` as a parameter, and
--     ContextData/Members `operator=`, `swap` and the setters of `Context`.
--   MicroService: the services that thrift generates, `add` in micro_service/gen-cpp/AddService.h
--     and .cpp, and `put` with `Student` in micro_service/test/gen-cpp (Serv.h, Serv.cpp,
--     student_types.h, student_types.cpp). The clients and processors are functions of the bytes;
--     MicroService/Rpc has what the two services share. The handler is a parameter, a function of
--     its own state; `TApplicationException` of thrift is the parameter `Exceptions`. The
--     concurrent clients (MicroService/Concurrent) have `TConcurrentClientSyncInfo` as the parameter
--     `Sync`, and their loops a turn for each head that they look at. There is no event handler,
--     and the calls of the transport, which move no bytes of a message, are left out.
--   Common: lists, families over the numbers and integers that the other modules share.
--
-- Numbers: sizes, indices and addresses are natural numbers, `condition_`, `wait_executed` and
-- times are integers; both are without bounds, so an overflow of `int` or of `long long` is outside
-- the model, but for the range of `std::stoi` and for the nanoseconds of `get_chrono_time`, which 64
-- bits hold or not. The index `idx_` stays under the number of workers. A fault, an exception, such
-- an overflow or a null pointer is `none`; the code of thrift returns its exceptions as `err`, and
-- its numbers have the ranges that the theorems on it name.
-- Fuel: `print_digits` has one unit more than the number to print, and a number has fewer digits
-- than that. The loop of a generated `read` takes one unit for each field and one for the stop, and
-- each structure inside has the same fuel again; more fuel than there are bytes is enough on any
-- bytes. The loop of a concurrent client takes a turn for each reply that it sees. No other function
-- runs on fuel; the runs of threads are relations.
-- Not modelled: `printTo`, the factories, the copy constructors (the bodies of `operator=` again) and
-- the setters of single members that thrift generates, but for those of `Context`; the service
-- clients, main.cpp and the Python tools under dag_configor, which are glue; `add_task_async`, whose task
-- refers to a frame that may be gone; and the copy of redis++ under lib.
mod Common
pub mod ThreadPool
pub mod DagScheduler
pub mod Timer
pub mod Util
pub mod LogService
pub mod DynamicFactory
pub mod AccessControl
pub mod Wire
pub mod ContextData
pub mod MicroService
