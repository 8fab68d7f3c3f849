-- ===== src/MicroService/Multiface.antt =====
-- `AddServiceMultiface::add` and `ServMultiface::put` (micro_service/gen-cpp/AddService.h,
-- micro_service/test/gen-cpp/Serv.h): a call goes to all handlers, and the last one answers.
use dag_executor.Common.{
  ℕ, zero, suc, ◌+◌, ◌-◌, ◌%◌, ◌^◌, ◌<◌, ◌≡◌, refl, Option, some, List, [], ◌∷◌, ◌++◌, length, map,
  arith, ◌>>=◌, length-append, length-map, get_elem?, get_elem?-append,
}
use mathlib.Core.List.{append_assoc, map-append}
use dag_executor.Common.Int.{ℤ}
use dag_executor.MicroService.Rpc.{Handled}
use dag_executor.MicroService.Student.{Student}

-- A handler's method with its arguments, on the state that the handlers share.
abbrev pub Action {κ μ} : Type κ → Type μ → Type (κ ⊔ μ)
Action S R = S → Handled R × S

module _ {κ μ} {S : Type κ} {R : Type μ} where
  -- What follows a call: an exception leaves the method.
  abbrev pub after : Handled R → S → (S → Option (Handled R × S)) → Option (Handled R × S)
  after (Handled.returned v) t next = next t
  after (Handled.thrown w) t next = some (Handled.thrown w, t)

  -- The loop from the index `i` on, with the rounds that are left, and the last call. An index
  -- behind the vector is undefined behaviour, here `none`.
  unfoldable pub call_from : List (Action S R) → ℕ → ℕ → S → Option (Handled R × S)
  call_from ifaces zero i s = get_elem? ifaces i >>= λ f. some (f s)
  call_from ifaces (suc n) i s =
      get_elem? ifaces i >>= λ f. after ((f s).0) ((f s).1) (λ t. call_from ifaces n (suc i) t)

  -- `sz - 1` in `size_t` is the number of rounds.
  unfoldable pub call_all : List (Action S R) → S → Option (Handled R × S)
  unfolding call_from
  call_all ifaces s = call_from ifaces ((length ifaces + (2 ^ 64 - 1)) % 2 ^ 64) 0 s

-- `AddServiceMultiface::add`
unfoldable pub multiface_add {κ} :
    {S : Type κ} → List (S → ℤ → ℤ → Handled ℤ × S) → S → ℤ → ℤ → Option (Handled ℤ × S)
unfolding call_all
multiface_add ifaces s a b = call_all (map (λ f t. f t a b) ifaces) s

-- `ServMultiface::put`
unfoldable pub multiface_put {κ} :
    {S : Type κ}
    → List (S → Student → Handled (Unit {0}) × S)
    → S
    → Student
    → Option (Handled (Unit {0}) × S)
unfolding call_all
multiface_put ifaces s x = call_all (map (λ f t. f t x) ifaces) s

module _ {κ μ} {S : Type κ} {R : Type μ} where
  abbrev pub resume : Handled R → S → Action S R → Handled R × S
  resume (Handled.returned v) t next = next t
  resume (Handled.thrown w) t next = (Handled.thrown w, t)

  -- The handlers one after the other, each on the state that those before it have left, up to the
  -- first that throws; what the one called last comes to.
  unfoldable pub in_turn : List (Action S R) → Action S R → Action S R
  in_turn [] last s = last s
  in_turn (f ∷ fs) last s = resume ((f s).0) ((f s).1) (λ t. in_turn fs last t)

  after-resume :
      (h : Handled R) (t : S) (next : S → Option (Handled R × S)) (go : Action S R)
      → ((u : S) → next u ≡ some (go u))
      → after h t next ≡ some (resume h t go)
  after-resume (Handled.returned v) t next go e = e t
  after-resume (Handled.thrown w) t next go e = refl

  length-snoc : (fs : List (Action S R)) (f : Action S R) → length (fs ++ f ∷ []) ≡ suc (length fs)
  length-snoc fs f = omega (arith, length-append fs (f ∷ []))

  call_from-append :
      (pre fs : List (Action S R)) (last : Action S R) (s : S)
      → call_from (pre ++ (fs ++ last ∷ [])) (length fs) (length pre) s ≡ some (in_turn fs last s)
  unfolding call_from in_turn
  call_from-append pre [] last s = rw (get_elem?-append pre last [], ◌>>=◌) refl
  call_from-append pre (f ∷ fs) last s =
      rw (get_elem?-append pre f (fs ++ last ∷ []), ◌>>=◌)
        (after-resume ((f s).0) ((f s).1) _ _ (λ t.
          rw (append_assoc pre (f ∷ []) (fs ++ last ∷ [])) at
            (rw (length-snoc pre f) at (call_from-append (pre ++ f ∷ []) fs last t))))

  rounds :
      (ifaces : List (Action S R)) (n : ℕ)
      → length ifaces ≡ suc n
      → suc n < 2 ^ 64
      → (length ifaces + (2 ^ 64 - 1)) % 2 ^ 64 ≡ n
  rounds ifaces n e h = omega arith

  call_all-in_turn :
      (fs : List (Action S R)) (last : Action S R) (s : S)
      → suc (length fs) < 2 ^ 64
      → call_all (fs ++ last ∷ []) s ≡ some (in_turn fs last s)
  unfolding call_all
  call_all-in_turn fs last s h =
      rw (rounds (fs ++ last ∷ []) (length fs) (length-snoc fs last) h)
        (call_from-append [] fs last s)

  map-in_turn {ι} :
      {I : Type ι} (g : I → Action S R) (fs : List I) (last : I) (s : S)
      → suc (length fs) < 2 ^ 64
      → call_all (map g (fs ++ last ∷ [])) s ≡ some (in_turn (map g fs) (g last) s)
  map-in_turn g fs last s h =
      rw (map-append g fs (last ∷ []))
        (call_all-in_turn (map g fs) (g last) s (rw (length-map g fs) h))

-- A call of one or more handlers, less than 2 ^ 64, through `AddServiceMultiface` or `ServMultiface`
-- calls them in their order, each on the state that those before it have left, and comes to what
-- the last one does; the first exception leaves the call and the handlers behind it are not called.
pub multiface-in_turn {κ} :
    {S : Type κ} (fs : List (S → ℤ → ℤ → Handled ℤ × S)) (last : S → ℤ → ℤ → Handled ℤ × S)
    (a b : ℤ) (gs : List (S → Student → Handled (Unit {0}) × S))
    (final : S → Student → Handled (Unit {0}) × S) (x : Student) (s : S)
    → suc (length fs) < 2 ^ 64
    → suc (length gs) < 2 ^ 64
    → (multiface_add (fs ++ last ∷ []) s a b
        ≡ some (in_turn (map (λ f t. f t a b) fs) (λ t. last t a b) s))
      × (multiface_put (gs ++ final ∷ []) s x
          ≡ some (in_turn (map (λ f t. f t x) gs) (λ t. final t x) s))
unfolding multiface_add multiface_put
multiface-in_turn fs last a b gs final x s h k =
    (map-in_turn (λ f t. f t a b) fs last s h, map-in_turn (λ f t. f t x) gs final s k)
