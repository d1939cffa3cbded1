-- ===== src/Machine/Room.antt =====
-- How many threads the queue and the waiting list can hold.
use thread_scheduler_multipl.Base.{
  ℕ, zero, suc, ◌+◌, ◌≤◌, ◌≡◌, refl, sym, ap, ◌∙◌, Bool, true, false, ◌||◌, some, List, [], ◌∷◌,
  ◌++◌, ◌==◌, if◌then◌else◌, length, length-append, get_elem?, arith, Bool-cases, inl, inr,
}
use thread_scheduler_multipl.PriorityQueue.{PqData}
use thread_scheduler_multipl.PriorityQueue.Order.{IsDistinct, has_thread}
use thread_scheduler_multipl.Scheduler.State.{WaitingPthread}
use thread_scheduler_multipl.Machine.{System, Reach}
use thread_scheduler_multipl.Machine.Invariant.{has_waiter, AreDistinct}
use thread_scheduler_multipl.Machine.Start.{Reach-Inv}
use thread_scheduler_multipl.Machine.Safety.{queued_parked}
use thread_scheduler_multipl.Machine.Grows.{Listed, Reach-Listed}

abbrev pub has_id : ℕ → List ℕ → Bool
has_id t [] = false
has_id t (x ∷ xs) = (x == t) || has_id t xs

abbrev pub IsUnique : List ℕ → Type 0
IsUnique [] = Unit
IsUnique (x ∷ xs) = (has_id x xs ≡ false) × IsUnique xs

abbrev without : ℕ → List ℕ → List ℕ
without t [] = []
without t (x ∷ xs) = if x == t then xs else x ∷ without t xs

length-without :
    (t : ℕ) (ys : List ℕ) → has_id t ys ≡ true → length ys ≡ suc (length (without t ys))
length-without t [] h = absurd (cc)
length-without t (y ∷ ys) h = ground (arith, length-without t ys, h)

has-without :
    (t u : ℕ) (ys : List ℕ) → (u == t) ≡ false → has_id u ys ≡ true → has_id u (without t ys) ≡ true
has-without t u [] ne h = h
has-without t u (y ∷ ys) ne h = ground (arith, has-without t u ys ne, h, ne)

-- Numbers that are all different and all in a list are no more than it has.
pigeonhole :
    (xs ys : List ℕ)
    → IsUnique xs
    → ((t : ℕ) → has_id t xs ≡ true → has_id t ys ≡ true)
    → length xs ≤ length ys
pigeonhole [] ys u h = omega arith
pigeonhole (x ∷ xs) ys u h =
    let here : has_id x ys ≡ true = h x (ground arith) in
    let rest = pigeonhole xs (without x ys) u.1 (λ t k.
      let ne : (t == x) ≡ false = elim (Bool-cases (t == x)) [
        | inl same ↦
            let q : t ≡ x = ground arith in absurd (let f = rw q at k in ground (arith, f, u.0))
        | inr other ↦ other
      ] in
      has-without x t ys ne (h t (ground (arith, k)))) in
    omega (arith, rest, length-without x ys here)

abbrev ready_ids : List PqData → List ℕ
ready_ids [] = []
ready_ids (x ∷ xs) = x.thread ∷ ready_ids xs

abbrev waiting_ids : List WaitingPthread → List ℕ
waiting_ids [] = []
waiting_ids (w ∷ ws) = w.pthread_id ∷ waiting_ids ws

has-ready_ids : (t : ℕ) (xs : List PqData) → has_id t (ready_ids xs) ≡ has_thread t xs
has-ready_ids t [] = refl
has-ready_ids t (x ∷ xs) = rw (has-ready_ids t xs) refl

has-waiting_ids : (t : ℕ) (ws : List WaitingPthread) → has_id t (waiting_ids ws) ≡ has_waiter t ws
has-waiting_ids t [] = refl
has-waiting_ids t (w ∷ ws) = rw (has-waiting_ids t ws) refl

ready-IsUnique : (xs : List PqData) → IsDistinct xs → IsUnique (ready_ids xs)
ready-IsUnique [] d = tt
ready-IsUnique (x ∷ xs) d = (has-ready_ids x.thread xs ∙ d.0, ready-IsUnique xs d.1)

waiting-IsUnique : (ws : List WaitingPthread) → AreDistinct ws → IsUnique (waiting_ids ws)
waiting-IsUnique [] d = tt
waiting-IsUnique (w ∷ ws) d = (has-waiting_ids w.pthread_id ws ∙ d.0, waiting-IsUnique ws d.1)

pub has-append : (t : ℕ) (xs ys : List ℕ) → has_id t (xs ++ ys) ≡ (has_id t xs || has_id t ys)
has-append t [] ys = refl
has-append t (x ∷ xs) ys = ground (arith, has-append t xs ys)

append-IsUnique :
    (xs ys : List ℕ)
    → IsUnique xs
    → IsUnique ys
    → ((t : ℕ) → has_id t xs ≡ true → has_id t ys ≡ false)
    → IsUnique (xs ++ ys)
append-IsUnique [] ys u v apart = v
append-IsUnique (x ∷ xs) ys u v apart = (
  rw (has-append x xs ys, u.0) (apart x (ground arith)),
  append-IsUnique xs ys u.1 v (λ t h. apart t (ground (arith, h))),
)

length-ready_ids : (xs : List PqData) → length (ready_ids xs) ≡ length xs
length-ready_ids [] = refl
length-ready_ids (x ∷ xs) = ap suc (length-ready_ids xs)

length-waiting_ids : (ws : List WaitingPthread) → length (waiting_ids ws) ≡ length ws
length-waiting_ids [] = refl
length-waiting_ids (w ∷ ws) = ap suc (length-waiting_ids ws)

pub index_has : (xs : List ℕ) (i t : ℕ) → get_elem? xs i ≡ some t → has_id t xs ≡ true
index_has [] i t e = absurd (cc)
index_has (x ∷ xs) zero t e = ground (arith, e)
index_has (x ∷ xs) (suc i) t e = ground (arith, index_has xs i t e)

module _ {time_quantum io : ℕ} {s : System} (r : Reach time_quantum io s) where
  queued_apart :
      (t : ℕ)
      → has_thread t s.sched.ready_threads_pq ≡ true
      → has_waiter t s.sched.waiting_threads ≡ false
  queued_apart t h = ground (arith, h, (Reach-Inv r).placed.places t)

  queued_listed :
      (t : ℕ)
      → (has_thread t s.sched.ready_threads_pq || has_waiter t s.sched.waiting_threads) ≡ true
      → has_id t s.sched.pthreads_created ≡ true
  unfolding Listed
  queued_listed t h =
      let at = (queued_parked r).2 t h in
      let (i, e) = Reach-Listed r t (λ f. absurd (let g = sym at ∙ f in cc)) in
      index_has s.sched.pthreads_created i t e

  -- In every state that a program can reach, the threads in the ready queue and in the waiting list
  -- are no more than the threads that have been created.
  pub queued-created :
      length s.sched.ready_threads_pq + length s.sched.waiting_threads
      ≤ length s.sched.pthreads_created
  queued-created =
      let (distinct, waiters_distinct, at) = queued_parked r in
      let few =
        pigeonhole (ready_ids s.sched.ready_threads_pq ++ waiting_ids s.sched.waiting_threads)
          s.sched.pthreads_created
          (append-IsUnique _ _ (ready-IsUnique _ distinct) (waiting-IsUnique _ waiters_distinct)
            (λ t h.
              has-waiting_ids t s.sched.waiting_threads
              ∙ queued_apart t (sym (has-ready_ids t s.sched.ready_threads_pq) ∙ h)))
          (λ t h. queued_listed t (
            rw
              (
                has-append t (ready_ids s.sched.ready_threads_pq)
                    (waiting_ids s.sched.waiting_threads),
                has-ready_ids t s.sched.ready_threads_pq,
                has-waiting_ids t s.sched.waiting_threads,
              )
              at h)) in
      omega (
        arith,
        few,
        length-append (ready_ids s.sched.ready_threads_pq) (waiting_ids s.sched.waiting_threads),
        length-ready_ids s.sched.ready_threads_pq,
        length-waiting_ids s.sched.waiting_threads,
      )
