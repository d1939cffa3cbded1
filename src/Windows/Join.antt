-- ===== src/Windows/Join.antt =====
-- `so_end` of Windows/so_scheduler.c in `main`, while threads run: its loop waits for the handles of
-- the created threads one by one.
use thread_scheduler_multipl.Base.{
  ℕ, zero, suc, ◌≡◌, refl, none, some, List, [], ◌∷◌, map, ◌⊎◌, get_elem?,
}
use thread_scheduler_multipl.Machine.{unborn, ended}
use thread_scheduler_multipl.Machine.Join as Linux
use thread_scheduler_multipl.Machine.Join.{join_lem}
use thread_scheduler_multipl.Windows.Machine.{System, linux_system, Step, Reach, later}
use thread_scheduler_multipl.Windows.Safety.{Reach-linux, Step-linux, inv}

get_elem?-map :
    (f : ℕ → ℕ) (xs : List ℕ) (i h : ℕ)
    → get_elem? xs i ≡ some h
    → get_elem? (map f xs) i ≡ some (f h)
get_elem?-map f [] i h e = absurd (cc)
get_elem?-map f (x ∷ xs) zero h e = cc
get_elem?-map f (x ∷ xs) (suc i) h e = get_elem?-map f xs i h e

get_elem?-map-none :
    (f : ℕ → ℕ) (xs : List ℕ) (i : ℕ) → get_elem? xs i ≡ none → get_elem? (map f xs) i ≡ none
get_elem?-map-none f [] i e = refl
get_elem?-map-none f (x ∷ xs) zero e = absurd (cc)
get_elem?-map-none f (x ∷ xs) (suc i) e = get_elem?-map-none f xs i e

module _ (thread_of : ℕ → ℕ) where
  -- The system, and for how many handles `so_end` has waited.
  pub data Joined (time_quantum io : ℕ) : System → ℕ → Type 0 where
    -- `main` calls `so_end`.
    begin : {u : System} → Reach thread_of time_quantum io u → Joined time_quantum io u 0
    step :
        {u v : System} {n : ℕ}
        → Joined time_quantum io u n
        → Step thread_of u v
        → Joined time_quantum io v n
    -- `WaitForSingleObject` returns: the thread of the next handle has ended.
    join :
        {u : System} {n : ℕ} (h : ℕ)
        → Joined time_quantum io u n
        → get_elem? u.sched.pthreads_created n ≡ some h
        → u.pc (thread_of h) ≡ ended
        → Joined time_quantum io u (suc n)

  Joined-Reach :
      {time_quantum io : ℕ} {u : System} {n : ℕ}
      → Joined time_quantum io u n
      → Reach thread_of time_quantum io u
  Joined-Reach (begin r) = r
  Joined-Reach (step j st) = later (Joined-Reach j) st
  Joined-Reach (join h j e f) = Joined-Reach j

  Joined-linux :
      {time_quantum io : ℕ} {u : System} {n : ℕ}
      → Joined time_quantum io u n
      → Linux.Joined time_quantum io (linux_system thread_of u) n
  Joined-linux (begin r) = Linux.begin (Reach-linux thread_of r)
  Joined-linux (step j st) =
      Linux.step (Joined-linux j) (Step-linux thread_of (inv thread_of (Joined-Reach j)) st)
  Joined-linux (join {u} {n} h j e f) =
      Linux.join (thread_of h) (Joined-linux j)
        (get_elem?-map thread_of u.sched.pthreads_created n h e) f

  -- When the loop of `so_end` on Windows has waited for every handle in the list of created
  -- threads, no thread is left: each has ended or was never created, and none can take a step.
  pub wait_handles_lem :
      {time_quantum io : ℕ} {u : System} {n : ℕ}
      → Joined time_quantum io u n
      → get_elem? u.sched.pthreads_created n ≡ none
      → ((t : ℕ) → (u.pc t ≡ unborn) ⊎ (u.pc t ≡ ended)) × ((v : System) → ¬ Step thread_of u v)
  wait_handles_lem {u = u} {n = n} j out =
      let (gone, still) =
        join_lem (Joined-linux j) (get_elem?-map-none thread_of u.sched.pthreads_created n out) in
      (
        gone,
        λ v st.
            still (linux_system thread_of v)
              (Step-linux thread_of (inv thread_of (Joined-Reach j)) st),
      )
