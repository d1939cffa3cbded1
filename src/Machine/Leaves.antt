-- ===== src/Machine/Leaves.antt =====
-- Commands that leave the list of created threads, or add a thread to it: a rule for each way of
-- building a command, and the reads and writes.
use thread_scheduler_multipl.Base.{
  subst, ℕ, ◌+◌, ◌≡◌, refl, Bool, true, false, Option, none, some, List, [], ◌∷◌, ◌++◌,
  if◌then◌else◌, arith,
}
use thread_scheduler_multipl.PriorityQueue.{PqData}
use thread_scheduler_multipl.Scheduler.State.{
  PthreadParam, Scheduler, Cmd, pure, ◌>>=◌, ◌>>◌, asks, get_value, write_param, set_time_quantum,
  sem_post, push_ready, pop_ready, peak_ready,
}
use thread_scheduler_multipl.Scheduler.{set_fastest_thread}

abbrev pub CreatedAs : {A : Type 0} → List ℕ → Option (A × Scheduler) → Type 0
CreatedAs ts none = Unit
CreatedAs ts (some (a, s)) = s.pthreads_created ≡ ts

pub record Leaves {A : Type 0} (m : Cmd A) : Type 0 where
  pub at : (s : Scheduler) → CreatedAs s.pthreads_created (m s)

pub record Adds {A : Type 0} (t : ℕ) (m : Cmd A) : Type 0 where
  pub at : (s : Scheduler) → CreatedAs (s.pthreads_created ++ (t ∷ [])) (m s)

module _ {A B : Type 0} where
  then-created :
      (ts us : List ℕ) (r : Option (A × Scheduler)) (f : A → Cmd B)
      → CreatedAs ts r
      → ((a : A) (s : Scheduler) → s.pthreads_created ≡ ts → CreatedAs us (f a s))
      → CreatedAs us (elim r [ none ↦ none | some (a, s) ↦ f a s ])
  then-created ts us none f h k = tt
  then-created ts us (some (a, s)) f h k = k a s h

  pub Leaves-bind :
      (m : Cmd A) (f : A → Cmd B) → Leaves m → ((a : A) → Leaves (f a)) → Leaves (m >>= f)
  Leaves-bind m f h k = record {
    at = λ s.
        then-created s.pthreads_created s.pthreads_created (m s) f (h.at s)
          (λ a s' e. subst (λ us. CreatedAs us (f a s')) e ((k a).at s'));
  }

  pub Adds-bind :
      (t : ℕ) (m : Cmd A) (f : A → Cmd B) → Adds t m → ((a : A) → Leaves (f a)) → Adds t (m >>= f)
  Adds-bind t m f h k = record {
    at = λ s.
        then-created (s.pthreads_created ++ (t ∷ [])) (s.pthreads_created ++ (t ∷ [])) (m s) f
          (h.at s) (λ a s' e. subst (λ us. CreatedAs us (f a s')) e ((k a).at s'));
  }

  pub Adds-later :
      (t : ℕ) (m : Cmd A) (f : A → Cmd B) → Leaves m → ((a : A) → Adds t (f a)) → Adds t (m >>= f)
  Adds-later t m f h k = record {
    at = λ s.
        then-created s.pthreads_created (s.pthreads_created ++ (t ∷ [])) (m s) f (h.at s)
          (λ a s' e. subst (λ us. CreatedAs (us ++ (t ∷ [])) (f a s')) e ((k a).at s'));
  }

module _ {A : Type 0} where
  pub Leaves-pure : (a : A) → Leaves (pure a)
  Leaves-pure a = record { at = λ s. refl }

  pub Leaves-asks : (f : Scheduler → A) → Leaves (asks f)
  Leaves-asks f = record { at = λ s. refl }

  pub Leaves-if : (b : Bool) (m n : Cmd A) → Leaves m → Leaves n → Leaves (if b then m else n)
  Leaves-if true m n h k = h
  Leaves-if false m n h k = k

pub Leaves-seq :
    {B : Type 0} {m : Cmd (Unit {0})} {n : Cmd B} → Leaves m → Leaves n → Leaves (m >> n)
Leaves-seq {m = m} {n = n} h k = Leaves-bind m (λ _. n) h (λ _. k)

pub Leaves-get_value : (t : ℕ) → Leaves (get_value t)
Leaves-get_value t = record { at = λ s. ground (arith) }

Leaves-write_param : (t : ℕ) (f : PthreadParam → PthreadParam) → Leaves (write_param t f)
Leaves-write_param t f = record { at = λ s. ground (arith) }

pub Leaves-peak_ready : Leaves peak_ready
Leaves-peak_ready = record { at = λ s. ground arith }

pub Leaves-set_fastest : (max : PqData) → Leaves (set_fastest_thread max)
unfolding set_fastest_thread
Leaves-set_fastest max = record { at = λ s. refl }

pub Leaves-sem_post : (t : ℕ) → Leaves (sem_post t)
Leaves-sem_post t = Leaves-write_param t (λ p. record p { semaphore = p.semaphore + 1 })

pub Leaves-set_time_quantum : (t q : ℕ) → Leaves (set_time_quantum t q)
Leaves-set_time_quantum t q = Leaves-write_param t (λ p. record p { time_quantum = q })

pub Leaves-push_ready : (t priority : ℕ) → Leaves (push_ready t priority)
Leaves-push_ready t priority = record { at = λ s. refl }

pub Leaves-pop_ready : Leaves pop_ready
Leaves-pop_ready = record { at = λ s. refl }

pub Leaves-take : (max : PqData) → Leaves (get_value max.thread >>= λ _. set_fastest_thread max)
Leaves-take max =
    Leaves-bind _ (λ _. set_fastest_thread max) (Leaves-get_value max.thread)
      (λ _. Leaves-set_fastest max)
