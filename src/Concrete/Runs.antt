-- ===== src/Concrete/Runs.antt =====
-- When a call on memory ends as a call of `Scheduler` does.
use thread_scheduler_multipl.Base.{
  ℕ, ◌≡◌, ◌≢◌, ◌∙◌, Option, none, some, ◌==◌, arith, Bool-cases, inl, inr,
}
use thread_scheduler_multipl.HashTable.{HashTable}
use thread_scheduler_multipl.Scheduler.State.{Scheduler, Exit}
use thread_scheduler_multipl.Concrete.State.{Store}
use thread_scheduler_multipl.Concrete.Relates.{Related, address_of}
use thread_scheduler_multipl.Concrete.Sim.{Agrees}
use thread_scheduler_multipl.Concrete.Calls.{ExitsAs}

-- The addresses of the threads stay what they were.
abbrev pub Grows : HashTable ℕ ℕ → HashTable ℕ ℕ → Type 0
Grows ht ht' = (j a : ℕ) → address_of ht j ≡ some a → address_of ht' j ≡ some a

-- A call that has a result there has one here, and waits on the same thread's struct; the states
-- agree again, with a table of the call's end, of which `P` holds.
abbrev pub RunsAs :
    {A : Type 0}
    → HashTable ℕ ℕ
    → (P : HashTable ℕ ℕ → Type 0) → Option (Exit A × Store)
    → Option (Exit A × Scheduler)
    → Type 0
RunsAs ht P r none = Unit
RunsAs ht P none (some (e, s)) = ⊥
RunsAs ht P (some (e, c)) (some (e', s)) =
    (ht' : HashTable ℕ ℕ) × Grows ht ht' × P ht' × ExitsAs ht' e e' × Related ht' 0 c s

pub Agrees-RunsAs :
    {A : Type 0} (ht : HashTable ℕ ℕ) (P : HashTable ℕ ℕ → Type 0) (r : Option (Exit A × Store))
    (o : Option (Exit A × Scheduler))
    → P ht
    → Agrees ht 0 (ExitsAs ht) r o
    → RunsAs ht P r o
Agrees-RunsAs ht P r none q h = tt
Agrees-RunsAs ht P none (some (e, s)) q h = h
Agrees-RunsAs ht P (some (e, c)) (some (e', s)) q h = (ht, λ j a f. f, q, h.0, h.1)

pub RunsAs-Grows :
    {A : Type 0} (ht ht' : HashTable ℕ ℕ) (P : HashTable ℕ ℕ → Type 0) (r : Option (Exit A × Store))
    (o : Option (Exit A × Scheduler))
    → Grows ht ht'
    → RunsAs ht' P r o
    → RunsAs ht P r o
RunsAs-Grows ht ht' P r none g h = tt
RunsAs-Grows ht ht' P none (some (e, s)) g h = h
RunsAs-Grows ht ht' P (some (e, c)) (some (e', s)) g (ht'', g', q, f, rel) =
    (ht'', λ j a k. g' j a (g j a k), q, f, rel)

pub created-Grows :
    (ht ht' : HashTable ℕ ℕ) (new : ℕ)
    → address_of ht new ≡ none
    → ((j : ℕ) → j ≢ new → address_of ht' j ≡ address_of ht j)
    → Grows ht ht'
created-Grows ht ht' new absent others j a e = elim (Bool-cases (j == new)) [
  | inl same ↦ let i : j ≡ new = ground arith in let f = rw i at e in absurd (cc)
  | inr ne ↦ others j (ground arith) ∙ e
]
