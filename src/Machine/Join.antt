-- ===== src/Machine/Join.antt =====
-- `so_end` in `main`, while threads run: its loop joins the created threads one by one.
use thread_scheduler_multipl.Base.{
  ℕ, suc, ◌<◌, ◌≡◌, ◌≢◌, refl, none, some, ◌⊎◌, inl, inr, arith, ltb, Bool-cases, get_elem?,
}
use thread_scheduler_multipl.Machine.{
  Pc, unborn, active, parked, ended, System, park, Step, wake, call, finish, Reach,
}
use thread_scheduler_multipl.Machine.Grows.{
  get_elem?-below, Step-Grows, Listed, Grows-Listed, Reach-Listed,
}

-- The system, and how many threads `so_end` has joined.
pub data Joined (time_quantum io : ℕ) : System → ℕ → Type 0 where
  -- `main` calls `so_end`.
  begin : {s : System} → Reach time_quantum io s → Joined time_quantum io s 0
  step : {s u : System} {n : ℕ} → Joined time_quantum io s n → Step s u → Joined time_quantum io u n
  -- `pthread_join` returns: the next thread of the list has ended.
  join :
      {s : System} {n : ℕ} (t : ℕ)
      → Joined time_quantum io s n
      → get_elem? s.sched.pthreads_created n ≡ some t
      → s.pc t ≡ ended
      → Joined time_quantum io s (suc n)

record JoinInv (s : System) (n : ℕ) : Type 0 where
  listed : Listed s
  gone :
      (i : ℕ) → i < n → (t : ℕ) × (get_elem? s.sched.pthreads_created i ≡ some t) × (s.pc t ≡ ended)

Joined-JoinInv :
    {time_quantum io : ℕ} {s : System} {n : ℕ} → Joined time_quantum io s n → JoinInv s n
Joined-JoinInv (begin r) = record { listed = Reach-Listed r; gone = λ i lt. absurd (omega arith) }
Joined-JoinInv (step j st) =
    let v = Joined-JoinInv j in
    let g = Step-Grows st in
    record {
      listed = Grows-Listed g v.listed;
      gone = λ i lt. let (t, e, f) = v.gone i lt in (t, g.extends i t e, g.stays t f);
    }
Joined-JoinInv (join {n = m} t j e f) =
    let v = Joined-JoinInv j in
    record {
      listed = v.listed;
      gone = λ i lt. elim (Bool-cases (ltb i m)) [
        | inl below ↦ v.gone i (ground arith)
        | inr last ↦ let q : i ≡ m = ground arith in (t, rw q e, f)
      ];
    }

Pc-cases : (c : Pc) → (c ≡ unborn) ⊎ (c ≢ unborn)
Pc-cases unborn = inl refl
Pc-cases (parked owner) = inr (λ e. absurd (cc))
Pc-cases active = inr (λ e. absurd (cc))
Pc-cases ended = inr (λ e. absurd (cc))

all-ended :
    (s : System) (n : ℕ)
    → JoinInv s n
    → get_elem? s.sched.pthreads_created n ≡ none
    → (t : ℕ) → (s.pc t ≡ unborn) ⊎ (s.pc t ≡ ended)
unfolding Listed
all-ended s n v out t = elim (Pc-cases (s.pc t)) [
  | inl u ↦ inl u
  | inr b ↦
      let (i, e) = v.listed t b in
      let (t', e', f) = v.gone i (get_elem?-below s.sched.pthreads_created i n t out e) in
      let q : t' ≡ t = cc in inr (rw q at f)
]

still : (s : System) {u : System} → ((t : ℕ) → (s.pc t ≡ unborn) ⊎ (s.pc t ≡ ended)) → Step s u → ⊥
still s all (wake t owner p n park e up) = ground (arith, park, all t)
still s all (call t r act fresh e) = ground (arith, act, all t)
still s all (finish t act e) = ground (arith, act, all t)

-- When the loop of `so_end` reaches the end of the list of created threads, no thread is left: each
-- has ended or was never created, and none can take a step.
pub join_lem :
    {time_quantum io : ℕ} {s : System} {n : ℕ}
    → Joined time_quantum io s n
    → get_elem? s.sched.pthreads_created n ≡ none
    → ((t : ℕ) → (s.pc t ≡ unborn) ⊎ (s.pc t ≡ ended)) × ((u : System) → ¬ Step s u)
join_lem {s = s} {n = n} j out =
    let all = all-ended s n (Joined-JoinInv j) out in (all, λ u st. still s all st)
