-- ===== src/Machine/Waiters.antt =====
-- The list of waiting threads: what is added to it, and what `so_signal` takes out.
use thread_scheduler_multipl.Base.{
  ℕ, suc, ◌≡◌, refl, Bool, false, Option, none, some, List, [], ◌∷◌, ◌++◌, ◌||◌, ◌==◌, All, arith,
  length, ap, Bool-cases, inl, inr,
}
use thread_scheduler_multipl.LinkedList.{pop_node_list}
use thread_scheduler_multipl.Scheduler.State.{WaitingPthread}
use thread_scheduler_multipl.Machine.Invariant.{has_waiter, AreDistinct}

pub has_waiter-append :
    (t : ℕ) (xs ys : List WaitingPthread)
    → has_waiter t (xs ++ ys) ≡ (has_waiter t xs || has_waiter t ys)
has_waiter-append t [] ys = refl
has_waiter-append t (x ∷ xs) ys = ground (arith, has_waiter-append t xs ys)

pub append-AreDistinct :
    (x : WaitingPthread) (xs : List WaitingPthread)
    → AreDistinct xs
    → has_waiter x.pthread_id xs ≡ false
    → AreDistinct (xs ++ (x ∷ []))
append-AreDistinct x [] d h = (refl, tt)
append-AreDistinct x (y ∷ ys) d h = (
  ground (arith, has_waiter-append y.pthread_id ys (x ∷ [])),
  append-AreDistinct x ys d.1 (ground arith),
)

-- What a successful `pop_node_list` gives.
pub record Popped {ℓ} (P : WaitingPthread → Type ℓ) (xs : List WaitingPthread) (w : WaitingPthread)
    (ys : List WaitingPthread) : Type ℓ where
  pub split : (t : ℕ) → has_waiter t xs ≡ ((w.pthread_id == t) || has_waiter t ys)
  pub unique : has_waiter w.pthread_id ys ≡ false
  pub distinct : AreDistinct ys
  pub holds : P w
  pub rest : All P ys
  pub shorter : length xs ≡ suc (length ys)

abbrev pub PopsTo {ℓ} :
    (WaitingPthread → Type ℓ)
    → List WaitingPthread
    → Option (WaitingPthread × List WaitingPthread)
    → Type ℓ
PopsTo P xs none = Unit
PopsTo P xs (some (w, ys)) = Popped P xs w ys

module _ {ℓ} (P : WaitingPthread → Type ℓ) where
  Popped-cons :
      (x : WaitingPthread) (xs : List WaitingPthread) (w : WaitingPthread)
      (ys : List WaitingPthread)
      → AreDistinct (x ∷ xs)
      → P x
      → Popped P xs w ys
      → Popped P (x ∷ xs) w (x ∷ ys)
  Popped-cons x xs w ys d h o = record {
    split = λ t. ground (arith, o.split t);
    unique = ground (arith, o.split x.pthread_id, o.unique, d.0);
    distinct = (ground (arith, o.split x.pthread_id, d.0), o.distinct);
    holds = o.holds;
    rest = (h, o.rest);
    shorter = ap suc o.shorter;
  }

  pub pop-PopsTo :
      (found : WaitingPthread → Bool) (xs : List WaitingPthread)
      → AreDistinct xs
      → All P xs
      → PopsTo P xs (pop_node_list found xs)
  unfolding pop_node_list
  pop-PopsTo found [] d h = tt
  pop-PopsTo found (x ∷ xs) d h = elim (Bool-cases (found x)) [
    | inl hit ↦
        rw (hit, PopsTo)
          (record {
            split = λ t. refl;
            unique = d.0;
            distinct = d.1;
            holds = h.0;
            rest = h.1;
            shorter = refl;
          })
    | inr miss ↦ rw (miss, PopsTo) (go (pop_node_list found xs) (pop-PopsTo found xs d.1 h.1))
  ]
    where
      go :
          (r : Option (WaitingPthread × List WaitingPthread))
          → PopsTo P xs r
          → PopsTo P (x ∷ xs) (elim r [ none ↦ none | some (y, ys) ↦ some (y, x ∷ ys) ])
      go none o = tt
      go (some (w, ys)) o = Popped-cons x xs w ys d h.0 o
