-- ===== src/HashTable/Release.antt =====
-- `free_hashtable` on nodes.
use thread_scheduler_multipl.Base.{
  ◌∙◌, ℕ, zero, suc, ◌≡◌, refl, Bool, true, false, ◌||◌, inl, inr, Option, none, some, List, [],
  ◌∷◌, length, arith, get_elem?, Bool-cases,
}
use thread_scheduler_multipl.LinkedList.Nodes.{Memory, ◌>>◌, bind-ok}
use thread_scheduler_multipl.LinkedList.Pointers.{ListHandle}
use thread_scheduler_multipl.LinkedList.Chain.{Cells, has_cell, Chain-frame, IsList}
use thread_scheduler_multipl.LinkedList.Search.{Freed, Frees, free_loop_lem}
use thread_scheduler_multipl.HashTable.Nodes.{free_list, lists_loop}

module _ {A : Type 0} where
  -- Is `p` the address of a cell of one of the chains?
  abbrev pub in_any : ℕ → List (Cells A) → Bool
  in_any p [] = false
  in_any p (cs ∷ css) = has_cell p cs || in_any p css

  abbrev pub Apart : Cells A → List (Cells A) → Type 0
  Apart cs css = (p : ℕ) → has_cell p cs ≡ true → in_any p css ≡ false

  -- The lists' pointers lead through the chains, and no two chains share a cell.
  abbrev pub Leads : Memory A → List ListHandle → List (Cells A) → Type 0
  Leads h [] [] = Unit
  Leads h [] (cs ∷ css) = ⊥
  Leads h (l ∷ ls) [] = ⊥
  Leads h (l ∷ ls) (cs ∷ css) = IsList h l cs × Apart cs css × Leads h ls css

  pub IsList-frame :
      (h g : Memory A) (l : ListHandle) (cs : Cells A)
      → IsList h l cs
      → ((p : ℕ) → has_cell p cs ≡ true → g p ≡ h p)
      → IsList g l cs
  IsList-frame h g l cs is same = record {
    head = is.head;
    tail = is.tail;
    size = is.size;
    small = is.small;
    chain = Chain-frame cs is.chain same;
  }

  pub Leads-frame :
      (h g : Memory A) (ls : List ListHandle) (css : List (Cells A))
      → Leads h ls css
      → ((p : ℕ) → in_any p css ≡ true → g p ≡ h p)
      → Leads g ls css
  Leads-frame h g [] [] v same = tt
  Leads-frame h g [] (cs ∷ css) v same = absurd v
  Leads-frame h g (l ∷ ls) [] v same = absurd v
  Leads-frame h g (l ∷ ls) (cs ∷ css) v same = (
    IsList-frame h g l cs v.0 (λ p k. same p (ground (arith, k))),
    v.1,
    Leads-frame h g ls css v.2 (λ p k. same p (ground (arith, k))),
  )

  -- The cells of all chains are free, and no other address has changed.
  pub record Released (h : Memory A) (css : List (Cells A)) (g : Memory A) : Type 0 where
    pub gone : (p : ℕ) → in_any p css ≡ true → g p ≡ none
    pub same : (p : ℕ) → in_any p css ≡ false → g p ≡ h p

  abbrev pub Releases : Memory A → List (Cells A) → Option (Unit {0} × Memory A) → Type 0
  Releases h css none = ⊥
  Releases h css (some (u, g)) = Released h css g

  then_cong :
      (r : Option (Unit {0} × Memory A)) (k m : Memory A → Option (Unit {0} × Memory A))
      → ((g : Memory A) → k g ≡ m g)
      → elim r [ none ↦ none | some (u, g) ↦ k g ] ≡ elim r [ none ↦ none | some (u, g) ↦ m g ]
  then_cong none k m e = refl
  then_cong (some (u, g)) k m e = e g

  -- The loop over a list from its second place on is the loop over the tail.
  lists_loop-tail :
      (n i : ℕ) (l : ListHandle) (ls : List ListHandle) (h : Memory A)
      → lists_loop n (suc i) (l ∷ ls) h ≡ lists_loop n i ls h
  unfolding lists_loop
  lists_loop-tail zero i l ls h = refl
  lists_loop-tail (suc n) i l ls h = at (get_elem? ls i) (λ g. lists_loop-tail n (suc i) l ls g)
    where
      at :
          (o : Option ListHandle)
          → ((g : Memory A) → lists_loop n (suc (suc i)) (l ∷ ls) g ≡ lists_loop n (suc i) ls g)
          → (elim o as (λ _. Option (Unit {0} × Memory A)) [
            | none ↦ none
            | some list ↦ (do free_list list; lists_loop n (suc (suc i)) (l ∷ ls)) h
          ])
            ≡ elim o [ none ↦ none | some list ↦ (do free_list list; lists_loop n (suc i) ls) h ]
      at none e = refl
      at (some list) e = then_cong (free_list list h) _ _ e

  Released-step :
      (h g k : Memory A) (cs : Cells A) (css : List (Cells A))
      → Apart cs css
      → Freed h cs g
      → Released g css k
      → Released h (cs ∷ css) k
  Released-step h g k cs css apart f r = record {
    gone = λ p o. elim (Bool-cases (in_any p css)) [
      | inl t ↦ r.gone p t
      | inr e ↦ r.same p e ∙ f.gone p (ground (arith, o, e))
    ];
    same = λ p o. r.same p (ground (arith, o)) ∙ f.same p (ground (arith, o));
  }

  free_list-Frees :
      (h : Memory A) (l : ListHandle) (cs : Cells A) → IsList h l cs → Frees h cs (free_list l h)
  unfolding free_list
  free_list-Frees h l cs is =
      rw is.head (free_loop_lem (suc l.size) h cs (omega (arith, is.size)) is.chain)

  Releases-cons :
      (h g : Memory A) (cs : Cells A) (css : List (Cells A)) (r : Option (Unit {0} × Memory A))
      → Apart cs css
      → Freed h cs g
      → Releases g css r
      → Releases h (cs ∷ css) r
  Releases-cons h g cs css none apart f o = o
  Releases-cons h g cs css (some (u, k)) apart f o = Released-step h g k cs css apart f o

  Releases-step :
      (n : ℕ) (h : Memory A) (l : ListHandle) (ls : List ListHandle) (cs : Cells A)
      (css : List (Cells A)) (r : Option (Unit {0} × Memory A))
      → free_list l h ≡ r
      → Apart cs css
      → Leads h ls css
      → Frees h cs r
      → ((g : Memory A) → Leads g ls css → Releases g css (lists_loop n 0 ls g))
      → Releases h (cs ∷ css) (lists_loop (suc n) 0 (l ∷ ls) h)
  unfolding lists_loop
  Releases-step n h l ls cs css none e apart v f rest = absurd f
  Releases-step n h l ls cs css (some (u, g)) e apart v f rest =
      rw (bind-ok (free_list l) (λ _. lists_loop n 1 (l ∷ ls)) h g u e, lists_loop-tail n 0 l ls g)
        (Releases-cons h g cs css (lists_loop n 0 ls g) apart f
          (rest g (Leads-frame h g ls css v (λ p k. f.same p (ground (arith, k, apart p))))))

  -- If no two chains share a cell, the loop of `free_hashtable` ends without a fault, so it releases
  -- no cell twice, and it has released every cell of every chain and nothing else.
  pub lists_loop-Releases :
      (h : Memory A) (ls : List ListHandle) (css : List (Cells A))
      → Leads h ls css
      → Releases h css (lists_loop (length ls) 0 ls h)
  unfolding lists_loop
  lists_loop-Releases h [] [] v = record {
    gone = λ p o. absurd (ground (arith, o));
    same = λ p o. refl;
  }
  lists_loop-Releases h [] (cs ∷ css) v = absurd v
  lists_loop-Releases h (l ∷ ls) [] v = absurd v
  lists_loop-Releases h (l ∷ ls) (cs ∷ css) v =
      Releases-step (length ls) h l ls cs css (free_list l h) refl v.1 v.2
        (free_list-Frees h l cs v.0) (λ g w. lists_loop-Releases g ls css w)
