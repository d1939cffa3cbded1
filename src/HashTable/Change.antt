-- ===== src/HashTable/Change.antt =====
-- A change of one chain of a table on nodes.
use thread_scheduler_multipl.Base.{
  ◌∙◌, sym, false≢true, ℕ, zero, suc, ◌≡◌, refl, true, false, inl, inr, ◌⊎◌, none, some, List, [],
  ◌∷◌, arith, get_elem?, set, Bool-cases,
}
use thread_scheduler_multipl.LinkedList.Nodes.{Memory}
use thread_scheduler_multipl.LinkedList.Pointers.{ListHandle}
use thread_scheduler_multipl.LinkedList.Chain.{Cells, has_cell, IsList}
use thread_scheduler_multipl.LinkedList.Contents.{free-has}
use thread_scheduler_multipl.HashTable.Release.{in_any, Leads, IsList-frame, Leads-frame}

module _ {A : Type 0} where
  -- A list that led through `cs` in `h` leads through `ds` in `g`: new cells were free, cells that
  -- have left are free, and the rest of the memory has not changed.
  pub record Change (h : Memory A) (cs ds : Cells A) (l : ListHandle) (g : Memory A) : Type 0 where
    pub list : IsList g l ds
    pub added : (p : ℕ) → has_cell p ds ≡ true → (has_cell p cs ≡ true) ⊎ (h p ≡ none)
    pub dropped : (p : ℕ) → has_cell p cs ≡ true → has_cell p ds ≡ false → g p ≡ none
    pub same : (p : ℕ) → has_cell p cs ≡ false → has_cell p ds ≡ false → g p ≡ h p

  pub free-in_any :
      (h : Memory A) (p : ℕ) (ls : List ListHandle) (css : List (Cells A))
      → Leads h ls css
      → h p ≡ none
      → in_any p css ≡ false
  free-in_any h p [] [] v e = refl
  free-in_any h p [] (cs ∷ css) v e = absurd v
  free-in_any h p (l ∷ ls) [] v e = refl
  free-in_any h p (l ∷ ls) (cs ∷ css) v e =
      ground (arith, free-has h p cs v.0.chain e, free-in_any h p ls css v.2 e)

  pub in_any-get :
      (p : ℕ) (css : List (Cells A)) (i : ℕ) (cs : Cells A)
      → get_elem? css i ≡ some cs
      → has_cell p cs ≡ true
      → in_any p css ≡ true
  in_any-get p [] i cs e k = absurd (ground (arith, e))
  in_any-get p (ds ∷ css) zero cs e k = ground (arith, e, k)
  in_any-get p (ds ∷ css) (suc i) cs e k = ground (arith, in_any-get p css i cs e k)

  pub in_any-new :
      (p : ℕ) (css : List (Cells A)) (i : ℕ) (cs ds : Cells A)
      → get_elem? css i ≡ some cs
      → has_cell p ds ≡ true
      → in_any p (set css i ds) ≡ true
  in_any-new p [] i cs ds e k = absurd (ground (arith, e))
  in_any-new p (bs ∷ css) zero cs ds e k = ground (arith, k)
  in_any-new p (bs ∷ css) (suc i) cs ds e k = ground (arith, in_any-new p css i cs ds e k)

  pub in_any-set :
      (p : ℕ) (css : List (Cells A)) (i : ℕ) (ds : Cells A)
      → in_any p css ≡ false
      → has_cell p ds ≡ false
      → in_any p (set css i ds) ≡ false
  in_any-set p [] i ds e k = refl
  in_any-set p (cs ∷ css) zero ds e k = ground (arith, e, k)
  in_any-set p (cs ∷ css) (suc i) ds e k = ground (arith, e, in_any-set p css i ds)

  pub in_any-stays :
      (p : ℕ) (css : List (Cells A)) (i : ℕ) (cs ds : Cells A)
      → get_elem? css i ≡ some cs
      → in_any p css ≡ true
      → has_cell p cs ≡ false
      → in_any p (set css i ds) ≡ true
  in_any-stays p [] i cs ds e k o = absurd (ground (arith, e))
  in_any-stays p (bs ∷ css) zero cs ds e k o = ground (arith, e, k, o)
  in_any-stays p (bs ∷ css) (suc i) cs ds e k o = ground (arith, k, in_any-stays p css i cs ds e)

  Leads-set :
      (h g : Memory A) (ls : List ListHandle) (css : List (Cells A)) (i : ℕ) (cs ds : Cells A)
      (l : ListHandle)
      → Leads h ls css
      → get_elem? css i ≡ some cs
      → IsList g l ds
      → ((p : ℕ) → has_cell p ds ≡ true → (has_cell p cs ≡ true) ⊎ (in_any p css ≡ false))
      → ((p : ℕ) → in_any p css ≡ true → has_cell p cs ≡ false → g p ≡ h p)
      → Leads g (set ls i l) (set css i ds)
  Leads-set h g [] [] i cs ds l v e is added same = tt
  Leads-set h g [] (bs ∷ css) i cs ds l v e is added same = absurd v
  Leads-set h g (k ∷ ls) [] i cs ds l v e is added same = absurd v
  Leads-set h g (k ∷ ls) (bs ∷ css) zero cs ds l v e is added same =
      let q : bs ≡ cs = ground (arith, e) in
      (
        is,
        λ p o. elim (added p o) [ inl t ↦ v.1 p (rw q t) | inr f ↦ ground (arith, f) ],
        Leads-frame h g ls css v.2
            (λ p t. same p (ground (arith, t)) (rw (sym q) (ground (arith, t, v.1 p)))),
      )
  Leads-set h g (k ∷ ls) (bs ∷ css) (suc i) cs ds l v e is added same =
      let out = λ (p : ℕ) (o : has_cell p bs ≡ true).
        elim (Bool-cases (has_cell p cs)) as (λ _. has_cell p cs ≡ false) [
          | inl t ↦ absurd (false≢true (sym (v.1 p o) ∙ in_any-get p css i cs e t))
          | inr f ↦ f
        ] in
      (
        IsList-frame h g k bs v.0 (λ p o. same p (ground (arith, o)) (out p o)),
        λ p o. in_any-set p css i ds (v.1 p o) (elim (Bool-cases (has_cell p ds)) [
          | inl t ↦ absurd (ground (arith, added p t, out p o, o))
          | inr f ↦ f
        ]),
        Leads-set h g ls css i cs ds l v.2 e is
            (λ p o. elim (added p o) [ inl t ↦ inl t | inr f ↦ inr (ground (arith, f)) ])
            (λ p t o. same p (ground (arith, t)) o),
      )

  -- If one list changes, the lists still lead through chains that share no cell.
  pub Leads-Change :
      (h g : Memory A) (ls : List ListHandle) (css : List (Cells A)) (i : ℕ) (cs ds : Cells A)
      (l : ListHandle)
      → Leads h ls css
      → get_elem? css i ≡ some cs
      → Change h cs ds l g
      → Leads g (set ls i l) (set css i ds)
  Leads-Change h g ls css i cs ds l v e c =
      Leads-set h g ls css i cs ds l v e c.list
        (λ p o. elim (c.added p o) [ inl t ↦ inl t | inr f ↦ inr (free-in_any h p ls css v f) ])
        (λ p t out. elim (Bool-cases (has_cell p ds)) [
          | inl o ↦ elim (c.added p o) [
            | inl k ↦ absurd (false≢true (sym out ∙ k))
            | inr f ↦ absurd (false≢true (sym (free-in_any h p ls css v f) ∙ t))
          ]
          | inr o ↦ c.same p out o
        ])
