-- ===== src/HashTable/Owned.antt =====
-- The memory that a table on nodes owns.
use thread_scheduler_multipl.Base.{
  ◌∙◌, ap, sym, false≢true, ℕ, zero, suc, ◌≡◌, refl, true, false, inl, inr, none, some, List, [],
  ◌∷◌, ◌==◌, arith, Bool-cases, length, get_elem?, set, replicate, length-set,
}
use thread_scheduler_multipl.LinkedList.Nodes.{Memory}
use thread_scheduler_multipl.LinkedList.Pointers.{ListHandle}
use thread_scheduler_multipl.LinkedList.Chain.{Cells, has_cell, IsList, not_first}
use thread_scheduler_multipl.LinkedList.Add.{Adds}
use thread_scheduler_multipl.HashTable.Nodes.{NodeTable, empty_list}
use thread_scheduler_multipl.HashTable.Release.{in_any, Leads}
use thread_scheduler_multipl.HashTable.Change.{
  Change, free-in_any, in_any-get, in_any-set, in_any-new, in_any-stays, Leads-Change,
}

pub in_any-empty : (A : Type 0) (p n : ℕ) → in_any p (replicate {A = Cells A} n []) ≡ false
in_any-empty A p zero = refl
in_any-empty A p (suc n) = in_any-empty A p n

module _ {A : Type 0} where
  -- The table's lists lead through `css`; the memory is `h₀` but for these cells, which were free.
  pub record Owned (h₀ : Memory A) (nt : NodeTable) (h : Memory A) (css : List (Cells A))
      : Type 0 where
    pub leads : Leads h nt.lists css
    pub capacity : nt.capacity ≡ length nt.lists
    pub fresh : (p : ℕ) → in_any p css ≡ true → h₀ p ≡ none
    pub same : (p : ℕ) → in_any p css ≡ false → h p ≡ h₀ p

  pub Leads-get :
      (h : Memory A) (ls : List ListHandle) (css : List (Cells A)) (i : ℕ) (l : ListHandle)
      → Leads h ls css
      → get_elem? ls i ≡ some l
      → (cs : Cells A) × (get_elem? css i ≡ some cs) × IsList h l cs
  Leads-get h [] css i l v e = absurd (ground (arith, e))
  Leads-get h (k ∷ ls) [] i l v e = absurd v
  Leads-get h (k ∷ ls) (cs ∷ css) zero l v e =
      (cs, refl, let q : k ≡ l = ground (arith, e) in rw q at (v.0))
  Leads-get h (k ∷ ls) (cs ∷ css) (suc i) l v e = Leads-get h ls css i l v.2 e

  pub Leads-empty : (h : Memory A) (n : ℕ) → Leads h (replicate n empty_list) (replicate n [])
  Leads-empty h zero = tt
  Leads-empty h (suc n) = (
    record { head = refl; tail = refl; size = refl; small = omega arith; chain = tt },
    λ p t. absurd (false≢true t),
    Leads-empty h n,
  )

  -- A change of one of the table's lists
  pub Owned-Change :
      (h₀ h g : Memory A) (nt after : NodeTable) (css : List (Cells A)) (i : ℕ) (cs ds : Cells A)
      (l : ListHandle)
      → Owned h₀ nt h css
      → get_elem? css i ≡ some cs
      → Change h cs ds l g
      → after.lists ≡ set nt.lists i l
      → after.capacity ≡ nt.capacity
      → Owned h₀ after g (set css i ds)
  Owned-Change h₀ h g nt after css i cs ds l o e c ls cap = record {
    leads = rw ls (Leads-Change h g nt.lists css i cs ds l o.leads e c);
    capacity = cap ∙ o.capacity ∙ sym (length-set nt.lists i l) ∙ ap length (sym ls);
    fresh = λ p t. elim (Bool-cases (has_cell p ds)) [
      | inl d ↦ elim (c.added p d) [
        | inl k ↦ o.fresh p (in_any-get p css i cs e k)
        | inr n ↦ sym (o.same p (free-in_any h p nt.lists css o.leads n)) ∙ n
      ]
      | inr d ↦ elim (Bool-cases (in_any p css)) [
        | inl k ↦ o.fresh p k
        | inr k ↦ absurd (false≢true (sym (in_any-set p css i ds k d) ∙ t))
      ]
    ];
    same = λ p f. elim (Bool-cases (has_cell p ds)) [
      | inl d ↦ absurd (false≢true (sym f ∙ in_any-new p css i cs ds e d))
      | inr d ↦ elim (Bool-cases (has_cell p cs)) [
        | inl k ↦ c.dropped p k d ∙ sym (o.fresh p (in_any-get p css i cs e k))
        | inr k ↦ elim (Bool-cases (in_any p css)) [
          | inl t ↦ absurd (false≢true (sym f ∙ in_any-stays p css i cs ds e t k))
          | inr t ↦ c.same p k d ∙ o.same p t
        ]
      ]
    ];
  }

  pub Adds-Change :
      (h g : Memory A) (fresh : ℕ) (x : A) (cs : Cells A) (l : ListHandle)
      → h fresh ≡ none
      → Adds h fresh cs ((fresh, x) ∷ cs) l g
      → Change h cs ((fresh, x) ∷ cs) l g
  Adds-Change h g fresh x cs l free o = record {
    list = o.list_after;
    added = λ p t. elim (Bool-cases (fresh == p)) [
      | inl e ↦ let q : p ≡ fresh = ground (arith, e) in inr (ap h q ∙ free)
      | inr e ↦ inl (rw e at t)
    ];
    dropped = λ p t f. absurd (false≢true (sym ((not_first p fresh x cs f).1) ∙ t));
    same = λ p out f. o.same p out ((not_first p fresh x cs f).0);
  }
