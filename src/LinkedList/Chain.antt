-- ===== src/LinkedList/Chain.antt =====
-- The cells that a handle's pointers lead through.
use thread_scheduler_multipl.Base.{
  false≢true, ◌∙◌, ap, sym, refl, ◌≢◌, ◌++◌, ℕ, suc, ◌<◌, ◌^◌, ◌≡◌, Bool, true, false, ◌||◌, Option,
  some, List, [], ◌∷◌, ◌==◌, length, arith,
}
use thread_scheduler_multipl.LinkedList.Nodes.{Node, node, Memory, write}
use thread_scheduler_multipl.LinkedList.Pointers.{ListHandle}

abbrev pub Cells : Type 0 → Type 0
Cells A = List (ℕ × A)

module _ {A : Type 0} where
  abbrev pub first : Cells A → ℕ
  first [] = 0
  first ((a, x) ∷ cs) = a

  abbrev pub end : ℕ → Cells A → ℕ
  end p [] = p
  end p ((a, x) ∷ cs) = end a cs

  abbrev pub has_cell : ℕ → Cells A → Bool
  has_cell p [] = false
  has_cell p ((a, x) ∷ cs) = (a == p) || has_cell p cs

  -- Each cell is allocated, points to the next one, and stands once in the list.
  abbrev pub Chain : Memory A → Cells A → Type 0
  Chain h [] = Unit
  Chain h ((a, x) ∷ cs) =
      (0 < a) × (h a ≡ some (node x (first cs))) × (has_cell a cs ≡ false) × Chain h cs

  pub record IsList (h : Memory A) (list : ListHandle) (cs : Cells A) : Type 0 where
    pub head : list.head ≡ first cs
    pub tail : list.tail ≡ end 0 cs
    pub size : list.size ≡ length cs
    pub small : length cs < 2 ^ 32
    pub chain : Chain h cs

  abbrev pub SameOutside : Cells A → Memory A → Memory A → Type 0
  SameOutside cs h g = (p : ℕ) → has_cell p cs ≡ false → g p ≡ h p

  pub Chain-frame :
      {h g : Memory A} (cs : Cells A)
      → Chain h cs
      → ((p : ℕ) → has_cell p cs ≡ true → g p ≡ h p)
      → Chain g cs
  Chain-frame [] c same = tt
  Chain-frame ((a, x) ∷ cs) c same =
      (c.0, ground (arith, same a), c.2, Chain-frame cs c.3 (λ p k. ground (arith, same p)))

  pub Chain-write :
      (h : Memory A) (a : ℕ) (n : Option (Node A)) (cs : Cells A)
      → Chain h cs
      → has_cell a cs ≡ false
      → Chain (write h a n) cs
  Chain-write h a n cs c out = Chain-frame cs c (λ p k. ground arith)

  abbrev pub end_content : A → Cells A → A
  end_content x [] = x
  end_content x ((a, y) ∷ cs) = end_content y cs

  pub at_end :
      (h : Memory A) (a : ℕ) (x : A) (cs : Cells A)
      → Chain h ((a, x) ∷ cs)
      → (0 < end a cs) × (h (end a cs) ≡ some (node (end_content x cs) 0))
  at_end h a x [] c = (c.0, c.1)
  at_end h a x ((b, y) ∷ cs) c = at_end h b y cs c.3

  has-snoc :
      (p q : ℕ) (x : A) (cs : Cells A)
      → has_cell p cs ≡ false
      → q ≢ p
      → has_cell p (cs ++ ((q, x) ∷ [])) ≡ false
  has-snoc p q x [] out ne = ground (arith, ne)
  has-snoc p q x ((a, y) ∷ cs) out ne = ground (arith, has-snoc p q x cs, ne)

  pub has_end : (a : ℕ) (x : A) (cs : Cells A) → has_cell (end a cs) ((a, x) ∷ cs) ≡ true
  has_end a x [] = ground arith
  has_end a x ((b, y) ∷ cs) = ground (arith, has_end b y cs)

  pub end-snoc : (p fresh : ℕ) (x : A) (cs : Cells A) → end p (cs ++ ((fresh, x) ∷ [])) ≡ fresh
  end-snoc p fresh x [] = refl
  end-snoc p fresh x ((a, y) ∷ cs) = end-snoc a fresh x cs

  pub length-snoc :
      (fresh : ℕ) (x : A) (cs : Cells A) → length (cs ++ ((fresh, x) ∷ [])) ≡ suc (length cs)
  length-snoc fresh x [] = refl
  length-snoc fresh x ((a, y) ∷ cs) = rw (length-snoc fresh x cs) refl

  pub write-at : (h : Memory A) (p : ℕ) (c : Option (Node A)) → write h p c p ≡ c
  write-at h p c = ground arith

  pub write-other : (h : Memory A) (p q : ℕ) (c : Option (Node A)) → q ≢ p → write h p c q ≡ h q
  write-other h p q c ne = ground arith

  pub has-ne : (p q : ℕ) (cs : Cells A) → has_cell p cs ≡ false → has_cell q cs ≡ true → q ≢ p
  has-ne p q cs f t = λ e. false≢true (sym f ∙ ap (λ r. has_cell r cs) (sym e) ∙ t)

  pub not_first :
      (p a : ℕ) (x : A) (cs : Cells A)
      → has_cell p ((a, x) ∷ cs) ≡ false
      → (p ≢ a) × (has_cell p cs ≡ false)
  not_first p a x cs f = ground arith

  pub has_first : (a : ℕ) (x : A) (cs : Cells A) → has_cell a ((a, x) ∷ cs) ≡ true
  has_first a x cs = ground arith

  has_later :
      (p a : ℕ) (x : A) (cs : Cells A) → has_cell p cs ≡ true → has_cell p ((a, x) ∷ cs) ≡ true
  has_later p a x cs t = ground (arith, t)

  pub Chain-snoc :
      (h g : Memory A) (fresh a : ℕ) (x y : A) (cs : Cells A)
      → Chain h ((a, y) ∷ cs)
      → 0 < fresh
      → has_cell fresh ((a, y) ∷ cs) ≡ false
      → g fresh ≡ some (node x 0)
      → g (end a cs) ≡ some (node (end_content y cs) fresh)
      → ((p : ℕ) → has_cell p ((a, y) ∷ cs) ≡ true → p ≢ end a cs → g p ≡ h p)
      → Chain g (((a, y) ∷ cs) ++ ((fresh, x) ∷ []))
  Chain-snoc h g fresh a x y [] c pos new at linked same = (
    c.0,
    linked,
    has-snoc a fresh x [] refl ((not_first fresh a y [] new).0),
    (pos, at, refl, tt),
  )
  Chain-snoc h g fresh a x y ((b, z) ∷ cs) c pos new at linked same =
      let later = not_first fresh a y ((b, z) ∷ cs) new in
      let inner : a ≢ end b cs =
        λ e. has-ne a (end b cs) ((b, z) ∷ cs) c.2 (has_end b z cs) (sym e) in
      (
        c.0,
        same a (has_first a y ((b, z) ∷ cs)) inner ∙ c.1,
        has-snoc a fresh x ((b, z) ∷ cs) c.2 later.0,
        Chain-snoc h g fresh b x z cs c.3 pos later.1 at linked
            (λ p k ne. same p (has_later p a y ((b, z) ∷ cs) k) ne),
      )
