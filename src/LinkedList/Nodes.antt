-- ===== src/LinkedList/Nodes.antt =====
-- Nodes at addresses: the memory that Linux/linkedlist.c works on.
use thread_scheduler_multipl.Base.{
  ℕ, ◌<◌, ◌≡◌, refl, false, ◌⊎◌, inl, inr, arith, Option, none, some, ◌==◌, Bool-cases,
  if◌then◌else◌,
}

-- `Node`; `data` points to a copy that the list owns, and is read as what it points to.
pub record Node (A : Type 0) : Type 0 where
  pub content : A
  pub next : ℕ

abbrev pub node : {A : Type 0} → A → ℕ → Node A
node x next = record { content = x; next = next }

-- Address 0 is NULL.
abbrev pub Memory : Type 0 → Type 0
Memory A = ℕ → Option (Node A)

-- `none` is a fault, or a loop that has run out of fuel.
abbrev pub Access : Type 0 → Type 0 → Type 0
Access A B = Memory A → Option (B × Memory A)

pub result-cases : {B : Type 0} (r : Option B) → (r ≡ none) ⊎ ((b : B) × r ≡ some b)
result-cases none = inl refl
result-cases (some b) = inr (b, refl)

module _ {A : Type 0} where
  abbrev pub write : Memory A → ℕ → Option (Node A) → Memory A
  write h p c q = if p == q then c else h q

  abbrev pub done : {B : Type 0} → B → Access A B
  done b h = some (b, h)

  infixl 5 ◌>>=◌ ◌>>◌
  abbrev pub ◌>>=◌ : {B C : Type 0} → Access A B → (B → Access A C) → Access A C
  ◌>>=◌ m f h = elim (m h) [ none ↦ none | some (b, h') ↦ f b h' ]

  abbrev pub ◌>>◌ : {C : Type 0} → Access A (Unit {0}) → Access A C → Access A C
  m >> k = m >>= λ _. k

  unfoldable pub load : ℕ → Access A (Node A)
  load p h = if p == 0 then none else elim (h p) [ none ↦ none | some n ↦ some (n, h) ]

  -- `malloc` of a node at an address that is free, and the write of its fields.
  abbrev pub store : ℕ → Node A → Access A (Unit {0})
  store p n h = some (tt, write h p (some n))

  -- `p->next = q`
  unfoldable pub set_next : ℕ → ℕ → Access A (Unit {0})
  set_next p q = do n ← load p; store p (node n.content q)

  unfoldable pub free : ℕ → Access A (Unit {0})
  free p = load p >>= λ _ h. some (tt, write h p none)

  pub load-ok : (h : Memory A) (p : ℕ) (n : Node A) → 0 < p → h p ≡ some n → load p h ≡ some (n, h)
  unfolding load
  load-ok h p n pos e = let f : (p == 0) ≡ false = ground arith in rw (f, e)

  pub set_next-ok :
      (h : Memory A) (p q r : ℕ) (x : A)
      → 0 < p
      → h p ≡ some (node x r)
      → set_next p q h ≡ some (tt, write h p (some (node x q)))
  unfolding set_next
  set_next-ok h p q r x pos e = ground (arith, load-ok h p (node x r) pos e)

  pub free-ok :
      (h : Memory A) (p : ℕ) (n : Node A)
      → 0 < p
      → h p ≡ some n
      → free p h ≡ some (tt, write h p none)
  unfolding free
  free-ok h p n pos e = ground (arith, load-ok h p n pos e)

  pub bind-ok :
      {B C : Type 0} (m : Access A B) (f : B → Access A C) (h g : Memory A) (b : B)
      → m h ≡ some (b, g)
      → (m >>= f) h ≡ f b g
  bind-ok m f h g b e = ground (arith, e)

  pub load-cases :
      (h : Memory A) (p : ℕ)
      → (load p h ≡ none) ⊎ ((n : Node A) × ((p == 0) ≡ false) × (load p h ≡ some (n, h)))
  unfolding load
  load-cases h p = elim (Bool-cases (p == 0)) [
    | inl null ↦ inl (rw null refl)
    | inr valid ↦ elim (result-cases (h p)) [
      | inl e ↦ inl (rw (valid, e) refl)
      | inr (n, e) ↦ inr (n, valid, rw (valid, e) refl)
    ]
  ]

  -- A read that succeeds has found its node in use.
  pub load-at : (h : Memory A) (p : ℕ) (n : Node A) → load p h ≡ some (n, h) → h p ≡ some n
  unfolding load
  load-at h p n e = elim (Bool-cases (p == 0)) [
    | inl null ↦ absurd (let f = rw null at e in ground (arith, f))
    | inr valid ↦ elim (result-cases (h p)) [
      | inl f ↦ absurd (let g = rw (valid, f) at e in ground (arith, g))
      | inr (m, f) ↦ let g = rw (valid, f) at e in ground (arith, f, g)
    ]
  ]
