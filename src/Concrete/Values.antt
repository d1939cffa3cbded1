-- ===== src/Concrete/Values.antt =====
-- The addresses in the table of threads: each is the one of a single thread.
use thread_scheduler_multipl.Base.{
  ℕ, zero, suc, ◌≡◌, ◌≢◌, refl, sym, ap, ◌∙◌, true, false, ◌||◌, Option, none, some, List, [], ◌∷◌,
  ◌==◌, get_elem?, set, replicate, arith, Bool-cases, inl, inr,
}
use thread_scheduler_multipl.HashTable.{
  Entry, HashTable, stored, get_value_hashtable, put_hashtable,
}
use thread_scheduler_multipl.HashTable.Hashing.{hash_function_ulong}
use thread_scheduler_multipl.HashTable.Lookup.{HasChains}
use thread_scheduler_multipl.HashTable.Reads.{some-chain}
use thread_scheduler_multipl.Machine.Room.{has_id, IsUnique}
use thread_scheduler_multipl.Concrete.State.{compare_pthreads_attr}
use thread_scheduler_multipl.Concrete.Chains.{put-lists}

-- The values of a chain before those of `rest`
abbrev pub values_then : List (Entry ℕ ℕ) → List ℕ → List ℕ
values_then [] rest = rest
values_then (x ∷ xs) rest = x.value ∷ values_then xs rest

abbrev pub values : List (List (Entry ℕ ℕ)) → List ℕ
values [] = []
values (xs ∷ ls) = values_then xs (values ls)

has-then :
    (t a : ℕ) (xs : List (Entry ℕ ℕ)) (rest rest' : List ℕ)
    → has_id t rest' ≡ ((a == t) || has_id t rest)
    → has_id t (values_then xs rest') ≡ ((a == t) || has_id t (values_then xs rest))
has-then t a [] rest rest' e = e
has-then t a (x ∷ xs) rest rest' e = ground (arith, has-then t a xs rest rest' e)

IsUnique-then :
    (a : ℕ) (xs : List (Entry ℕ ℕ)) (rest rest' : List ℕ)
    → ((t : ℕ) → has_id t rest' ≡ ((a == t) || has_id t rest))
    → (IsUnique rest → IsUnique rest')
    → has_id a (values_then xs rest) ≡ false
    → IsUnique (values_then xs rest)
    → IsUnique (values_then xs rest')
IsUnique-then a [] rest rest' e f new u = f u
IsUnique-then a (x ∷ xs) rest rest' e f new u = (
  has-then x.value a xs rest rest' (e x.value) ∙ ground (arith, new, u.0),
  IsUnique-then a xs rest rest' e f (ground (arith, new)) u.1,
)

later-new :
    (a : ℕ) (xs : List (Entry ℕ ℕ)) (rest : List ℕ)
    → has_id a (values_then xs rest) ≡ false
    → has_id a rest ≡ false
later-new a [] rest h = h
later-new a (x ∷ xs) rest h = later-new a xs rest (ground (arith, h))

later-IsUnique :
    (xs : List (Entry ℕ ℕ)) (rest : List ℕ) → IsUnique (values_then xs rest) → IsUnique rest
later-IsUnique [] rest u = u
later-IsUnique (x ∷ xs) rest u = later-IsUnique xs rest u.1

-- The values after one more entry in a chain
values-has :
    (k a : ℕ) (ls : List (List (Entry ℕ ℕ))) (i : ℕ) (xs : List (Entry ℕ ℕ))
    → get_elem? ls i ≡ some xs
    → (t : ℕ)
    → has_id t (values (set ls i (record { key = k; value = a } ∷ xs)))
      ≡ ((a == t) || has_id t (values ls))
values-has k a [] i xs e t = absurd (cc)
values-has k a (ys ∷ ls) zero xs e t =
    let same : ys ≡ xs =
      ap (λ (o : Option (List (Entry ℕ ℕ))). elim o [ none ↦ ys | some zs ↦ zs ]) e in
    rw (sym same) refl
values-has k a (ys ∷ ls) (suc i) xs e t = has-then t a ys (values ls) _ (values-has k a ls i xs e t)

values-IsUnique :
    (k a : ℕ) (ls : List (List (Entry ℕ ℕ))) (i : ℕ) (xs : List (Entry ℕ ℕ))
    → get_elem? ls i ≡ some xs
    → has_id a (values ls) ≡ false
    → IsUnique (values ls)
    → IsUnique (values (set ls i (record { key = k; value = a } ∷ xs)))
values-IsUnique k a [] i xs e new u = absurd (cc)
values-IsUnique k a (ys ∷ ls) zero xs e new u =
    let same : ys ≡ xs =
      ap (λ (o : Option (List (Entry ℕ ℕ))). elim o [ none ↦ ys | some zs ↦ zs ]) e in
    rw (sym same) (new, u)
values-IsUnique k a (ys ∷ ls) (suc i) xs e new u =
    IsUnique-then a ys (values ls) (values (set ls i (record { key = k; value = a } ∷ xs)))
      (values-has k a ls i xs e)
      (λ v. values-IsUnique k a ls i xs e (later-new a ys (values ls) new) v) new u

-- Each value is the address of a thread, and no value stands in the table twice.
pub record IsTidy (ht : HashTable ℕ ℕ) : Type 0 where
  pub unique : IsUnique (values ht.lists)
  pub owned :
      (a : ℕ)
      → has_id a (values ht.lists) ≡ true
      → (t : ℕ) × (get_value_hashtable hash_function_ulong compare_pthreads_attr t ht ≡ some a)

not-has : (a : ℕ) (vs : List ℕ) → (has_id a vs ≡ true → ⊥) → has_id a vs ≡ false
not-has a vs h = elim (Bool-cases (has_id a vs)) [ inl t ↦ absurd (h t) | inr f ↦ f ]

pub put-IsTidy :
    (ht ht' : HashTable ℕ ℕ) (k a : ℕ)
    → HasChains ht
    → get_value_hashtable hash_function_ulong compare_pthreads_attr k ht ≡ none
    → put_hashtable hash_function_ulong compare_pthreads_attr k a ht ≡ stored ht'
    → get_value_hashtable hash_function_ulong compare_pthreads_attr k ht' ≡ some a
    → ((j : ℕ)
        → j ≢ k
        → get_value_hashtable hash_function_ulong compare_pthreads_attr j ht'
          ≡ get_value_hashtable hash_function_ulong compare_pthreads_attr j ht)
    → ((j b : ℕ)
        → get_value_hashtable hash_function_ulong compare_pthreads_attr j ht ≡ some b
        → a ≢ b)
    → IsTidy ht
    → IsTidy ht'
put-IsTidy ht ht' k a chains absent put self others nobody tidy =
    let (xs, e) = some-chain hash_function_ulong compare_pthreads_attr ht k chains in
    let lists = put-lists ht ht' k a xs absent e put in
    let new : has_id a (values ht.lists) ≡ false =
      not-has a (values ht.lists) (λ t. let (j, f) = tidy.owned a t in nobody j a f refl) in
    record {
      unique = rw lists (values-IsUnique k a ht.lists _ xs e new tidy.unique);
      owned = λ b h.
          let g = sym (values-has k a ht.lists _ xs e b) ∙ (rw lists at h) in
          elim (Bool-cases (a == b)) [
            | inl same ↦ let q : a ≡ b = ground arith in (k, rw (sym q) self)
            | inr other ↦
                let (j, f) = tidy.owned b (ground (arith, g, other)) in
                (
                  j,
                  others j (λ q. let f' = rw q at f in let z = sym absent ∙ f' in absurd (cc)) ∙ f,
                )
          ];
    }

values-replicate : (n : ℕ) → values (replicate n []) ≡ []
values-replicate zero = refl
values-replicate (suc n) = values-replicate n

pub replicate-IsTidy : (ht : HashTable ℕ ℕ) (n : ℕ) → ht.lists ≡ replicate n [] → IsTidy ht
replicate-IsTidy ht n e = record {
  unique = rw (e, values-replicate n) tt;
  owned = λ a h. absurd (let g = rw (e, values-replicate n) at h in cc);
}
