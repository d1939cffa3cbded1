-- ===== src/HashTable/Session.antt =====
-- Windows/hashtable.c: a table from its creation to its release.
use thread_scheduler_multipl.Base.{
  ◌∙◌, sym, false≢true, ℕ, suc, ◌<◌, ◌^◌, ◌≡◌, refl, Bool, inl, inr, Option, none, some, List, [],
  Bool-cases, length, replicate, length-replicate,
}
use thread_scheduler_multipl.LinkedList.Nodes.{Memory}
use thread_scheduler_multipl.LinkedList.Pointers.{ListHandle}
use thread_scheduler_multipl.LinkedList.Chain.{Cells}
use thread_scheduler_multipl.HashTable.{Entry}
use thread_scheduler_multipl.HashTable.Nodes.{
  NodeTable, stored, empty_list, initialize_table, chain_of, put_table, remove_entry, lists_loop,
  free_table,
}
use thread_scheduler_multipl.HashTable.Release.{in_any, Releases, lists_loop-Releases}
use thread_scheduler_multipl.HashTable.Owned.{in_any-empty, Owned, Leads-empty}
use thread_scheduler_multipl.HashTable.Steps.{put-Owned, remove-Owned}

module _ {K V : Type 0} (hash_function : K → ℕ) (compare_function : Entry K V → K → ℕ) where
  -- The tables and memories that additions and removals lead to from a new table in the memory `h₀`.
  pub data Used (capacity : ℕ) (deep : Bool) (h₀ : Memory (Entry K V))
      : NodeTable → Memory (Entry K V) → Type 0 where
    created : Used capacity deep h₀ (initialize_table capacity deep) h₀
    put :
        (fresh : ℕ) (key : K) (value : V) {nt after : NodeTable} {h g : Memory (Entry K V)}
        → Used capacity deep h₀ nt h
        → 0 < fresh
        → h fresh ≡ none
        → ((l : ListHandle)
            → chain_of hash_function compare_function key nt h ≡ some (l, h)
            → suc l.size < 2 ^ 32)
        → put_table hash_function compare_function fresh key value nt h ≡ some (stored after, g)
        → Used capacity deep h₀ after g
    remove :
        (key : K) {nt after : NodeTable} {h g : Memory (Entry K V)}
        → Used capacity deep h₀ nt h
        → remove_entry hash_function compare_function key nt h ≡ some (after, g)
        → Used capacity deep h₀ after g

  pub Used-Owned :
      {capacity : ℕ} {deep : Bool} {h₀ : Memory (Entry K V)} {nt : NodeTable}
      {h : Memory (Entry K V)}
      → Used capacity deep h₀ nt h
      → (css : List (Cells (Entry K V))) × Owned h₀ nt h css
  unfolding initialize_table
  Used-Owned {capacity = n} {h₀ = h₀} created = (
    replicate n [],
    record {
      leads = Leads-empty h₀ n;
      capacity = sym (length-replicate n empty_list);
      fresh = λ p t. absurd (false≢true (sym (in_any-empty (Entry K V) p n) ∙ t));
      same = λ p f. refl;
    },
  )
  Used-Owned {h₀ = h₀}
        (put fresh key value {nt = nt} {after = after} {h = h} {g = g} u pos free short e) =
      let (css, o) = Used-Owned u in
      put-Owned hash_function compare_function h₀ h g nt after fresh key value css o pos free short
        e
  Used-Owned {h₀ = h₀} (remove key {nt = nt} {after = after} {h = h} {g = g} u e) =
      let (css, o) = Used-Owned u in
      remove-Owned hash_function compare_function h₀ h g nt after key css o e

  released-memory :
      (h₀ h : Memory (Entry K V)) (nt : NodeTable) (css : List (Cells (Entry K V)))
      (r : Option (Unit {0} × Memory (Entry K V)))
      → Owned h₀ nt h css
      → Releases h css r
      → (g : Memory (Entry K V)) × (r ≡ some (tt, g)) × ((p : ℕ) → g p ≡ h₀ p)
  released-memory h₀ h nt css none o f = absurd f
  released-memory h₀ h nt css (some (u, g)) o f = (
    g,
    refl,
    λ p. elim (Bool-cases (in_any p css)) [
      | inl t ↦ f.gone p t ∙ sym (o.fresh p t)
      | inr t ↦ f.same p t ∙ o.same p t
    ],
  )

  -- After any sequence of additions and removals from a new table, in which each addition gets a
  -- free address and leaves its chain shorter than 2^32, `free_table` ends without a fault, so no
  -- node is released twice, and every address holds what it held before the table was created.
  pub free_table-restores :
      {capacity : ℕ} {deep : Bool} {h₀ : Memory (Entry K V)} {nt : NodeTable}
      {h : Memory (Entry K V)}
      → Used capacity deep h₀ nt h
      → (g : Memory (Entry K V)) × (free_table nt h ≡ some (tt, g)) × ((p : ℕ) → g p ≡ h₀ p)
  unfolding free_table
  free_table-restores {h₀ = h₀} {nt = nt} {h = h} u =
      let (css, o) = Used-Owned u in
      rw o.capacity (
        released-memory h₀ h nt css (lists_loop (length nt.lists) 0 nt.lists h) o
          (lists_loop-Releases h nt.lists css o.leads))
