-- ===== src/Hash/Methods.antt =====
-- The methods of a table, as operations on the set of elements that it holds.
use gpintosy.Prelude.{ℕ, ◌+◌, ◌≡◌, refl, Bool, Option, none, some, ◌==◌, if◌then◌else◌, ◌∙◌}
use gpintosy.Kernel.{Ptr}
use gpintosy.Hash.{Table, hash_find, hash_insert, hash_delete, insert_elem, remove_elem}
use gpintosy.Hash.Find.{held, IsTable, IsCompatible, IsFound, hash_find-IsFound}
use gpintosy.Hash.Move.{
  rehash-IsSameTable, insert_elem-held, insert_elem-IsTable, remove_elem-held, remove_elem-IsTable,
}

module _ (hash : Ptr → ℕ) (less : Ptr → Ptr → Bool) (room : ℕ → Bool) where
  -- The elements of a table after `hash_insert`.
  abbrev pub inserted : Table → Ptr → Option Ptr → Ptr → ℕ
  inserted h new none p = (if p == new then 1 else 0) + held hash less room h p
  inserted h new (some old) p = held hash less room h p

  -- The elements of a table after `hash_delete`.
  abbrev pub deleted : Table → Option Ptr → Ptr → ℕ
  deleted h none p = held hash less room h p
  deleted h (some found) p = if p == found then 0 else held hash less room h p

  -- A method's answer is that of a search, and its table holds exactly these elements.
  pub record IsDone (h : Table) (e : Ptr) (after : Option Ptr → Ptr → ℕ) (r : Option Ptr × Table)
      : Type 0 where
    pub table : IsTable hash less room r.1
    pub answer : IsFound hash less room h e r.0
    pub holds : (p : Ptr) → held hash less room r.1 p ≡ after r.0 p

  module _ (compatible : IsCompatible hash less room) (h : Table) (t : IsTable hash less room h)
      (e : Ptr) where
    insert_rest :
        (r : Option Ptr)
        → IsFound hash less room h e r
        → held hash less room h e ≡ 0
        → hash_find hash less room h e ≡ r
        → IsDone h e (inserted h e) (hash_insert hash less room h e)
    unfolding hash_insert
    insert_rest none f n q =
        let t' = insert_elem-IsTable hash less room h t e f n in
        let s = rehash-IsSameTable hash less room (insert_elem hash less room h e) t' in
        rw (q, hash_insert)
          (record {
            table = s.table;
            answer = f;
            holds = λ p. s.same_held p ∙ insert_elem-held hash less room h t e p;
          })
    insert_rest (some old) f n q =
        let s = rehash-IsSameTable hash less room h t in
        rw (q, hash_insert) (record { table = s.table; answer = f; holds = s.same_held })

    delete_rest :
        (r : Option Ptr)
        → IsFound hash less room h e r
        → hash_find hash less room h e ≡ r
        → IsDone h e (deleted h) (hash_delete hash less room h e)
    unfolding hash_delete
    delete_rest none f q = rw (q, hash_delete) (record { table = t; answer = f; holds = λ p. refl })
    delete_rest (some old) f q =
        let t' = remove_elem-IsTable hash less room h t old in
        let s = rehash-IsSameTable hash less room (remove_elem hash less room h old) t' in
        rw (q, hash_delete)
          (record {
            table = s.table;
            answer = f;
            holds = λ p. s.same_held p ∙ remove_elem-held hash less room h t old p;
          })

    -- `hash_insert` of an element that is not in the table answers as `hash_find` does, and then
    -- the table holds the elements that it held, and the new one too if no equal one was held.
    pub hash_insert-IsDone :
        held hash less room h e ≡ 0 → IsDone h e (inserted h e) (hash_insert hash less room h e)
    hash_insert-IsDone n = insert_rest _ (hash_find-IsFound hash less room compatible h t e) n refl

    -- `hash_delete` answers as `hash_find` does, and then the table holds the elements that it
    -- held but for the one found.
    pub hash_delete-IsDone : IsDone h e (deleted h) (hash_delete hash less room h e)
    hash_delete-IsDone = delete_rest _ (hash_find-IsFound hash less room compatible h t e) refl
