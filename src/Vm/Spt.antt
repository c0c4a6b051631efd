-- ===== src/Vm/Spt.antt =====
-- src/vm/spt.c: the supplemental page table of a process, a hash table of entries.
--
-- `pages` is the page of the entry at each address, and `probe` the address of the entry on the
-- stack that a search is for. `room` says for how many buckets there is memory.
pub mod Map
use gpintosy.Prelude.{ℕ, ◌≡◌, Bool, true, false, not, Option, none, some, ltb, ◌==◌}
use gpintosy.Kernel.{Ptr, null, Result, ok, ◌>>◌, ◌>>=◌, assert, update}
use gpintosy.Vaddr.{pg_ofs, pg_round_down}
use gpintosy.Hash.{Table, hash_bytes, bytes_of_word, hash_init, hash_insert, hash_find, hash_delete}

unfoldable pub spt_hash : (Ptr → Ptr) → Ptr → ℕ
spt_hash pages e = hash_bytes (bytes_of_word (pages e))

unfoldable pub spt_less : (Ptr → Ptr) → Ptr → Ptr → Bool
spt_less pages a b = ltb (pages a) (pages b)

abbrev pub is_none : Option Ptr → Bool
is_none none = true
is_none (some p) = false

module _ (room : ℕ → Bool) (pages : Ptr → Ptr) where
  unfoldable pub spt_init : Option Table
  spt_init = hash_init (spt_hash pages) (spt_less pages) room

  unfoldable pub spt_insert : Table → Ptr → Result (Bool × Table)
  spt_insert spt spte = do
    assert (not (spte == null))
    assert (not (pages spte == null))
    assert (pg_ofs (pages spte) == 0)
    let r = hash_insert (spt_hash pages) (spt_less pages) room spt spte
    ok (is_none r.0, r.1)

  -- The entry on the stack has the page of the address.
  abbrev pub with_probe : Ptr → Ptr → Ptr → Ptr
  with_probe probe upage = update pages probe (pg_round_down upage)

  unfoldable pub spt_find : Ptr → Table → Ptr → Option Ptr
  spt_find probe spt upage =
      hash_find (spt_hash (with_probe probe upage)) (spt_less (with_probe probe upage)) room spt
        probe

  unfoldable pub spt_delete : Ptr → Table → Ptr → Option Ptr × Table
  spt_delete probe spt upage =
      hash_delete (spt_hash (with_probe probe upage)) (spt_less (with_probe probe upage)) room spt
        probe
