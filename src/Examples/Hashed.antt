-- ===== src/Examples/Hashed.antt =====
-- The theorems on the hash table and the supplemental page table at a table that holds the
-- element 5.
use gpintosy.Prelude.{ℕ, ◌≡◌, refl, Bool, true, arith, ltb, ◌==◌, if◌then◌else◌, [], ◌∷◌}
use mathlib.Core.Path.{subst}
use gpintosy.Prelude.{◌*◌, ◌≢◌, Bool-cases, inl, inr}
use gpintosy.KernelList.Count.{count}
use gpintosy.Vaddr.{pg_ofs}
use gpintosy.Vm.Spt.{spt_hash, spt_less, spt_insert}
use gpintosy.Vm.Spt.Map.{IsSpt, listed, IsInserted, spt_insert-IsInserted}
use gpintosy.Hash.{bucket_idx}
use gpintosy.Kernel.{Succeeds}
use gpintosy.Kernel.{Ptr}
use gpintosy.Hash.{Table, hash_insert, hash_delete}
use gpintosy.Hash.Find.{IsTable, IsCompatible}
use gpintosy.Hash.Methods.{IsDone, inserted, deleted, hash_insert-IsDone, hash_delete-IsDone}

abbrev hash : Ptr → ℕ
hash p = if p == 5 then 1 else 2

abbrev room : ℕ → Bool
room n = true

abbrev table : Table
table = record { elem_cnt = 1; bucket_cnt = 4; buckets = λ i. if i == 1 then 5 ∷ [] else [] }

compatible : IsCompatible hash ltb room
compatible p q e = let h : p ≡ q = ground arith in rw h refl

table-IsTable : IsTable hash ltb room table
table-IsTable = record {
  some_buckets = ground arith;
  home = λ i p n. ground arith;
  once = λ p. ground arith;
  distinct = λ p q k l e. ground arith;
}

hash_insert-IsDone_example :
    IsDone hash ltb room table 9
      (inserted hash ltb room table 9)
      (hash_insert hash ltb room table 9)
hash_insert-IsDone_example = hash_insert-IsDone hash ltb room compatible table table-IsTable 9 refl

hash_delete-IsDone_example :
    IsDone hash ltb room table 5 (deleted hash ltb room table) (hash_delete hash ltb room table 5)
hash_delete-IsDone_example = hash_delete-IsDone hash ltb room compatible table table-IsTable 5

-- The page of each entry.
abbrev pages : Ptr → Ptr
pages p = p * 4096

-- The bucket of the entry 5.
bucket_of_5 : ℕ
bucket_of_5 = bucket_idx (spt_hash pages) (spt_less pages) room 4 5

abbrev spt : Table
spt = record {
  elem_cnt = 1;
  bucket_cnt = 4;
  buckets = λ i. if i == bucket_of_5 then 5 ∷ [] else [];
}

in_bucket :
    (i p : ℕ)
    → i ≢ bucket_idx (spt_hash pages) (spt_less pages) room 4 p
    → count p (spt.buckets i) ≡ 0
unfolding bucket_of_5
in_bucket i p n = elim (Bool-cases (p == 5)) [
  | inr e ↦ ground arith
  | inl e ↦
      let q : p ≡ 5 = ground arith in
      let m : i ≢ bucket_of_5 =
        subst (λ x. i ≢ bucket_idx (spt_hash pages) (spt_less pages) room 4 x) q n in
      ground arith
]

spt-IsSpt : IsSpt room pages spt
unfolding spt_less
spt-IsSpt = record {
  some_buckets = ground arith;
  home = in_bucket;
  once = λ p. ground arith;
  distinct = λ p q k l e. ground arith;
}

not_listed : listed room pages spt 9 ≡ 0
not_listed = ground arith

page_start : pg_ofs (pages 9) ≡ 0
unfolding pg_ofs
page_start = refl

spt_insert-IsInserted_example : Succeeds (IsInserted room pages spt 9) (spt_insert room pages spt 9)
spt_insert-IsInserted_example =
    spt_insert-IsInserted room pages spt spt-IsSpt 9 not_listed (ground arith) (ground arith)
      page_start
