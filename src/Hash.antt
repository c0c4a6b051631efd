-- ===== src/Hash.antt =====
-- src/lib/kernel/hash.c: the chained hash table, of elements that are pointers.
--
-- `hash` and `less` are the callbacks that the caller passes, for the elements as they are, and
-- `room` says for how many buckets `malloc` finds memory. An element is in one table at most.
pub mod Words
pub mod Find
pub mod Move
pub mod Methods
use Prim.Native.Nat.{bit_and, bit_xor}
use gpintosy.Prelude.{
  ℕ, zero, suc, ◌+◌, ◌-◌, ◌*◌, ◌/◌, ◌%◌, ◌^◌, Bool, true, false, not, ◌&&◌, Option, none, some,
  List, [], ◌∷◌, ltb, ◌==◌, keep, if◌then◌else◌,
}
use gpintosy.Kernel.{Ptr, update}

pub record Table : Type 0 where
  pub elem_cnt : ℕ
  pub bucket_cnt : ℕ
  pub buckets : ℕ → List Ptr

-- `hash_bytes`: the Fowler-Noll-Vo hash, over the bytes from the first on.
unfoldable pub hash_from : ℕ → List ℕ → ℕ
hash_from hash [] = hash
hash_from hash (b ∷ l) = hash_from (bit_xor (hash * 16777619 % 2 ^ 32) b) l

unfoldable pub hash_bytes : List ℕ → ℕ
hash_bytes l = hash_from 2166136261 l

-- The bytes of a 32-bit word, lowest first.
abbrev pub bytes_of_word : ℕ → List ℕ
bytes_of_word w = w % 256 ∷ w / 256 % 256 ∷ w / 65536 % 256 ∷ w / 16777216 % 256 ∷ []

unfoldable pub hash_int : ℕ → ℕ
hash_int i = hash_bytes (bytes_of_word i)

unfoldable pub turn_off_least_1bit : ℕ → ℕ
turn_off_least_1bit x = bit_and x (x - 1)

unfoldable pub is_power_of_2 : ℕ → Bool
is_power_of_2 x = not (x == 0) && (turn_off_least_1bit x == 0)

-- The `while` of `rehash`; each round takes a bit off, so the number is enough fuel.
unfoldable pub round_to_power : ℕ → ℕ → ℕ
round_to_power zero x = x
round_to_power (suc n) x =
    let rest = round_to_power n (turn_off_least_1bit x) in if is_power_of_2 x then x else rest

unfoldable pub best_bucket_cnt : ℕ → ℕ
best_bucket_cnt elem_cnt =
    let cnt = elem_cnt / 2 in let cnt = if ltb cnt 4 then 4 else cnt in round_to_power cnt cnt

module _ (hash : Ptr → ℕ) (less : Ptr → Ptr → Bool) (room : ℕ → Bool) where
  abbrev pub bucket_idx : ℕ → Ptr → ℕ
  bucket_idx bucket_cnt e = bit_and (hash e) (bucket_cnt - 1)

  unfoldable pub find_bucket : Table → Ptr → List Ptr
  find_bucket h e = h.buckets (bucket_idx h.bucket_cnt e)

  unfoldable pub find_elem : List Ptr → Ptr → Option Ptr
  find_elem [] e = none
  find_elem (hi ∷ l) e = if not (less hi e) && not (less e hi) then some hi else find_elem l e

  unfoldable pub insert_elem : Table → Ptr → Table
  insert_elem h e =
      let i = bucket_idx h.bucket_cnt e in
      record h { elem_cnt = h.elem_cnt + 1; buckets = update h.buckets i (e ∷ h.buckets i) }

  -- The element leaves the bucket that it is in.
  unfoldable pub remove_elem : Table → Ptr → Table
  remove_elem h e = record h {
    elem_cnt = h.elem_cnt - 1;
    buckets = λ i. keep (λ x. not (x == e)) (h.buckets i);
  }

  -- The inner loop of `rehash`: the elements of an old bucket go to the front of their new ones.
  unfoldable pub move_bucket : ℕ → List Ptr → (ℕ → List Ptr) → ℕ → List Ptr
  move_bucket cnt [] new = new
  move_bucket cnt (e ∷ l) new =
      let i = bucket_idx cnt e in move_bucket cnt l (update new i (e ∷ new i))

  -- The outer loop, with the old buckets that are left and the next one.
  unfoldable pub move_buckets : ℕ → ℕ → ℕ → (ℕ → List Ptr) → (ℕ → List Ptr) → ℕ → List Ptr
  move_buckets cnt zero i old new = new
  move_buckets cnt (suc n) i old new = move_buckets cnt n (suc i) old (move_bucket cnt (old i) new)

  unfoldable pub rehash : Table → Table
  rehash h =
      let cnt = best_bucket_cnt h.elem_cnt in
      if cnt == h.bucket_cnt then h else if not (room cnt) then h else record h {
        bucket_cnt = cnt;
        buckets = move_buckets cnt h.bucket_cnt 0 h.buckets (λ i. []);
      }

  -- `none` is false: no memory.
  unfoldable pub hash_init : Option Table
  hash_init =
      if room 4 then some (record { elem_cnt = 0; bucket_cnt = 4; buckets = λ i. [] }) else none

  unfoldable pub hash_find : Table → Ptr → Option Ptr
  hash_find h e = find_elem (find_bucket h e) e

  unfoldable pub hash_insert : Table → Ptr → Option Ptr × Table
  hash_insert h new = elim (hash_find h new) [
    | none ↦ (none, rehash (insert_elem h new))
    | some old ↦ (some old, rehash h)
  ]

  unfoldable pub hash_replace : Table → Ptr → Option Ptr × Table
  hash_replace h new = elim (hash_find h new) [
    | none ↦ (none, rehash (insert_elem h new))
    | some old ↦ (some old, rehash (insert_elem (remove_elem h old) new))
  ]

  unfoldable pub hash_delete : Table → Ptr → Option Ptr × Table
  hash_delete h e = elim (hash_find h e) [
    | none ↦ (none, h)
    | some found ↦ (some found, rehash (remove_elem h found))
  ]
