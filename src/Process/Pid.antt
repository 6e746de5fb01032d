-- ===== src/Process/Pid.antt =====
-- `RecycleAllocator` of src/process/pid.rs. The head of `free_ids` is the end of the `Vec`, where
-- `push` and `pop` work.
pub mod Fresh
use ark_rust_kernel.Prelude.{
  ℕ, ◌+◌, List, [], ◌∷◌, Bool, true, false, ◌&&◌, leb, ◌==◌, not, contains, add_usize, Outcome,
  done, panic, assert, ◌>>=◌, ◌>>◌,
}

-- The source calls the field `free`, as it does the function.
pub record RecycleAllocator : Type 0 where
  pub max_id : ℕ
  pub free_ids : List ℕ

abbrev pub new : RecycleAllocator
new = record { max_id = 0; free_ids = [] }

-- The id that is handed out, and the allocator after that.
unfoldable pub alloc : RecycleAllocator → ℕ × RecycleAllocator
alloc r = elim r.free_ids [
  | id ∷ rest ↦ (id, record r { free_ids = rest })
  | [] ↦ (add_usize r.max_id 1, record r { max_id = add_usize r.max_id 1 })
]

unfoldable pub free : RecycleAllocator → ℕ → Outcome RecycleAllocator
free r id = do
  assert (leb id r.max_id)
  assert (not (contains r.free_ids id))
  done (record r { free_ids = id ∷ r.free_ids })
