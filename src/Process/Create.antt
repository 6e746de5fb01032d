-- ===== src/Process/Create.antt =====
-- `Process::new` of src/process/process.rs: the pid, the kernel stack and the memory of a process.
pub mod Stack
use ark_rust_kernel.Prelude.{
  ℕ, ◌+◌, List, [], ◌∷◌, Option, none, some, Outcome, done, unwrap, ◌>>=◌, get_elem?, add_usize,
  mul_usize,
}
use ark_rust_kernel.Memory.Address.{page_size, addr_of_page}
use ark_rust_kernel.Memory.Frames.{FrameAllocator, Machine, phy_page_alloc_many}
use ark_rust_kernel.Memory.Entry.{VendorId}
use ark_rust_kernel.Memory.Paging.{to_satp}
use ark_rust_kernel.Process.Status.{ProcessStatus, ready}
use ark_rust_kernel.Process.Pid
use ark_rust_kernel.Process.Pid.{RecycleAllocator}
use ark_rust_kernel.Process.Memory
use ark_rust_kernel.Process.Memory.{World}

abbrev pub process_kernel_stack_size : ℕ
process_kernel_stack_size = 512

-- The files that every process begins with.
pub data ConsoleFile : Type 0 where
  stdin stdout : ConsoleFile

-- A new process. `sp` is the stack pointer of its task context and the `kernel_sp` of its trap
-- context, which stands in the first page of the kernel stack.
pub record NewProcess (S : Type 0) : Type 0 where
  pub pid : ℕ
  pub status : ProcessStatus
  pub exit_code : ℕ
  pub parent : Option ℕ
  pub children : List ℕ
  pub kernel_stack : List ℕ
  pub sp : ℕ
  pub satp : ℕ
  pub world : World S
  pub files : List (Option ConsoleFile)

module _ (fa : FrameAllocator) where
  open fa use {State}

  -- The kernel stack, and `kernel_sp`
  unfoldable pub kernel_stack_of : Machine State → Outcome (List ℕ × ℕ × Machine State)
  kernel_stack_of m = do
    (pages, m') ← phy_page_alloc_many fa m process_kernel_stack_size
    last ← unwrap (get_elem? pages 511)
    done (pages, add_usize (addr_of_page last) (mul_usize page_size process_kernel_stack_size), m')

  unfoldable pub new :
      VendorId → RecycleAllocator → Machine State → Outcome (NewProcess State × RecycleAllocator)
  new vendor pids m =
      let (pid, pids') = Pid.alloc pids in
      do
        (stack, kernel_sp, m') ← kernel_stack_of m
        w ← Memory.new fa vendor m'
        done (
          record {
            pid = pid;
            status = ready;
            exit_code = 0;
            parent = none;
            children = [];
            kernel_stack = stack;
            sp = kernel_sp;
            satp = to_satp w.memory.page_table;
            world = w;
            files = some stdin ∷ some stdout ∷ some stdout ∷ [];
          },
          pids',
        )
