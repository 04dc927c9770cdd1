-- ===== src/GdbSupport.antt =====
-- kernel/gdb_serial_support.c: the memory of the interrupted program, through its page tables. The
-- memory is its bytes by physical address.
pub mod Lookup
pub mod Bytes
pub mod Identity
pub mod Copy
mod Tests
use Prim.Native.Nat.{min, bit_and, bit_or}
use advanced_operating_syste.Base.{
  ℕ, zero, suc, ◌+◌, ◌-◌, ◌*◌, ◌/◌, ◌%◌, ◌^◌, Bool, ◌&&◌, not, Option, none, some, ◌==◌, leb, ltb,
  if◌then◌else◌, ◌>>=◌,
}
use advanced_operating_syste.Base.Int.{ℤ, pos, negsuc}
use advanced_operating_syste.Debugger.{GdbState}

abbrev pub Memory : Type 0
Memory = ℕ → ℕ

-- A word of 32 bits, the lowest byte first.
abbrev pub word : Memory → ℕ → ℕ
word m a = m a + 2 ^ 8 * m (a + 1) + 2 ^ 16 * m (a + 2) + 2 ^ 24 * m (a + 3)

-- `client_cr0` and `client_cr3`, which `copy_client_paging_registers` sets.
pub record Client : Type 0 where
  pub client_cr0 : ℕ
  pub client_cr3 : ℕ

unfoldable pub copy_client_paging_registers : ℕ → ℕ → ℕ → Client
copy_client_paging_registers cr0 cr3 cr4 = record { client_cr0 = cr0; client_cr3 = cr3 }

abbrev pub lin2pdenum : ℕ → ℕ
lin2pdenum a = a / 2 ^ 22 % 2 ^ 10

abbrev pub lin2ptenum : ℕ → ℕ
lin2ptenum a = a / 2 ^ 12 % 2 ^ 10

-- `pde_to_pa` and `pte_to_pa`, and `trunc_superpage`.
abbrev pub frame : ℕ → ℕ
frame entry = entry / 2 ^ 12 * 2 ^ 12

abbrev pub trunc_superpage : ℕ → ℕ
trunc_superpage entry = entry / 2 ^ 22 * 2 ^ 22

-- INTEL_PDE_VALID, INTEL_PTE_VALID, INTEL_PDE_SUPERPAGE, and the bit of cr0 that turns paging on.
abbrev pub is_valid : ℕ → Bool
is_valid entry = entry % 2 == 1

abbrev pub is_superpage : ℕ → Bool
is_superpage entry = entry / 2 ^ 7 % 2 == 1

abbrev pub is_paging : ℕ → Bool
is_paging cr0 = cr0 / 2 ^ 31 % 2 == 1

-- The branch of a page table, and that of a page of 4 MB.
unfoldable pub lookup_page : Memory → ℕ → ℕ → Option (ℕ × ℕ)
lookup_page m pde vaddr =
    let pte = word m (frame pde + 4 * lin2ptenum vaddr) in
    let offs = vaddr % 2 ^ 12 in
    if is_valid pte then some (frame pte + offs, 2 ^ 12 - offs) else none

unfoldable pub lookup_superpage : ℕ → ℕ → Option (ℕ × ℕ)
lookup_superpage pde vaddr =
    let offs = vaddr % 2 ^ 22 in some (trunc_superpage pde + offs, 2 ^ 22 - offs)

unfoldable pub lookup_entry : Memory → ℕ → ℕ → Option (ℕ × ℕ)
lookup_entry m pde vaddr =
    if not (is_valid pde)
    then none
    else if not (is_superpage pde)
    then lookup_page m pde vaddr
    else lookup_superpage pde vaddr

-- `phys_addr_lookup`: the physical address and the length of the rest of the page; `none` for a
-- length of 0, with which the code leaves the address unset.
unfoldable pub phys_addr_lookup : Client → Memory → ℕ → Option (ℕ × ℕ)
phys_addr_lookup c m vaddr =
    let pde = word m (frame c.client_cr3 + 4 * lin2pdenum vaddr) in
    if not (is_paging c.client_cr0) then some (vaddr, 2 ^ 32 - 1) else lookup_entry m pde vaddr

-- `memcpy` between places that do not overlap.
unfoldable pub memcpy : ℕ → ℕ → ℕ → Memory → Memory
memcpy dest src n m a = if leb dest a && ltb a (dest + n) then m (src + (a - dest)) else m a

-- `gdb_copyin` reads the client's memory, `gdb_copyout` writes it.
pub data Direction : Type 0 where
  copyin copyout : Direction

-- The arguments of their `memcpy`, for the client's address `pa` and the buffer's.
abbrev pub target : Direction → ℕ → ℕ → ℕ
target copyin pa buf = buf
target copyout pa buf = pa

abbrev pub source : Direction → ℕ → ℕ → ℕ
source copyin pa buf = pa
source copyout pa buf = buf

-- What follows a lookup.
abbrev pub mapped {ℓ} : {B : Type ℓ} → Option (ℕ × ℕ) → B → (ℕ → ℕ → B) → B
mapped none unmapped k = unmapped
mapped (some (pa, len)) unmapped k = k pa len

-- The loop of the two functions, which is the same but for the arguments of `memcpy`. `none`: out
-- of fuel.
unfoldable pub copy_pages : ℕ → Direction → Client → ℕ → ℕ → ℕ → Memory → Option (ℤ × Memory)
copy_pages zero dir c va buf size m = none
copy_pages (suc fuel) dir c va buf size m =
    if size == 0
    then some (pos 0, m)
    else mapped (phys_addr_lookup c m va) (some (negsuc 0, m)) (λ pa len.
      let sz = min len size in
      copy_pages fuel dir c ((va + sz) % 2 ^ 32) ((buf + sz) % 2 ^ 32) (size - sz)
        (memcpy (target dir pa buf) (source dir pa buf) sz m))

-- The processor's own cr0, and the memory.
abbrev pub Machine : Type 0
Machine = ℕ × Memory

-- Clears bit 31, and gives the old value.
abbrev pub disable_paging : Machine → ℕ × Machine
disable_paging (cr0, m) = (cr0, (cr0 % 2 ^ 31, m))

abbrev pub restore_paging : ℕ → Machine → Machine
restore_paging cr0 (now, m) = (cr0, m)

-- The whole function: the answer is its result, and the machine afterwards.
unfoldable pub gdb_copy : Direction → Client → ℕ → ℕ → ℕ → Machine → Option (ℤ × Machine)
gdb_copy dir c va buf size s =
    let (cr0, (now, m)) = disable_paging s in
    copy_pages (suc size) dir c va buf size m >>= λ (result, m).
    some (result, restore_paging cr0 (now, m))

unfoldable pub gdb_copyin : Client → ℕ → ℕ → ℕ → Machine → Option (ℤ × Machine)
gdb_copyin c src_va dest_buf size s = gdb_copy copyin c src_va dest_buf size s

unfoldable pub gdb_copyout : Client → ℕ → ℕ → ℕ → Machine → Option (ℤ × Machine)
gdb_copyout c src_buf dest_va size s = gdb_copy copyout c dest_va src_buf size s

abbrev pub efl_tf : ℕ
efl_tf = 256

-- The trace flag; a bit that is cleared is subtracted when it is set.
unfoldable pub gdb_set_trace_flag : Bool → GdbState → GdbState
gdb_set_trace_flag trace_enable state =
    if trace_enable
    then record state { eflags = bit_or state.eflags efl_tf }
    else record state { eflags = state.eflags - bit_and state.eflags efl_tf }
