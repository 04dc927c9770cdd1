-- ===== src/Process/Stack.antt =====
-- `start`: the first stack of a process.
use advanced_operating_syste.Base.{
  ℕ, ◌-◌, ◌*◌, ◌/◌, ◌%◌, ◌^◌, ◌≤◌, ◌<◌, ◌≡◌, refl, ◌∙◌, none, some, List, arith, length, get_elem?,
  set, replicate, length-set, get_elem?-set, length-replicate, ltb, lt→ltb, false,
}
use advanced_operating_syste.Process.Calls.{Program, Allocations, store, initial_stack, stack_block}

store-some :
    (words : List ℕ) (i at v : ℕ)
    → i * 4 % 2 ^ 32 / 4 ≡ at
    → at < length words
    → store words i v ≡ some (set words at v)
unfolding store
store-some words i at v e h = rw (e, lt→ltb at (length words) h) refl

le→not_ltb : (a b : ℕ) → b ≤ a → ltb a b ≡ false
le→not_ltb a b h = ground arith

store-none :
    (words : List ℕ) (i at v : ℕ)
    → i * 4 % 2 ^ 32 / 4 ≡ at
    → length words ≤ at
    → store words i v ≡ none
unfolding store
store-none words i at v e h = rw (e, le→not_ltb at (length words) h) refl

-- A size counts modulo 2^30 only. Where 3 words or more are left of it, the block is that short,
-- and its three last words are the entry point, the return address `hdl_ret` and the argument.
-- Where 1 or 2 are left of 5 or more, the first write is outside the block.
pub initial_stack_wraps :
    (prog : Program) (ssize : ℕ)
    → 5 ≤ ssize
    → ssize < 2 ^ 32
    → let n = ssize % 2 ^ 30 in
      (3 ≤ n
        → (words : List ℕ) × (initial_stack prog ssize ≡ some words)
          × (length words ≡ n)
          × (get_elem? words (n - 3) ≡ some prog.code)
          × (get_elem? words (n - 2) ≡ some prog.hdl_ret)
          × (get_elem? words (n - 1) ≡ some prog.arg))
      × (n < 3 → initial_stack prog ssize ≡ none)
unfolding initial_stack
initial_stack_wraps prog ssize low fits =
    let n = ssize % 2 ^ 30 in
    let size : ssize * 4 % 2 ^ 32 / 4 ≡ n = omega arith in
    let w0 : List ℕ = replicate n 0 in
    let w1 = set w0 (n - 3) prog.code in
    let w2 = set w1 (n - 2) prog.hdl_ret in
    let w3 = set w2 (n - 1) prog.arg in
    let l0 : length w0 ≡ n = length-replicate n 0 in
    let l1 : length w1 ≡ n = length-set w0 (n - 3) prog.code ∙ l0 in
    let l2 : length w2 ≡ n = length-set w1 (n - 2) prog.hdl_ret ∙ l1 in
    let l3 : length w3 ≡ n = length-set w2 (n - 1) prog.arg ∙ l2 in
    (
      λ enough. (
        w3,
        rw
            (
              size,
              store-some w0 (ssize - 3) (n - 3) prog.code (omega arith) (omega (arith, l0)),
              store-some w1 (ssize - 2) (n - 2) prog.hdl_ret (omega arith) (omega (arith, l1)),
            )
            (store-some w2 (ssize - 1) (n - 1) prog.arg (omega arith) (omega (arith, l2))),
        l3,
        ground (
          arith,
          get_elem?-set w2 (n - 1) (n - 3) prog.arg,
          get_elem?-set w1 (n - 2) (n - 3) prog.hdl_ret,
          get_elem?-set w0 (n - 3) (n - 3) prog.code,
        ),
        ground (
          arith,
          get_elem?-set w2 (n - 1) (n - 2) prog.arg,
          get_elem?-set w1 (n - 2) (n - 2) prog.hdl_ret,
        ),
        ground (arith, get_elem?-set w2 (n - 1) (n - 1) prog.arg),
      ),
      λ few.
          rw
            (
              size,
              store-none w0 (ssize - 3) ((ssize - 3) % 2 ^ 30) prog.code (omega arith)
                  (omega (arith, l0)),
            )
            refl,
    )

-- The stack of a new process, for every size from 5 words on that fits the address space.
pub initial_stack_frame :
    (prog : Program) (ssize : ℕ)
    → 5 ≤ ssize
    → ssize < 2 ^ 30
    → (words : List ℕ) × (initial_stack prog ssize ≡ some words)
initial_stack_frame prog ssize h fits =
    let (words, built, _, _, _, _) =
      (initial_stack_wraps prog ssize h (omega arith)).0 (omega arith) in
    (words, built)

-- The block for the stack, where the allocator has one and where it has none.
pub stack_block-some :
    (mem : Allocations) (size base : ℕ)
    → 0 < size
    → size < 2 ^ 30
    → mem.stack_at ≡ some base
    → stack_block size mem ≡ some base
unfolding stack_block
stack_block-some mem size base low high e = ground (arith, e)

pub stack_block-none :
    (mem : Allocations) (size : ℕ) → mem.stack_at ≡ none → stack_block size mem ≡ none
unfolding stack_block
stack_block-none mem size e = ground (arith, e)
