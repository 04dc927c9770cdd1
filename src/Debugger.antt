-- ===== src/Debugger.antt =====
-- kernel/debugger.c: the registers that the debugger may change, and the dump of a task segment on
-- the screen. The screen is its bytes by address.
pub mod Registers
pub mod Hex
pub mod Dump
mod Tests
use advanced_operating_syste.Base.{
  ℕ, zero, suc, ◌+◌, ◌-◌, ◌*◌, ◌/◌, ◌%◌, Bool, Option, none, some, List, [], ◌∷◌, ◌==◌, ltb,
  if◌then◌else◌,
}

pub data Signal : Type 0 where
  sigfpe sigtrap sigsegv sigill : Signal

-- The `switch` on the number of the exception.
unfoldable pub signo : ℕ → Signal
signo trapno =
    if trapno == 0
    then sigfpe
    else if trapno == 1
    then sigtrap
    else if trapno == 3
    then sigtrap
    else if trapno == 4
    then sigfpe
    else if trapno == 5
    then sigfpe
    else if trapno == 7
    then sigfpe
    else if trapno == 8
    then sigfpe
    else if trapno == 9
    then sigfpe
    else if trapno == 10
    then sigsegv
    else if trapno == 11
    then sigsegv
    else if trapno == 12
    then sigsegv
    else if trapno == 13
    then sigsegv
    else if trapno == 14
    then sigsegv
    else if trapno == 15
    then sigfpe
    else sigill

-- `struct gdb_state`: the registers that the debugger on the other side sees.
pub record GdbState : Type 0 where
  pub eax : ℕ
  pub ecx : ℕ
  pub edx : ℕ
  pub ebx : ℕ
  pub esp : ℕ
  pub ebp : ℕ
  pub esi : ℕ
  pub edi : ℕ
  pub eip : ℕ
  pub eflags : ℕ
  pub cs : ℕ
  pub ss : ℕ
  pub ds : ℕ
  pub es : ℕ
  pub fs : ℕ
  pub gs : ℕ

-- The rest of a task segment.
pub record TaskLinks : Type 0 where
  pub back_link : ℕ
  pub esp0 : ℕ
  pub ss0 : ℕ
  pub esp1 : ℕ
  pub ss1 : ℕ
  pub esp2 : ℕ
  pub ss2 : ℕ
  pub cr3 : ℕ
  pub ldt : ℕ
  pub trace_trap : ℕ

pub record Task : Type 0 where
  pub registers : GdbState
  pub links : TaskLinks

pub data GdbAction : Type 0 where
  gdb_cont gdb_detach gdb_kill gdb_run gdb_more : GdbAction

-- The function `debugger`. `converse` is `gdb_serial_converse`, from the signal and the registers;
-- the answer is `do_debug` and the task, or `none` after a reboot.
unfoldable pub debugger :
    (Signal → GdbState → GdbAction × GdbState) → ℕ → Bool × Task → Option (Bool × Task)
debugger converse trapno (do_debug, t) =
    let (action, state) = converse (signo trapno) t.registers in
    let t = record t { registers = state } in
    elim action [
      | gdb_cont ↦ some (do_debug, t)
      | gdb_detach ↦ some (Bool.false, t)
      | gdb_kill ↦ none
      | gdb_run ↦ some (do_debug, t)
      | gdb_more ↦ some (do_debug, t)
    ]

abbrev pub screen_base : ℕ
screen_base = 753664

-- `disp`: the characters of the hexadecimal digits.
unfoldable pub disp : ℕ → ℕ
disp d = if ltb d 10 then 48 + d else 65 + (d - 10)

-- The loop of `write_hex`, for `length` more digits, with `p` one cell behind the next one.
unfoldable pub write_digits : ℕ → ℕ → ℕ → (ℕ → ℕ) → ℕ → ℕ
write_digits zero p value m = m
write_digits (suc length) p value m =
    let p = p - 2 in
    write_digits length p (value / 16) (λ a. if a == p then disp (value % 16) else m a)

unfoldable pub write_hex : ℕ → ℕ → ℕ → ℕ → (ℕ → ℕ) → ℕ → ℕ
write_hex line col length value m =
    write_digits length (screen_base + ((line - 1) * 160 + (col + length - 1) * 2)) value m

-- A number on the screen: its line, its column, its digits and its value.
abbrev pub Field : Type 0
Field = ℕ × ℕ × ℕ × ℕ

-- The calls of `write_hex` in `dump_registers`, in their order; `at` is the address of the task.
unfoldable pub fields : ℕ → ℕ → ℕ → Task → List Field
fields trapno error_code at t =
    let r = t.registers in
    let k = t.links in
    (7, 21, 2, trapno)
    ∷ (7, 60, 8, error_code)
    ∷ (9, 21, 8, at)
    ∷ (9, 69, 4, k.back_link)
    ∷ (11, 11, 8, r.esp)
    ∷ (11, 32, 4, r.ss)
    ∷ (11, 52, 8, k.esp0)
    ∷ (11, 74, 4, k.ss0)
    ∷ (13, 11, 8, k.esp1)
    ∷ (13, 32, 4, k.ss1)
    ∷ (13, 52, 8, k.esp2)
    ∷ (13, 74, 4, k.ss2)
    ∷ (15, 15, 8, r.eip)
    ∷ (15, 41, 4, r.cs)
    ∷ (15, 66, 8, r.eflags)
    ∷ (17, 10, 8, r.eax)
    ∷ (17, 30, 8, r.ebx)
    ∷ (17, 50, 8, r.ecx)
    ∷ (17, 70, 8, r.edx)
    ∷ (19, 10, 8, r.esi)
    ∷ (19, 30, 8, r.edi)
    ∷ (19, 50, 8, r.ebp)
    ∷ (19, 72, 4, k.ldt)
    ∷ (21, 12, 4, r.ds)
    ∷ (21, 32, 4, r.es)
    ∷ (21, 52, 4, r.fs)
    ∷ (21, 72, 4, r.gs)
    ∷ (23, 30, 8, k.cr3)
    ∷ (23, 70, 1, k.trace_trap % 2)
    ∷ []

unfoldable pub write_fields : List Field → (ℕ → ℕ) → ℕ → ℕ
write_fields [] m = m
write_fields ((line, col, length, value) ∷ rest) m =
    write_fields rest (write_hex line col length value m)
