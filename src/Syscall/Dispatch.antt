-- ===== src/Syscall/Dispatch.antt =====
-- The dispatch of kernel/arch/x86/syscall_core.c after a registration.
use thunity_os.Base.{
  ℕ, ◌<◌, ◌≡◌, refl, sym, ◌∙◌, inl, inr, true, false, ◌&&◌, Option, none, some, List, length,
  get_or, set, length-set, get_or-set, ltb, leb, ◌==◌, if◌then◌else◌, Bool-cases, arith,
}
use thunity_os.Syscall.{SyscallFn, sys_enosys, syscall_register, syscall_call}

module _ {ℓ} {S : Type ℓ} (a b c : ℕ) (s : S) where
  -- What a table's cell does when it is called.
  abbrev run : Option (SyscallFn S) → ℕ × S
  run none = (sys_enosys, s)
  run (some fn) = fn a b c s

  call-eq :
      (tbl : List (Option (SyscallFn S))) (num : ℕ)
      → syscall_call tbl num a b c s
        ≡ (if leb (length tbl) num then (sys_enosys, s) else run (get_or tbl num none))
  unfolding syscall_call
  call-eq tbl num = elim (Bool-cases (leb (length tbl) num)) [
    | inl out ↦ rw (out, syscall_call) refl
    | inr inside ↦ rw (inside, syscall_call) (cell (get_or tbl num none))
  ]
    where
      cell :
          (f : Option (SyscallFn S))
          → (elim f [ none ↦ (sys_enosys, s) | some fn ↦ fn a b c s ]) ≡ run f
      cell none = refl
      cell (some fn) = refl

  -- After a registration the number calls the function, where the table has that number, and every
  -- other number, or every number where it has not, does what it did before.
  pub syscall_call-register :
      (tbl : List (Option (SyscallFn S))) (num : ℕ) (fn : SyscallFn S) (other : ℕ)
      → syscall_call (syscall_register tbl num fn).1 other a b c s ≡ (
          if ltb num (length tbl) && num == other
          then fn a b c s
          else syscall_call tbl other a b c s)
  unfolding syscall_register
  syscall_call-register tbl num fn other = elim (Bool-cases (leb (length tbl) num)) [
    | inl out ↦ let no : ltb num (length tbl) ≡ false = ground arith in rw (out, no) refl
    | inr inside ↦
        let yes_in : ltb num (length tbl) ≡ true = ground arith in
        let lt : num < length tbl = ground arith in
        rw (inside, yes_in)
          (call-eq (set tbl num (some fn)) other ∙ elim (Bool-cases (num == other)) [
            | inl same ↦
                let n = length-set tbl num (some fn) in
                let valid : leb (length (set tbl num (some fn))) other ≡ false =
                  ground (arith, n) in
                let new : get_or (set tbl num (some fn)) other none ≡ some fn =
                  get_or-set tbl num other (some fn) none lt ∙ rw same refl in
                rw (same, valid, new) refl
            | inr diff ↦
                let n = length-set tbl num (some fn) in
                let old : get_or (set tbl num (some fn)) other none ≡ get_or tbl other none =
                  get_or-set tbl num other (some fn) none lt ∙ rw diff refl in
                rw (diff, n, old) (sym (call-eq tbl other))
          ])
  ]
