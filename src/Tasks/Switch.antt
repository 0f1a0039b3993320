-- ===== src/Tasks/Switch.antt =====
-- Switches of contexts between the stacks that kernel/sched/task.c makes.
use thunity_os.Base.{
  ℕ, ◌+◌, ◌-◌, ◌*◌, ◌/◌, ◌^◌, ◌≤◌, ◌<◌, ◌≡◌, ◌≢◌, ◌⊎◌, inl, inr, refl, sym, ap, ◌∙◌, u32, arith,
}
use thunity_os.Tasks.{Cpu, task_init, thuos_context_switch}

-- The five words from an address on are not written by a switch away from `esp` that saves at `save`.
abbrev pub Clear : ℕ → ℕ → ℕ → Type 0
Clear frame esp save =
    ((frame + 20 ≤ esp - 16) ⊎ (esp ≤ frame)) × ((frame + 20 ≤ save) ⊎ (save < frame))

-- A word that the switch does not write is as before.
switch_keeps :
    (save new_esp : ℕ) (c : Cpu) (m : ℕ → ℕ) (a : ℕ)
    → 16 ≤ c.esp
    → c.esp < 2 ^ 32
    → (a < c.esp - 16 ⊎ c.esp ≤ a)
    → a ≢ save
    → (thuos_context_switch save new_esp c m).1 a ≡ m a
unfolding thuos_context_switch
switch_keeps save new_esp c m a deep low (inl below) ne = ground arith
switch_keeps save new_esp c m a deep low (inr above) ne = ground arith

-- The registers on the stack after the switch.
switch_saves :
    (save new_esp : ℕ) (c : Cpu) (m : ℕ → ℕ)
    → 16 ≤ c.esp
    → c.esp < 2 ^ 32
    → (save < c.esp - 16 ⊎ c.esp ≤ save)
    → ((thuos_context_switch save new_esp c m).1 (c.esp - 16) ≡ c.ebp)
      × ((thuos_context_switch save new_esp c m).1 (c.esp - 12) ≡ c.edi)
      × ((thuos_context_switch save new_esp c m).1 (c.esp - 8) ≡ c.esi)
      × ((thuos_context_switch save new_esp c m).1 (c.esp - 4) ≡ c.ebx)
      × ((thuos_context_switch save new_esp c m).1 save ≡ c.esp - 16)
unfolding thuos_context_switch
switch_saves save new_esp c m deep low (inl below) =
    (ground arith, ground arith, ground arith, ground arith, ground arith)
switch_saves save new_esp c m deep low (inr above) =
    (ground arith, ground arith, ground arith, ground arith, ground arith)

-- The words of a new task's stack.
task_init_words :
    (stack size entry : ℕ) (m : ℕ → ℕ)
    → stack + size < 2 ^ 32
    → 36 ≤ size
    → entry < 2 ^ 32
    → let top = (stack + size) / 16 * 16 in
      let m' = (task_init stack size entry m).1 in
      (m' (top - 20) ≡ 0)
      × (m' (top - 16) ≡ 0)
      × (m' (top - 12) ≡ 0)
      × (m' (top - 8) ≡ 0)
      × (m' (top - 4) ≡ entry)
unfolding task_init
task_init_words stack size entry m fits room lt =
    (ground arith, ground arith, ground arith, ground arith, ground arith)

-- The five words at the new stack pointer are what runs next.
switch_resumes :
    (save frame : ℕ) (c : Cpu) (m : ℕ → ℕ) (ebx esi edi ebp eip : ℕ)
    → frame + 20 < 2 ^ 32
    → let m' = (thuos_context_switch save frame c m).1 in
      m' frame ≡ ebp
      → m' (frame + 4) ≡ edi
      → m' (frame + 8) ≡ esi
      → m' (frame + 12) ≡ ebx
      → m' (frame + 16) ≡ eip
      → (thuos_context_switch save frame c m).0
        ≡ record { ebx = ebx; esi = esi; edi = edi; ebp = ebp; esp = frame + 20; eip = eip }
unfolding thuos_context_switch
switch_resumes save frame c m ebx esi edi ebp eip low e0 e4 e8 e12 e16 =
    let u4 : u32 (frame + 4) ≡ frame + 4 = omega arith in
    let u8 : u32 (frame + 8) ≡ frame + 8 = omega arith in
    let u12 : u32 (frame + 12) ≡ frame + 12 = omega arith in
    let u16 : u32 (frame + 16) ≡ frame + 16 = omega arith in
    let u20 : u32 (frame + 20) ≡ frame + 20 = omega arith in
    rw (u4, u8, u12, u16, u20, e0, e4, e8, e12, e16) refl

frame_kept :
    (save new_esp : ℕ) (c : Cpu) (m : ℕ → ℕ) (frame i : ℕ)
    → 16 ≤ c.esp
    → c.esp < 2 ^ 32
    → Clear frame c.esp save
    → i < 20
    → (thuos_context_switch save new_esp c m).1 (frame + i) ≡ m (frame + i)
frame_kept save new_esp c m frame i deep low (apart, saved) lt =
    switch_keeps save new_esp c m (frame + i) deep low
      (elim apart [ inl e ↦ inl (omega (arith, e)) | inr e ↦ inr (omega (arith, e)) ])
      (λ z. elim saved [ inl e ↦ omega (arith, e, z) | inr e ↦ omega (arith, e, z) ])

task_init_esp :
    (stack size entry : ℕ) (m : ℕ → ℕ)
    → stack + size < 2 ^ 32
    → 36 ≤ size
    → (task_init stack size entry m).0.esp ≡ (stack + size) / 16 * 16 - 20
unfolding task_init
task_init_esp stack size entry m fits room = omega arith

-- The first switch to a new task, from a stack that is apart from its frame, begins at its entry on an empty
-- stack whose top is aligned to 16 bytes, with the saved registers 0.
pub thuos_context_switch-task_init :
    (stack size entry save : ℕ) (c : Cpu) (m : ℕ → ℕ)
    → stack + size < 2 ^ 32
    → 36 ≤ size
    → entry < 2 ^ 32
    → 16 ≤ c.esp
    → c.esp < 2 ^ 32
    → Clear ((stack + size) / 16 * 16 - 20) c.esp save
    → (thuos_context_switch save
        (task_init stack size entry m).0.esp
        c
        (task_init stack size entry m).1).0
      ≡ record { ebx = 0; esi = 0; edi = 0; ebp = 0; esp = (stack + size) / 16 * 16; eip = entry }
thuos_context_switch-task_init stack size entry save c m fits room lt deep low clear =
    let top = (stack + size) / 16 * 16 in
    let m' = (task_init stack size entry m).1 in
    let frame = top - 20 in
    let at = task_init_esp stack size entry m fits room in
    let (w0, w4, w8, w12, w16) = task_init_words stack size entry m fits room lt in
    let keep = frame_kept save frame c m' frame in
    let here : frame + 0 ≡ frame = omega arith in
    let i4 : frame + 4 ≡ top - 16 = omega arith in
    let i8 : frame + 8 ≡ top - 12 = omega arith in
    let i12 : frame + 12 ≡ top - 8 = omega arith in
    let i16 : frame + 16 ≡ top - 4 = omega arith in
    let end : frame + 20 ≡ top = omega arith in
    ap (λ (e : ℕ). (thuos_context_switch save e c m').0) at
    ∙ switch_resumes save frame c m' 0 0 0 0 entry (omega arith)
        (ap (thuos_context_switch save frame c m').1 (sym here)
          ∙ keep 0 deep low clear (omega arith)
          ∙ ap m' here
          ∙ w0)
        (keep 4 deep low clear (omega arith) ∙ ap m' i4 ∙ w4)
        (keep 8 deep low clear (omega arith) ∙ ap m' i8 ∙ w8)
        (keep 12 deep low clear (omega arith) ∙ ap m' i12 ∙ w12)
        (keep 16 deep low clear (omega arith) ∙ ap m' i16 ∙ w16)
    ∙ ap (λ (e : ℕ). record { ebx = 0; esi = 0; edi = 0; ebp = 0; esp = e; eip = entry }) end

-- A context that was switched away from, and whose five words on its stack nobody has changed, is resumed by a
-- switch to the stack pointer that was saved: after the call, with its registers.
pub thuos_context_switch_back :
    (save other new_esp : ℕ) (c d : Cpu) (m n : ℕ → ℕ)
    → 16 ≤ c.esp
    → c.esp + 4 < 2 ^ 32
    → (save < c.esp - 16 ⊎ c.esp < save)
    → ((i : ℕ)
        → i < 20
        → n (c.esp - 16 + i) ≡ (thuos_context_switch save new_esp c m).1 (c.esp - 16 + i))
    → 16 ≤ d.esp
    → d.esp < 2 ^ 32
    → Clear (c.esp - 16) d.esp other
    → (thuos_context_switch other ((thuos_context_switch save new_esp c m).1 save) d n).0
      ≡ record c { esp = c.esp + 4; eip = m c.esp }
thuos_context_switch_back save other new_esp c d m n deep high apart same deep' low' clear =
    let frame = c.esp - 16 in
    let m' = (thuos_context_switch save new_esp c m).1 in
    let aside : save < c.esp - 16 ⊎ c.esp ≤ save = elim apart [
      | inl e ↦ inl e
      | inr e ↦ inr (omega (arith, e))
    ] in
    let (w0, w4, w8, w12, at) = switch_saves save new_esp c m deep (omega arith) aside in
    let w16 : m' c.esp ≡ m c.esp =
      switch_keeps save new_esp c m c.esp deep (omega arith) (inr (omega arith))
        (λ z. elim apart [ inl e ↦ omega (arith, e, z) | inr e ↦ omega (arith, e, z) ]) in
    let keep : (i : ℕ)
        → i < 20
        → (thuos_context_switch other frame d n).1 (frame + i) ≡ m' (frame + i) =
      λ i lt. frame_kept other frame d n frame i deep' low' clear lt ∙ same i lt in
    let here : frame + 0 ≡ frame = omega arith in
    let i4 : frame + 4 ≡ c.esp - 12 = omega arith in
    let i8 : frame + 8 ≡ c.esp - 8 = omega arith in
    let i12 : frame + 12 ≡ c.esp - 4 = omega arith in
    let i16 : frame + 16 ≡ c.esp = omega arith in
    let end : frame + 20 ≡ c.esp + 4 = omega arith in
    ap (λ (e : ℕ). (thuos_context_switch other e d n).0) at
    ∙ switch_resumes other frame d n c.ebx c.esi c.edi c.ebp (m c.esp) (omega (arith, end))
        (ap (thuos_context_switch other frame d n).1 (sym here)
          ∙ keep 0 (omega arith)
          ∙ ap m' here
          ∙ w0)
        (keep 4 (omega arith) ∙ ap m' i4 ∙ w4) (keep 8 (omega arith) ∙ ap m' i8 ∙ w8)
        (keep 12 (omega arith) ∙ ap m' i12 ∙ w12) (keep 16 (omega arith) ∙ ap m' i16 ∙ w16)
    ∙ ap (λ (e : ℕ). record c { esp = e; eip = m c.esp }) end
