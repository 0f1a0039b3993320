-- ===== src/Interrupts/Clock.antt =====
-- The clock of kernel/arch/x86/pit.c under the routing of kernel/arch/x86/irq.c: interrupts one after the other.
use thunity_os.Base.{
  ℕ, ◌+◌, ◌/◌, ◌^◌, ◌<◌, ◌≡◌, ◌≢◌, refl, sym, ap, ◌∙◌, Option, none, some, List, [], ◌∷◌, length,
  get_or, get_or-set_self, get_or-set_ne, u8, u32, sub32, ltb, leb, ◌==◌, ==→eq, if◌then◌else◌,
  Bool-cases, inl, inr, false, arith,
}
use thunity_os.Interrupts.{
  Registers, Machine, Handler, call, pic_send_eoi, irq_register_handler, irq_handler, pit_callback,
  pit_init, pit_ticks, pit_seconds,
}

-- All interrupts of a list, the first one first.
unfoldable pub interrupts {ℓ} :
    {D : Type ℓ} → List (Option (Handler D)) → List Registers → Machine D → Machine D
interrupts hs [] m = m
interrupts hs (r ∷ rs) m = interrupts hs rs (irq_handler hs r m)

-- How many are those of the timer, vector 32.
abbrev pub timers : List Registers → ℕ
timers [] = 0
timers (r ∷ rs) = (if r.int_no == 32 then 1 else 0) + timers rs

-- The interrupts come through the vectors 0 to 255.
abbrev pub Vectored : List Registers → Type 0
Vectored [] = Unit {0}
Vectored (r ∷ rs) = (r.int_no < 256) × Vectored rs

module _ {ℓ} {D : Type ℓ} where
  -- The handler leaves the clock alone.
  abbrev pub KeepsPit : Option (Handler D) → Type ℓ
  KeepsPit o = (r : Registers) (m : Machine D) → (call o r m).pit ≡ m.pit

  abbrev pub IsClock : List (Option (Handler D)) → Type ℓ
  IsClock hs =
      (get_or hs 0 none ≡ some pit_callback) × ((i : ℕ) → i ≢ 0 → KeepsPit (get_or hs i none))

  pit-pic_send_eoi : (irq : ℕ) (m : Machine D) → (pic_send_eoi irq m).pit ≡ m.pit
  unfolding pic_send_eoi
  pit-pic_send_eoi irq m = elim (Bool-cases (leb 8 irq)) [ inl e ↦ rw e refl | inr e ↦ rw e refl ]

  pit-other :
      (hs : List (Option (Handler D))) (irq : ℕ) (r : Registers) (m : Machine D)
      → IsClock hs
      → irq ≢ 0
      → (if ltb irq 16 then call (get_or hs irq none) r m else m).pit ≡ m.pit
  pit-other hs irq r m (clock, keep) ne = elim (Bool-cases (ltb irq 16)) [
    | inl e ↦ rw e (keep irq ne r m)
    | inr e ↦ rw e refl
  ]

  pit-irq_handler :
      (hs : List (Option (Handler D))) (r : Registers) (m : Machine D)
      → IsClock hs
      → r.int_no < 256
      → (irq_handler hs r m).pit
        ≡ (if r.int_no == 32 then record m.pit { ticks = u32 (m.pit.ticks + 1) } else m.pit)
  unfolding irq_handler pit_callback
  pit-irq_handler hs r m ok lt =
      pit-pic_send_eoi (u8 (sub32 r.int_no 32)) _ ∙ elim (Bool-cases (r.int_no == 32)) [
        | inl e ↦
            let zero_irq : u8 (sub32 r.int_no 32) ≡ 0 = omega (arith, ==→eq r.int_no 32 e) in
            rw (e, zero_irq, ok.0) refl
        | inr e ↦ rw e (pit-other hs (u8 (sub32 r.int_no 32)) r m ok (ground arith))
      ]

  pit-interrupts :
      (hs : List (Option (Handler D))) (rs : List Registers) (m : Machine D)
      → IsClock hs
      → Vectored rs
      → m.pit.ticks < 2 ^ 32
      → ((interrupts hs rs m).pit.freq_hz ≡ m.pit.freq_hz)
        × ((interrupts hs rs m).pit.ticks ≡ u32 (m.pit.ticks + timers rs))
  unfolding interrupts
  pit-interrupts hs [] m ok vs lt = (refl, omega arith)
  pit-interrupts hs (r ∷ rs) m ok (v, vs) lt =
      let one = pit-irq_handler hs r m ok v in
      let t = ap (λ p. p.ticks) one in
      let f = ap (λ p. p.freq_hz) one in
      let (ih_f, ih_t) = pit-interrupts hs rs (irq_handler hs r m) ok vs (ground (arith, t)) in
      (ground (arith, ih_f, f), ground (arith, ih_t, t))

  pit-pit_init :
      (hz : ℕ) (hs : List (Option (Handler D))) (m : Machine D)
      → (pit_init hz hs m).1.pit ≡ record { ticks = 0; freq_hz = if hz == 0 then 100 else hz }
  unfolding pit_init
  pit-pit_init hz hs m = refl

  IsClock-pit_init :
      (hz : ℕ) (hs : List (Option (Handler D))) (m : Machine D)
      → length hs ≡ 16
      → ((i : ℕ) → i ≢ 0 → KeepsPit (get_or hs i none))
      → IsClock (pit_init hz hs m).0
  unfolding pit_init irq_register_handler
  IsClock-pit_init hz hs m len keep = (
    get_or-set_self hs 0 (some pit_callback) none (omega (arith, len)),
    λ i ne r m.
        ap (λ o. (call o r m).pit) (get_or-set_ne hs 0 i (some pit_callback) none (λ e. ne (sym e)))
        ∙ keep i ne r m,
  )

  -- After `pit_init`, where no other handler touches the clock, any sequence of interrupts makes as many
  -- ticks as there were timer interrupts among them, on 32 bits, and `pit_seconds` is that number divided
  -- by the frequency given, 100 for 0.
  pub pit_ticks-interrupts :
      (hz : ℕ) (hs : List (Option (Handler D))) (m : Machine D) (rs : List Registers)
      → length hs ≡ 16
      → ((i : ℕ) → i ≢ 0 → KeepsPit (get_or hs i none))
      → Vectored rs
      → (pit_ticks (interrupts (pit_init hz hs m).0 rs (pit_init hz hs m).1) ≡ u32 (timers rs))
        × (pit_seconds (interrupts (pit_init hz hs m).0 rs (pit_init hz hs m).1)
            ≡ u32 (timers rs) / (if hz == 0 then 100 else hz))
  unfolding pit_ticks pit_seconds
  pit_ticks-interrupts hz hs m rs len keep vs =
      let start = pit-pit_init hz hs m in
      let (f, t) =
        pit-interrupts (pit_init hz hs m).0 rs (pit_init hz hs m).1
          (IsClock-pit_init hz hs m len keep) vs (omega (arith, ap (λ p. p.ticks) start)) in
      let f' : (interrupts (pit_init hz hs m).0 rs (pit_init hz hs m).1).pit.freq_hz
          ≡ (if hz == 0 then 100 else hz) =
        f ∙ ap (λ p. p.freq_hz) start in
      let t' : (interrupts (pit_init hz hs m).0 rs (pit_init hz hs m).1).pit.ticks
          ≡ u32 (timers rs) =
        t ∙ omega (arith, ap (λ p. p.ticks) start) in
      let some_hz : ((if hz == 0 then 100 else hz) == 0) ≡ false = ground arith in
      (t', rw (f', t', some_hz) refl)
