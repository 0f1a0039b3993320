-- ===== src/Kprintf/Log.antt =====
-- The log of kernel/core/kprintf.c: what `klog_dump` shows of all that was written.
use thunity_os.Base.{
  ℕ, zero, suc, ◌+◌, ◌-◌, ◌%◌, ◌^◌, ◌≤◌, ◌<◌, ◌≡◌, refl, sym, ap, ◌∙◌, subst, inl, inr, true, false,
  List, [], ◌∷◌, ◌++◌, length, length-append, length-set, get_or, get_or-set, get_or-append_left,
  get_or-append_right, drop, ltb, ◌==◌, if◌then◌else◌, Bool-cases, ==→eq, ne→==, arith,
}
use thunity_os.Kprintf.{klog_cap, Console, raw_putc, kputc, kputs, dump_loop, klog_dump}

-- Characters that go to the console and not into the log.
unfoldable pub raw_write : Console → List ℕ → Console
raw_write k [] = k
raw_write k (c ∷ s) = raw_write (raw_putc k c) s

-- The log has seen the text `s`: the ring holds its last 8192 characters.
pub record HasLog (s : List ℕ) (k : Console) : Type 0 where
  pub room : length k.klog_buf ≡ klog_cap
  pub count : k.klog_w ≡ length s
  pub entry :
      (i : ℕ)
      → i < length s
      → length s ≤ i + klog_cap
      → get_or k.klog_buf (i % klog_cap) 0 ≡ get_or s i 0

kputc-HasLog :
    (s : List ℕ) (k : Console) (c : ℕ)
    → HasLog s k
    → length s + 1 < 2 ^ 32
    → HasLog (s ++ (c ∷ [])) (kputc k c)
unfolding kputc
kputc-HasLog s k c has lt =
    let len : length (s ++ (c ∷ [])) ≡ length s + 1 = length-append s (c ∷ []) in
    let at = get_or-set k.klog_buf (k.klog_w % klog_cap) in
    record {
      room = length-set k.klog_buf (k.klog_w % klog_cap) c ∙ has.room;
      count = omega (arith, len, has.count);
      entry = λ i below near.
          let here = at (i % klog_cap) c 0 (omega (arith, has.room)) in
          elim (Bool-cases (i == length s)) [
            | inl e ↦
                let last : i ≡ length s + 0 = omega (arith, ==→eq i (length s) e) in
                let q : (k.klog_w % klog_cap == i % klog_cap) ≡ true =
                  ground (arith, last, has.count) in
                here
                ∙ rw q (
                    sym (
                      ap (λ j. get_or (s ++ (c ∷ [])) j 0) last
                      ∙ get_or-append_right s (c ∷ []) 0 0))
            | inr e ↦
                let old : i < length s = ground (arith, e, below, len) in
                let q : (k.klog_w % klog_cap == i % klog_cap) ≡ false =
                  ne→== _ _ (λ z. omega (arith, z, old, near, len, has.count)) in
                here
                ∙ rw q (
                    has.entry i old (omega (arith, near, len))
                    ∙ sym (get_or-append_left s (c ∷ []) i 0 old))
          ];
    }

append-nil : (s : List ℕ) → s ++ [] ≡ s
append-nil [] = refl
append-nil (c ∷ s) = ap (λ l. c ∷ l) (append-nil s)

append-one : (s : List ℕ) (c : ℕ) (t : List ℕ) → (s ++ (c ∷ [])) ++ t ≡ s ++ (c ∷ t)
append-one [] c t = refl
append-one (x ∷ s) c t = ap (λ l. x ∷ l) (append-one s c t)

buf-raw_putc : (k : Console) (c : ℕ) → (raw_putc k c).klog_buf ≡ k.klog_buf
unfolding raw_putc
buf-raw_putc k c = elim (Bool-cases k.graphical) [
  | inl g ↦ elim (Bool-cases k.serial_mirror) [ inl m ↦ rw (g, m) refl | inr m ↦ rw (g, m) refl ]
  | inr g ↦ elim (Bool-cases k.serial_mirror) [ inl m ↦ rw (g, m) refl | inr m ↦ rw (g, m) refl ]
]

drop_get : (i : ℕ) (s : List ℕ) → i < length s → drop i s ≡ get_or s i 0 ∷ drop (suc i) s
drop_get i [] lt = absurd (omega arith)
drop_get zero (c ∷ s) lt = refl
drop_get (suc i) (c ∷ s) lt = drop_get i s (omega arith)

drop_all : (i : ℕ) (s : List ℕ) → length s ≤ i → drop i s ≡ []
drop_all zero [] le = refl
drop_all (suc i) [] le = refl
drop_all zero (c ∷ s) le = absurd (omega arith)
drop_all (suc i) (c ∷ s) le = drop_all i s (omega arith)

dump_loop-drop :
    (left i : ℕ) (s : List ℕ) (k : Console)
    → i + left ≡ length s
    → ((j : ℕ) → i ≤ j → j < length s → get_or k.klog_buf (j % klog_cap) 0 ≡ get_or s j 0)
    → dump_loop left i k ≡ raw_write k (drop i s)
unfolding dump_loop raw_write
dump_loop-drop zero i s k all same = rw (drop_all i s (omega (arith, all))) refl
dump_loop-drop (suc left) i s k all same =
    let c = get_or k.klog_buf (i % klog_cap) 0 in
    let e : c ≡ get_or s i 0 = same i (omega arith) (omega (arith, all)) in
    let buf = buf-raw_putc k c in
    let ih =
      dump_loop-drop left (i + 1) s (raw_putc k c) (omega (arith, all))
        (λ j le lt. ap (λ b. get_or b (j % klog_cap) 0) buf ∙ same j (omega (arith, le)) lt) in
    let j : i + 1 ≡ suc i = omega arith in
    rw (drop_get i s (omega (arith, all))) (
      ih
      ∙ ap (λ j. raw_write (raw_putc k c) (drop j s)) j
      ∙ ap (λ x. raw_write (raw_putc k x) (drop (suc i) s)) e)

kputs-HasLog :
    (s t : List ℕ) (k : Console)
    → HasLog s k
    → length s + length t < 2 ^ 32
    → HasLog (s ++ t) (kputs k t)
unfolding kputs
kputs-HasLog s [] k has lt = subst (λ l. HasLog l k) (sym (append-nil s)) has
kputs-HasLog s (c ∷ t) k has lt =
    subst (λ l. HasLog l (kputs (kputc k c) t)) (append-one s c t)
      (kputs-HasLog (s ++ (c ∷ [])) t (kputc k c) (kputc-HasLog s k c has (omega arith))
        (omega (arith, length-append s (c ∷ []))))

klog_dump-HasLog :
    (s : List ℕ) (k : Console)
    → HasLog s k
    → klog_dump k ≡ raw_write k (drop (length s - klog_cap) s)
unfolding klog_dump
klog_dump-HasLog s k has =
    let start : (if ltb klog_cap k.klog_w then k.klog_w - klog_cap else 0) ≡ length s - klog_cap =
      ground (arith, has.count) in
    rw start (
      dump_loop-drop (k.klog_w - (length s - klog_cap)) (length s - klog_cap) s k
        (omega (arith, has.count)) (λ j le lt. has.entry j lt (omega (arith, le))))

-- From an empty log on, after a text of less than 2^32 characters was written, `klog_dump` sends its last
-- 8192 characters, or all of a shorter one, to the console once more, in order, and not into the log.
pub klog_dump-kputs :
    (s : List ℕ) (k : Console)
    → length k.klog_buf ≡ klog_cap
    → k.klog_w ≡ 0
    → length s < 2 ^ 32
    → klog_dump (kputs k s) ≡ raw_write (kputs k s) (drop (length s - klog_cap) s)
klog_dump-kputs s k room empty lt = klog_dump-HasLog s (kputs k s) (
    kputs-HasLog [] s k
      (record { room = room; count = empty; entry = λ i below near. absurd (omega (arith, below)) })
      (omega arith))
