-- ===== src/Pmm/Init.antt =====
-- `pmm_init` of kernel/mm/pmm.c: the state that it leaves.
use thunity_os.Base.{
  ℕ, ◌+◌, ◌^◌, ◌<◌, ◌≡◌, ◌≢◌, sym, subst, ◌∙◌, inl, inr, true, u32, ◌==◌, Bool-cases, ==→eq, arith,
}
use thunity_os.FrameBitmap.{fb_test}
use thunity_os.Pmm.{Pmm, Prot, low_memory, reserve_range}
use thunity_os.Pmm.Reserve.{
  IsValid, spans, free_of, RangeReserved, reserve_range-RangeReserved, reserve_range-IsValid,
}
use thunity_os.Pmm.Boot.{BootMemory, sizeof_multiboot_info, reserve_all}

-- What the later reservations keep of a state.
pub record Kept (p q : Pmm) : Type 0 where
  pub valid : IsValid q
  pub total : q.total_frames ≡ p.total_frames
  pub used : (g : ℕ) → fb_test p.frame_bitmap g ≡ true → fb_test q.frame_bitmap g ≡ true
  pub usable : q.usable_frames ≡ p.usable_frames
  pub conserved : q.reserved_frames + free_of q ≡ p.reserved_frames + free_of p
  pub addr : q.mmap_addr_saved ≡ p.mmap_addr_saved
  pub len : q.mmap_len_saved ≡ p.mmap_len_saved

pub Kept-trans : (p q r : Pmm) → Kept p q → Kept q r → Kept p r
Kept-trans p q r a c = record {
  valid = c.valid;
  total = c.total ∙ a.total;
  used = λ g u. c.used g (a.used g u);
  usable = c.usable ∙ a.usable;
  conserved = c.conserved ∙ a.conserved;
  addr = c.addr ∙ a.addr;
  len = c.len ∙ a.len;
}

-- The frames of a range, where it has any, are used.
abbrev pub RangeUsed : Pmm → Prot → Type 0
RangeUsed q r =
    (g : ℕ)
    → r.start < r.end
    → spans r g ≡ true
    → g < q.total_frames
    → fb_test q.frame_bitmap g ≡ true

module _ (p : Pmm) (r : Prot) (v : IsValid p) (small : p.reserved_frames + free_of p < 2 ^ 32) where
  reserved_range : RangeReserved p (reserve_range r.start r.end p) r
  reserved_range = reserve_range-RangeReserved p r v.bytes v.room small

  reserve_range-Kept : Kept p (reserve_range r.start r.end p)
  reserve_range-Kept =
      let d = reserved_range in
      record {
        valid = reserve_range-IsValid p r v small;
        total = d.total;
        used = λ g u. ground (arith, d.tests g);
        usable = d.usable;
        conserved = d.conserved;
        addr = d.addr;
        len = d.len;
      }

  reserve_range-RangeUsed : RangeUsed (reserve_range r.start r.end p) r
  reserve_range-RangeUsed g lt s low = let d = reserved_range in ground (arith, d.tests g, d.total)

RangeUsed-Kept : (p q : Pmm) (r : Prot) → Kept p q → RangeUsed p r → RangeUsed q r
RangeUsed-Kept p q r k u g lt s low = k.used g (u g lt s (omega (arith, k.total)))

abbrev pub low_range : Prot
low_range = record { start = 0; end = low_memory }

abbrev pub kernel_range : BootMemory → Prot
kernel_range mem = record { start = mem.kernel_start; end = mem.kernel_end }

abbrev pub info_range : ℕ → Prot
info_range a = record { start = a; end = u32 (a + sizeof_multiboot_info) }

abbrev pub map_range : Pmm → Prot
map_range p = record { start = p.mmap_addr_saved; end = u32 (p.mmap_addr_saved + p.mmap_len_saved) }

-- What `reserve_all` leaves of a valid state.
pub record AllReserved (mem : BootMemory) (a : ℕ) (p q : Pmm) : Type 0 where
  pub kept : Kept p q
  pub low_used : RangeUsed q low_range
  pub kernel_used : RangeUsed q (kernel_range mem)
  pub info_used : RangeUsed q (info_range a)
  pub map_used : p.mmap_len_saved ≢ 0 → RangeUsed q (map_range p)

pub reserve_all-AllReserved :
    (mem : BootMemory) (a : ℕ) (p : Pmm)
    → IsValid p
    → p.reserved_frames + free_of p < 2 ^ 32
    → AllReserved mem a p (reserve_all mem a p)
unfolding reserve_all
reserve_all-AllReserved mem a p v small = elim (Bool-cases (p3.mmap_len_saved == 0)) [
  | inl no_map ↦ rw no_map (record {
    kept = k3;
    low_used = RangeUsed-Kept p1 p3 low_range k13 u1;
    kernel_used = RangeUsed-Kept p2 p3 (kernel_range mem) k23 u2;
    info_used = u3;
    map_used = λ ne. absurd (ne (sym k3.len ∙ ==→eq p3.mmap_len_saved 0 no_map));
  })
  | inr a_map ↦ rw a_map (record {
    kept = Kept-trans p p3 p4 k3 k34;
    low_used = RangeUsed-Kept p1 p4 low_range (Kept-trans p1 p3 p4 k13 k34) u1;
    kernel_used = RangeUsed-Kept p2 p4 (kernel_range mem) (Kept-trans p2 p3 p4 k23 k34) u2;
    info_used = RangeUsed-Kept p3 p4 (info_range a) k34 u3;
    map_used = λ ne. subst (RangeUsed p4) same_map u4;
  })
]
  where
    p1 : Pmm
    p1 = reserve_range 0 low_memory p

    p2 : Pmm
    p2 = reserve_range mem.kernel_start mem.kernel_end p1

    p3 : Pmm
    p3 = reserve_range a (u32 (a + sizeof_multiboot_info)) p2

    p4 : Pmm
    p4 = reserve_range p3.mmap_addr_saved (u32 (p3.mmap_addr_saved + p3.mmap_len_saved)) p3

    k1 : Kept p p1
    k1 = reserve_range-Kept p low_range v small

    u1 : RangeUsed p1 low_range
    u1 = reserve_range-RangeUsed p low_range v small

    s1 : p1.reserved_frames + free_of p1 < 2 ^ 32
    s1 = omega (arith, k1.conserved)

    k12 : Kept p1 p2
    k12 = reserve_range-Kept p1 (kernel_range mem) k1.valid s1

    u2 : RangeUsed p2 (kernel_range mem)
    u2 = reserve_range-RangeUsed p1 (kernel_range mem) k1.valid s1

    s2 : p2.reserved_frames + free_of p2 < 2 ^ 32
    s2 = omega (arith, k12.conserved, s1)

    k23 : Kept p2 p3
    k23 = reserve_range-Kept p2 (info_range a) k12.valid s2

    u3 : RangeUsed p3 (info_range a)
    u3 = reserve_range-RangeUsed p2 (info_range a) k12.valid s2

    s3 : p3.reserved_frames + free_of p3 < 2 ^ 32
    s3 = omega (arith, k23.conserved, s2)

    k13 : Kept p1 p3
    k13 = Kept-trans p1 p2 p3 k12 k23

    k3 : Kept p p3
    k3 = Kept-trans p p1 p3 k1 k13

    k34 : Kept p3 p4
    k34 = reserve_range-Kept p3 (map_range p3) k23.valid s3

    u4 : RangeUsed p4 (map_range p3)
    u4 = reserve_range-RangeUsed p3 (map_range p3) k23.valid s3

    same_map : map_range p3 ≡ map_range p
    same_map = rw (k3.addr, k3.len)
