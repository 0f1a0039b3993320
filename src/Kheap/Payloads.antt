-- ===== src/Kheap/Payloads.antt =====
-- The payloads in use of the heap of kernel/mm/kheap_core.c: where they lie, and taking one away.
use thunity_os.Base.{
  ℕ, ◌+◌, ◌≤◌, ◌<◌, ◌≡◌, ◌≢◌, refl, sym, subst, ap, ◌∙◌, ◌⊎◌, inl, inr, Bool, List, [], ◌∷◌, ◌==◌,
  if◌then◌else◌, Bool-cases, ==→eq, arith,
}
use thunity_os.Kheap.{Block, kh_magic, hdr}
use thunity_os.Kheap.Cells.{Cell, after, Chain, Chain-end, Payload, used, remove, Apart, Has}

Apart-le : (lo : ℕ) (us : List Payload) (end : ℕ) → Apart lo us end → lo ≤ end
Apart-le lo [] end ap = ap
Apart-le lo (u ∷ us) end (le, al, rest) = omega (arith, Apart-le (u.at + u.size) us end rest)

-- A payload of a list that lies from `lo` to `end`.
pub Has-Apart :
    (lo : ℕ) (us : List Payload) (end p n : ℕ)
    → Apart lo us end
    → Has p n us
    → (lo + hdr ≤ p) × (p + n ≤ end)
Has-Apart lo [] end p n ap has = absurd has
Has-Apart lo (u ∷ us) end p n (le, al, rest) (inl (at, size)) =
    (omega arith, omega (arith, Apart-le (u.at + u.size) us end rest))
Has-Apart lo (u ∷ us) end p n (le, al, rest) (inr has) =
    let (from, to) = Has-Apart (u.at + u.size) us end p n rest has in (omega arith, to)

-- Two payloads of such a list.
pub Apart-disjoint :
    (lo : ℕ) (us : List Payload) (end r t p n : ℕ)
    → Apart lo us end
    → Has r t us
    → Has p n (remove r us)
    → (p + n + hdr ≤ r) ⊎ (r + t + hdr ≤ p)
Apart-disjoint lo [] end r t p n ap has other = absurd has
Apart-disjoint lo (u ∷ us) end r t p n (le, al, rest) has other = elim (Bool-cases (u.at == r)) [
  | inl here ↦ elim has [
    | inl (at, size) ↦
        let behind = Has-Apart (u.at + u.size) us end p n rest (subst in_rest here other) in
        inr (omega (arith, behind.0))
    | inr later ↦
        let from = Has-Apart (u.at + u.size) us end r t rest later in
        absurd (omega (arith, from.0, ==→eq u.at r here))
  ]
  | inr there ↦ elim has [
    | inl (at, size) ↦ absurd (ground (arith, there))
    | inr later ↦ elim (subst in_rest there other) [
      | inl (at, size) ↦
          let from = Has-Apart (u.at + u.size) us end r t rest later in inl (omega (arith, from.0))
      | inr both ↦ Apart-disjoint (u.at + u.size) us end r t p n rest later both
    ]
  ]
]
  where
    in_rest : Bool → Type 0
    in_rest b = Has p n (if b then us else u ∷ remove r us)

pub Has-remove : (us : List Payload) (r t p : ℕ) → r ≢ p → Has r t us → Has r t (remove p us)
Has-remove [] r t p ne has = absurd has
Has-remove (u ∷ us) r t p ne has = elim (Bool-cases (u.at == p)) [
  | inl here ↦
      rw here
        (elim has [ inl (at, size) ↦ absurd (ne (sym at ∙ ==→eq u.at p here)) | inr later ↦ later ])
  | inr there ↦
      rw there (elim has [ inl own ↦ inl own | inr later ↦ inr (Has-remove us r t p ne later) ])
]

pub Has-kept : (us : List Payload) (r p n : ℕ) → Has p n (remove r us) → Has p n us
Has-kept [] r p n has = has
Has-kept (u ∷ us) r p n has = elim (Bool-cases (u.at == r)) [
  | inl here ↦ inr (subst in_rest here has)
  | inr there ↦ elim (subst in_rest there has) [
    | inl own ↦ inl own
    | inr later ↦ inr (Has-kept us r p n later)
  ]
]
  where
    in_rest : Bool → Type 0
    in_rest b = Has p n (if b then us else u ∷ remove r us)

pub remove-remove : (us : List Payload) (p r : ℕ) → remove p (remove r us) ≡ remove r (remove p us)
remove-remove [] p r = refl
remove-remove (u ∷ us) p r = elim (Bool-cases (u.at == p)) [
  | inl at_p ↦ elim (Bool-cases (u.at == r)) [
    | inl at_r ↦
        subst (λ q. remove p (remove q (u ∷ us)) ≡ remove q (remove p (u ∷ us)))
          (sym (==→eq u.at p at_p) ∙ ==→eq u.at r at_r) refl
    | inr not_r ↦ rw (at_p, not_r, at_p) refl
  ]
  | inr not_p ↦ elim (Bool-cases (u.at == r)) [
    | inl at_r ↦ rw (not_p, at_r) refl
    | inr not_r ↦ rw (not_p, not_r, not_p) (ap (λ l. u ∷ l) (remove-remove us p r))
  ]
]

-- The header in front of a payload in use.
abbrev pub HeaderAt : (ℕ → Block) → ℕ → ℕ → ℕ → Type 0
HeaderAt m p n end =
    (b : ℕ) × (p ≡ b + hdr) × (0 < b) × ((m b).size ≡ n) × ((m b).magic ≡ kh_magic) × (p ≤ end)

pub Has-HeaderAt :
    (m : ℕ → Block) (q a : ℕ) (cs : List Cell) (end p n : ℕ)
    → Chain m q a cs end
    → Has p n (used a cs)
    → HeaderAt m p n end
Has-HeaderAt m q a [] end p n ch has = absurd has
Has-HeaderAt m q a (c ∷ cs) end p n (at, al, pos, s, f, g, rest) has = elim (Bool-cases c.free) [
  | inl free ↦ Has-HeaderAt m (m a).next (after a c) cs end p n rest (subst in_cells free has)
  | inr taken ↦ elim (subst in_cells taken has) [
    | inl here ↦
        let lt = Chain-end m (m a).next (after a c) cs end rest in
        (a, sym here.0, pos, s ∙ here.1, g, omega (arith, here.0, lt))
    | inr behind ↦ Has-HeaderAt m (m a).next (after a c) cs end p n rest behind
  ]
]
  where
    in_cells : Bool → Type 0
    in_cells f = Has p n (
        if f
        then used (after a c) cs
        else record { at = a + hdr; size = c.size } ∷ used (after a c) cs)
