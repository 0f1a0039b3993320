-- ===== src/Ai/Audit.antt =====
-- The audit ring of kernel/ai/ai_core.c against the history of what was recorded.
use thunity_os.Base.{
  ℕ, zero, suc, ◌+◌, ◌-◌, ◌%◌, ◌<◌, ◌≡◌, refl, ap, ◌∙◌, inl, inr, true, false, Option, none, some,
  List, [], ◌∷◌, length, map, get_or, set, length-set, get_or-set, u32, ltb, leb, ◌==◌,
  if◌then◌else◌, Bool-cases, arith,
}
use thunity_os.CStrings.{ncopy}
use thunity_os.Ai.{
  AiDecision, AiAudit, AiWorld, ai_name_max, ai_audit_cap, no_audit, ai_world_init, ai_audit_record,
  audit_index, ai_audit_recent,
}

-- How many entries the ring has for a history of `n`.
abbrev pub kept : ℕ → ℕ
kept n = if ltb n ai_audit_cap then n else ai_audit_cap

-- The ring of `w` has the newest entries of the history `h`, which lists the newest first.
pub record HasRecent (w : AiWorld) (h : List AiAudit) : Type 0 where
  pub room : length w.audit ≡ ai_audit_cap
  pub head_in : w.audit_head < ai_audit_cap
  pub total : w.audit_total ≡ kept (length h)
  pub held :
      (b : ℕ)
      → b < w.audit_total
      → get_or w.audit (audit_index w.audit_head b) no_audit ≡ get_or h b no_audit

-- The entry that a call records.
abbrev pub new_entry : AiWorld → List ℕ → AiDecision → Option ℕ → AiAudit
new_entry w action d task_id = record {
  seq = u32 (w.audit_seq + 1);
  action = ncopy action ai_name_max;
  decision = d;
  task_id = task_id;
  used = true;
}

-- The index of an entry, without a remainder.
audit_index_lem :
    (head b : ℕ)
    → head < ai_audit_cap
    → b < ai_audit_cap
    → audit_index head b ≡ (if ltb b head then head - 1 - b else ai_audit_cap + head - 1 - b)
audit_index_lem head b hh hb = ground arith

-- After a record the newest entry is at the old head, and the others are one further back.
audit_index_newest :
    (head : ℕ) → head < ai_audit_cap → audit_index ((head + 1) % ai_audit_cap) 0 ≡ head
audit_index_newest head h =
    audit_index_lem ((head + 1) % ai_audit_cap) 0 (omega arith) (omega arith) ∙ ground arith

audit_index_older :
    (head b : ℕ)
    → head < ai_audit_cap
    → b + 1 < ai_audit_cap
    → audit_index ((head + 1) % ai_audit_cap) (suc b) ≡ audit_index head b
audit_index_older head b h hb =
    audit_index_lem ((head + 1) % ai_audit_cap) (suc b) (omega arith) (omega (arith, hb))
    ∙ ground (arith, audit_index_lem head b h (omega arith))

audit_index-other :
    (head b : ℕ) → head < ai_audit_cap → b + 1 < ai_audit_cap → (head == audit_index head b) ≡ false
audit_index-other head b h hb = ground (arith, audit_index_lem head b h (omega arith))

length-map {ℓ} : {A : Type ℓ} (f : A → A) (xs : List A) → length (map f xs) ≡ length xs
length-map f [] = refl
length-map f (x ∷ xs) = ap suc (length-map f xs)

-- `ai_world_init` begins with no history.
pub ai_world_init-HasRecent :
    (w : AiWorld) → length w.audit ≡ ai_audit_cap → HasRecent (ai_world_init w) []
unfolding ai_world_init
ai_world_init-HasRecent w room = record {
  room = length-map (λ (e : AiAudit). record e { used = false }) w.audit ∙ room;
  head_in = omega arith;
  total = refl;
  held = λ b lt. absurd (omega arith);
}

-- A record adds its entry to the history as the newest one; the 33rd drops the oldest.
pub ai_audit_record-HasRecent :
    (w : AiWorld) (h : List AiAudit) (action : List ℕ) (d : AiDecision) (task_id : Option ℕ)
    → HasRecent w h
    → HasRecent (ai_audit_record w action d task_id) (new_entry w action d task_id ∷ h)
unfolding ai_audit_record
ai_audit_record-HasRecent w h action d task_id r =
    let e = new_entry w action d task_id in
    record {
      room = length-set w.audit w.audit_head e ∙ r.room;
      head_in = omega arith;
      total = ground (arith, r.total);
      held = held';
    }
  where
    e : AiAudit
    e = new_entry w action d task_id

    lt : w.audit_head < length w.audit
    lt = omega (arith, r.head_in, r.room)

    held' :
        (b : ℕ)
        → b < (if ltb w.audit_total ai_audit_cap then w.audit_total + 1 else w.audit_total)
        → get_or
            (set w.audit w.audit_head e)
            (audit_index ((w.audit_head + 1) % ai_audit_cap) b)
            no_audit
          ≡ get_or (e ∷ h) b no_audit
    held' zero hb =
        rw (audit_index_newest w.audit_head r.head_in)
          (get_or-set w.audit w.audit_head w.audit_head e no_audit lt ∙ ground arith)
    held' (suc b) hb =
        let small : b + 1 < ai_audit_cap = ground (arith, r.total) in
        let at = audit_index_older w.audit_head b r.head_in small in
        ap (λ i. get_or (set w.audit w.audit_head e) i no_audit) at
        ∙ get_or-set w.audit w.audit_head (audit_index w.audit_head b) e no_audit lt
        ∙ rw (audit_index-other w.audit_head b r.head_in small) (r.held b (ground (arith, r.total)))

-- `ai_audit_recent` returns the b-th newest entry of the history for b below 32 and below the number
-- of records, and NULL for any other.
pub ai_audit_recent-HasRecent :
    (w : AiWorld) (h : List AiAudit) (b : ℕ)
    → HasRecent w h
    → ai_audit_recent w b ≡ (if ltb b (kept (length h)) then some (get_or h b no_audit) else none)
unfolding ai_audit_recent
ai_audit_recent-HasRecent w h b r = elim (Bool-cases (leb w.audit_total b)) [
  | inl old ↦
      let out : ltb b (kept (length h)) ≡ false = ground (arith, r.total) in rw (old, out) refl
  | inr recent ↦
      let inside : ltb b (kept (length h)) ≡ true = ground (arith, r.total) in
      rw (recent, inside) (ap some (r.held b (ground arith)))
]
