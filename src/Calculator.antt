-- ===== src/Calculator.antt =====
-- The calculator of kernel/gui/apps.c: its keys and the text that it shows. Numbers are 32-bit integers with
-- sign, of which an operation keeps the low 32 bits, as the compiled code does. The drawing is left out.
pub mod Keys
pub mod Sums
mod Examples
use thunity_os.Base.{
  ℕ, zero, suc, ◌+◌, ◌-◌, ◌*◌, ◌/◌, ◌%◌, ◌^◌, Bool, true, false, ◌&&◌, ◌||◌, List, [], ◌∷◌, ◌++◌,
  Option, none, some, ltb, leb, ◌==◌, if◌then◌else◌,
}
use mathlib.Core.Option.{bind}
use thunity_os.Base.Int.{
  ℤ, pos, negsuc, pos_part, neg_part, ◌+ℤ◌, ◌-ℤ◌, ◌*ℤ◌, div_ℤ, eqb_ℤ, ltb_ℤ, sub_ℕ,
}

-- The integer of 32 bits that is equal on 32 bits.
unfoldable pub wrap_long : ℤ → ℤ
wrap_long a =
    let word = (pos_part a + (2 ^ 32 - neg_part a % 2 ^ 32)) % 2 ^ 32 in
    if ltb word (2 ^ 31) then pos word else negsuc (2 ^ 32 - 1 - word)

pub record Calculator : Type 0 where
  pub cc_acc : ℤ
  pub cc_cur : ℤ
  pub cc_op : ℕ
  pub cc_fresh : Bool
  pub cc_disp : ℤ

-- The statics after `app_calc_open` and after the key C.
abbrev pub calc_cleared : Calculator
calc_cleared = record {
  cc_acc = pos 0;
  cc_cur = pos 0;
  cc_op = 0;
  cc_fresh = true;
  cc_disp = pos 0;
}

-- `none` is the processor's divide error, for -2147483648 / -1.
unfoldable pub calc_apply : ℤ → ℕ → ℤ → Option ℤ
calc_apply a op b =
    if op == 43
    then some (wrap_long (a +ℤ b))
    else if op == 45
    then some (wrap_long (a -ℤ b))
    else if op == 42
    then some (wrap_long (a *ℤ b))
    else if op == 47
    then if eqb_ℤ b (pos 0)
      then some (pos 0)
      else if eqb_ℤ a (negsuc (2 ^ 31 - 1)) && eqb_ℤ b (negsuc 0)
      then none
      else some (div_ℤ a b)
    else some b

-- `cc_op ? calc_apply(cc_acc, cc_op, cc_cur) : cc_cur`
abbrev pub pending : Calculator → Option ℤ
pending s = if s.cc_op == 0 then some s.cc_cur else calc_apply s.cc_acc s.cc_op s.cc_cur

abbrev pub is_number_key : ℕ → Bool
is_number_key c = leb 48 c && leb c 57

abbrev pub is_op : ℕ → Bool
is_op c = (c == 43) || (c == 45) || (c == 42) || (c == 47)

unfoldable pub digit : Calculator → ℕ → Calculator
digit s d =
    let cur = wrap_long ((if s.cc_fresh then pos 0 else s.cc_cur) *ℤ pos 10 +ℤ pos d) in
    record s { cc_cur = cur; cc_fresh = false; cc_disp = cur }

unfoldable pub app_calc_key : Calculator → ℕ → Option Calculator
app_calc_key s c =
    if is_number_key c
    then some (digit s (c - 48))
    else if is_op c
    then bind (pending s)
        (λ v. some (record s { cc_acc = v; cc_op = c; cc_fresh = true; cc_disp = v }))
    else if (c == 61) || (c == 10)
    then bind (pending s)
        (λ v. some (record s { cc_acc = v; cc_cur = v; cc_op = 0; cc_fresh = true; cc_disp = v }))
    else some (if (c == 99) || (c == 67) then calc_cleared else s)

-- The digits of `u`, the lowest first, at most `left` of them.
unfoldable pub digits_up : ℕ → ℕ → List ℕ
digits_up zero u = []
digits_up (suc left) u =
    let rest = digits_up left (u / 10) in if u == 0 then [] else (48 + u % 10) ∷ rest

abbrev pub reverse : List ℕ → List ℕ → List ℕ
reverse [] out = out
reverse (c ∷ tmp) out = reverse tmp (c ∷ out)

-- The text of a number. Ten rounds are enough on 32 bits.
unfoldable pub itoa_l : ℤ → List ℕ
itoa_l v =
    let u = pos_part v + neg_part v in
    let tmp = if u == 0 then 48 ∷ [] else digits_up 10 u in
    if ltb_ℤ v (pos 0) then 45 ∷ reverse tmp [] else reverse tmp []

-- A sequence of keys.
unfoldable pub calc_keys : Calculator → List ℕ → Option Calculator
calc_keys s [] = some s
calc_keys s (c ∷ keys) = bind (app_calc_key s c) (λ t. calc_keys t keys)
