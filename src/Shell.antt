-- ===== src/Shell.antt =====
-- kernel/shell/shell.c: the numbers that commands take, the history, and the editing of the line. The commands
-- themselves are a parameter of the line editor. A string is its characters before the terminating 0.
pub mod Addresses
mod Examples
use thunity_os.Base.{
  ℕ, zero, suc, ◌+◌, ◌-◌, ◌*◌, ◌%◌, Bool, true, false, not, ◌&&◌, ◌||◌, Option, none, some, List,
  [], ◌∷◌, ◌++◌, length, get_or, set, take, u32, ltb, leb, ◌==◌, if◌then◌else◌,
}

abbrev pub line_max : ℕ
line_max = 128

abbrev pub hist_max : ℕ
hist_max = 16

pub record History : Type 0 where
  pub hist : List (List ℕ)
  pub hist_n : ℕ

unfoldable pub hist_record : History → List ℕ → History
hist_record h [] = h
hist_record h (c ∷ line) = record h {
  hist = set h.hist (h.hist_n % hist_max) (take (line_max - 1) (c ∷ line));
  hist_n = u32 (h.hist_n + 1);
}

-- The loop of `cmd_history` at `i`, with `left` rounds left: the numbers and the lines that it prints.
unfoldable pub history_loop : ℕ → ℕ → History → List (ℕ × List ℕ)
history_loop zero i h = []
history_loop (suc left) i h = (i + 1, get_or h.hist (i % hist_max) []) ∷ history_loop left (i + 1) h

unfoldable pub cmd_history : History → List (ℕ × List ℕ)
cmd_history h =
    let start = if ltb hist_max h.hist_n then h.hist_n - hist_max else 0 in
    history_loop (h.hist_n - start) start h

abbrev pub hex_digit : ℕ → Option ℕ
hex_digit c =
    if leb 48 c && leb c 57
    then some (c - 48)
    else if leb 97 c && leb c 102
    then some (c - 97 + 10)
    else if leb 65 c && leb c 70
    then some (c - 65 + 10)
    else none

-- The loop of `parse_hex`, with the value and whether there was a digit; `none` for the result `false`.
unfoldable pub hex_loop : List ℕ → ℕ → Bool → Option ℕ
hex_loop [] v any = if any then some v else none
hex_loop (c ∷ s) v any = elim (hex_digit c) [
  | none ↦ none
  | some d ↦ hex_loop s (u32 (v * 16 + d)) true
]

unfoldable pub parse_hex : List ℕ → Option ℕ
parse_hex [] = hex_loop [] 0 false
parse_hex (a ∷ []) = hex_loop (a ∷ []) 0 false
parse_hex (a ∷ b ∷ s) =
    if (a == 48) && ((b == 120) || (b == 88))
    then hex_loop s 0 false
    else hex_loop (a ∷ b ∷ s) 0 false

-- The loop of `parse_uint`, which ends at the first character that is no digit.
unfoldable pub uint_loop : List ℕ → ℕ → Bool → Option ℕ
uint_loop [] v any = if any then some v else none
uint_loop (c ∷ s) v any =
    let rest = uint_loop s (u32 (v * 10 + (c - 48))) true in
    if leb 48 c && leb c 57 then rest else if any then some v else none

unfoldable pub parse_uint : List ℕ → Option ℕ
parse_uint s = uint_loop s 0 false

-- The line that is being typed, its characters up to `s_len`.
unfoldable pub shell_feed_char {ℓ} :
    {S : Type ℓ} → (S → ℕ → S) → (List ℕ → S → S) → (S → S) → List ℕ × S → ℕ → List ℕ × S
shell_feed_char kputc execute shell_prompt (line, s) c =
    if c == 10
    then ([], shell_prompt (execute line (kputc s 10)))
    else if c == 8
    then if ltb 0 (length line) then (take (length line - 1) line, kputc s 8) else (line, s)
    else if ltb (length line) (line_max - 1) && leb 32 c
    then (line ++ (c ∷ []), kputc s c)
    else (line, s)
