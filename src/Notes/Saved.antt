-- ===== src/Notes/Saved.antt =====
-- What the notes of kernel/gui/apps.c have saved is what they show when they are opened again.
use thunity_os.Base.{ℕ, ◌+◌, ◌^◌, ◌≤◌, ◌<◌, ◌≡◌, Bool, true, not, ◌&&◌, List, [], ◌∷◌, length, ◌==◌}
use thunity_os.Ramfs.{Ramfs, bytes_of}
use thunity_os.Ramfs.Files.{IsValid}
use thunity_os.Notes.{Notes, no_room}

-- The text that the notes show.
abbrev pub text : Notes → List ℕ
text s = bytes_of s.no_buf 0 s.no_len

pub record IsNotes (s : Notes) : Type 0 where
  pub room : length s.no_buf ≡ 1024
  pub fits : s.no_len ≤ no_room
  pub valid : IsValid s.fs
  pub small : s.fs.arena_used + no_room < 2 ^ 32

no_zero : List ℕ → Bool
no_zero [] = true
no_zero (c ∷ cs) = not (c == 0) && no_zero cs
