-- ===== src/Base/Texts.antt =====
-- Texts cut at the first occurrence of a character.
use Prim.Native.Nat.{ℕ}
use Prim.Native.Char.{Char, code}
use Prim.Native.String.{String, ◌++◌ as ◌<>◌}
use Prim.Native.String.append
use mathlib.Core.Path.{◌≡◌}
use mathlib.Core.Bool.{true, false}
use mathlib.Core.Option.{Option, none, some}
use durable_timer.Base.Tests.{◌==◌, if◌then◌else◌}

abbrev push_front : Char → Option (String × String) → Option (String × String)
push_front c none = none
push_front c (some (a, b)) = some (String.◌∷◌ c a, b)

-- The text before and the text after the first character whose code is `k`.
unfoldable pub cut_at : ℕ → String → Option (String × String)
cut_at k String.[] = none
cut_at k (String.◌∷◌ c s) =
    let rest = push_front c (cut_at k s) in if code c == k then some (String.[], s) else rest

-- No character of the text has the code `k`.
abbrev pub IsFreeOf : ℕ → String → Type 0
IsFreeOf k String.[] = Unit
IsFreeOf k (String.◌∷◌ c s) = ((code c == k) ≡ false) × IsFreeOf k s

-- A text that is free of the separator is what comes before it.
pub cut_at-append :
    (k : ℕ) (c : Char) (s t : String)
    → (code c == k) ≡ true
    → IsFreeOf k s
    → cut_at k (s <> (String.◌∷◌ c t)) ≡ some (s, t)
unfolding cut_at
cut_at-append k c String.[] t e h = rw append.nil (rw e)
cut_at-append k c (String.◌∷◌ d s) t e h =
    rw append.cons (rw h.0 (rw (cut_at-append k c s t e h.1)))

pub cut_at-separated :
    (k : ℕ) (c : Char) (s t : String)
    → (code c == k) ≡ true
    → IsFreeOf k s
    → cut_at k (s <> (String.◌∷◌ c String.[] <> t)) ≡ some (s, t)
cut_at-separated k c s t e h = rw append.cons (rw append.nil (cut_at-append k c s t e h))
