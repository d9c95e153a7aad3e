-- ===== src/Clog/Level.antt =====
-- The level that `clog_init` of src/logger/clog.c reads from the environment, and the event context.
use tangent.Base.{
  ℕ, Bool, true, false, ◌&&◌, Option, none, some, List, [], ◌∷◌, take, ◌==◌, if◌then◌else◌,
}
use tangent.Base.Int.{ℤ, pos}

abbrev same_text : List ℕ → List ℕ → Bool
same_text [] [] = true
same_text [] (d ∷ ds) = false
same_text (c ∷ cs) [] = false
same_text (c ∷ cs) (d ∷ ds) = c == d && same_text cs ds

-- The names and what they stand for.
abbrev level_names : List (List ℕ × ℤ)
level_names =
    (b'T' ∷ b'R' ∷ b'A' ∷ b'C' ∷ b'E' ∷ [], pos 0)
    ∷ (b'D' ∷ b'E' ∷ b'B' ∷ b'U' ∷ b'G' ∷ [], pos 1)
    ∷ (b'I' ∷ b'N' ∷ b'F' ∷ b'O' ∷ [], pos 2)
    ∷ (b'W' ∷ b'A' ∷ b'R' ∷ b'N' ∷ [], pos 3)
    ∷ (b'E' ∷ b'R' ∷ b'R' ∷ b'O' ∷ b'R' ∷ [], pos 4)
    ∷ (b'F' ∷ b'A' ∷ b'T' ∷ b'A' ∷ b'L' ∷ [], pos 5)
    ∷ []

unfoldable pub named_level : List (List ℕ × ℤ) → List ℕ → Option ℤ
named_level [] text = none
named_level ((name, level) ∷ more) text =
    let rest = named_level more text in if same_text text name then some level else rest

abbrev or_else : {A : Type 0} → Option A → A → A
or_else none d = d
or_else (some a) d = a

-- The default level behind `clog_init`, from the one before. `strtol` is a parameter, `none` where it
-- sets `errno`.
unfoldable pub clog_init : (List ℕ → Option ℤ) → Option (List ℕ) → ℤ → ℤ
clog_init strtol none default_level = default_level
clog_init strtol (some []) default_level = default_level
clog_init strtol (some (c ∷ cs)) default_level = elim (named_level level_names (c ∷ cs)) [
  | some level ↦ level
  | none ↦ or_else (strtol (c ∷ cs)) default_level
]

-- The 256 bytes of `event_context` end with a NUL that is never overwritten; of a longer text 255 bytes
-- are kept.
unfoldable pub clog_set_event_context : List ℕ → List ℕ
clog_set_event_context context = take 255 context

-- The name of the logger for a file: its name up to the first dot, and a fault without one.
unfoldable pub before_dot : List ℕ → Option (List ℕ)
before_dot [] = none
before_dot (c ∷ cs) =
    let rest = before_dot cs in
    if c == b'.' then some [] else (elim rest [ none ↦ none | some name ↦ some (c ∷ name) ])
