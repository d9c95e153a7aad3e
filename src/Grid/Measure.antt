-- ===== src/Grid/Measure.antt =====
-- `measure_text` of src/grid.c against the lines of the text.
use tangent.Base.{
  ℕ, ◌+◌, ◌≡◌, inl, inr, refl, sym, ap, ap₂, ◌∙◌, true, false, ◌||◌, List, [], ◌∷◌, length, ltb,
  ◌==◌, if◌then◌else◌, arith, Bool-cases,
}
use tangent.Grid.{newline, measure_from, measure_text}

-- The lines, each with the newline that ends it.
abbrev cons_line : ℕ → List (List ℕ) → List (List ℕ)
cons_line c [] = (c ∷ []) ∷ []
cons_line c (line ∷ lines) = (c ∷ line) ∷ lines

pub lines_of : List ℕ → List (List ℕ)
lines_of [] = []
lines_of (c ∷ cs) =
    let rest = lines_of cs in if c == newline then (c ∷ []) ∷ rest else cons_line c rest

abbrev pub longer : ℕ → ℕ → ℕ
longer m n = if ltb m n then n else m

pub longest : List (List ℕ) → ℕ
longest [] = 0
longest (line ∷ lines) = longer (length line) (longest lines)

-- With `n` characters of the first line gone before.
abbrev widest : ℕ → List (List ℕ) → ℕ
widest n [] = 0
widest n (line ∷ lines) = longer (n + length line) (longest lines)

measure_from-end :
    (c : ℕ) (cs : List ℕ) (t l n : ℕ)
    → (c == newline || length cs == 0) ≡ true
    → measure_from (c ∷ cs) t l n ≡ measure_from cs 0 (longer l (t + 1)) (n + 1)
unfolding measure_from
measure_from-end c cs t l n e = rw (e, measure_from) refl

measure_from-within :
    (c : ℕ) (cs : List ℕ) (t l n : ℕ)
    → (c == newline || length cs == 0) ≡ false
    → measure_from (c ∷ cs) t l n ≡ measure_from cs (t + 1) l n
unfolding measure_from
measure_from-within c cs t l n e = rw (e, measure_from) refl

widest_zero : (lines : List (List ℕ)) → widest 0 lines ≡ longest lines
unfolding longest
widest_zero [] = refl
widest_zero (line ∷ lines) = ap (λ k. longer k (longest lines)) (omega arith)

longer_assoc : (a b c : ℕ) → longer (longer a b) c ≡ longer a (longer b c)
longer_assoc a b c = ground arith

-- A character in front of a line that is there already.
cons_line-widest :
    (c t : ℕ) (line : List ℕ) (lines : List (List ℕ))
    → (widest t (cons_line c (line ∷ lines)) ≡ widest (t + 1) (line ∷ lines))
      × (length (cons_line c (line ∷ lines)) ≡ length (line ∷ lines))
cons_line-widest c t line lines = (ap (λ k. longer k (longest lines)) (omega arith), refl)

lines_of-cons :
    (d : ℕ) (cs : List ℕ)
    → (line : List ℕ) × (lines : List (List ℕ)) × (lines_of (d ∷ cs) ≡ line ∷ lines)
unfolding lines_of
lines_of-cons d cs = elim (Bool-cases (d == newline)) [
  | inl e ↦ (d ∷ [], lines_of cs, rw e)
  | inr e ↦ by_rest (lines_of cs) refl e
]
  where
    by_rest :
        (rest : List (List ℕ))
        → lines_of cs ≡ rest
        → (d == newline) ≡ false
        → (line : List ℕ) × (lines : List (List ℕ)) × (lines_of (d ∷ cs) ≡ line ∷ lines)
    by_rest [] r e = (d ∷ [], [], rw (e, r) refl)
    by_rest (line ∷ lines) r e = (d ∷ line, lines, rw (e, r) refl)

both : {a b c d : ℕ} → a ≡ b → c ≡ d → ◌≡◌ {A = ℕ × ℕ} (a, c) (b, d)
both e f = ap₂ (λ x y. (x, y)) e f

lines_of-newline :
    (c : ℕ) (cs : List ℕ) → (c == newline) ≡ true → lines_of (c ∷ cs) ≡ (c ∷ []) ∷ lines_of cs
unfolding lines_of
lines_of-newline c cs e = rw (e, lines_of) refl

lines_of-other :
    (c : ℕ) (cs : List ℕ) → (c == newline) ≡ false → lines_of (c ∷ cs) ≡ cons_line c (lines_of cs)
unfolding lines_of
lines_of-other c cs e = rw (e, lines_of) refl

-- What the loop makes of the lines of the rest.
abbrev measured : ℕ → ℕ → ℕ → List (List ℕ) → ℕ × ℕ
measured t l n lines = (longer l (widest t lines), n + length lines)

measure_from_lem : (cs : List ℕ) (t l n : ℕ) → measure_from cs t l n ≡ measured t l n (lines_of cs)
unfolding measure_from lines_of longest
measure_from_lem [] t l n = both (ground arith) (omega arith)
measure_from_lem (c ∷ []) t l n = elim (Bool-cases (c == newline)) [
  | inl e ↦
      measure_from-end c [] t l n (rw e refl)
      ∙ both (ground arith) (omega arith)
      ∙ sym (ap (measured t l n) (lines_of-newline c [] e))
  | inr e ↦
      measure_from-end c [] t l n (rw e refl)
      ∙ both (ground arith) (omega arith)
      ∙ sym (ap (measured t l n) (lines_of-other c [] e))
]
measure_from_lem (c ∷ d ∷ cs) t l n = elim (Bool-cases (c == newline)) [
  | inl e ↦
      measure_from-end c (d ∷ cs) t l n (rw e refl)
      ∙ measure_from_lem (d ∷ cs) 0 (longer l (t + 1)) (n + 1)
      ∙ both
          (longer_assoc l (t + 1) (widest 0 (lines_of (d ∷ cs)))
            ∙ ap (λ k. longer l (longer (t + 1) k)) (widest_zero (lines_of (d ∷ cs))))
          (omega arith)
      ∙ sym (ap (measured t l n) (lines_of-newline c (d ∷ cs) e))
  | inr e ↦
      let (line, lines, f) = lines_of-cons d cs in
      let (w, k) = cons_line-widest c t line lines in
      measure_from-within c (d ∷ cs) t l n (rw e (ground arith))
      ∙ measure_from_lem (d ∷ cs) (t + 1) l n
      ∙ ap (measured (t + 1) l n) f
      ∙ both (ap (longer l) (sym w)) (ap (λ j. n + j) (sym k))
      ∙ sym (ap (λ ls. measured t l n (cons_line c ls)) f)
      ∙ sym (ap (measured t l n) (lines_of-other c (d ∷ cs) e))
]

-- The height of a text is the number of its lines, and its width is the length of its longest line,
-- where a line counts the newline that ends it.
pub measure_text_lem :
    (text : List ℕ) → measure_text text ≡ (longest (lines_of text), length (lines_of text))
unfolding measure_text
measure_text_lem text =
    measure_from_lem text 0 0 0 ∙ both (ground arith ∙ widest_zero (lines_of text)) (omega arith)
