-- ===== src/Clog/Message.antt =====
-- A message of src/logger/clog.c comes out whole and in order, or not at all.
use tangent.Base.{
  ℕ, ◌≡◌, inl, inr, refl, sym, ap, subst, ◌∙◌, true, false, List, [], ◌∷◌, ◌++◌, map, append_assoc,
  append-nil, if◌then◌else◌, Bool-cases,
}
use tangent.Base.Int.{ℤ, leb_ℤ}
use tangent.Clog.{
  Piece, leader, byte, ending, Logger, logger_call_write, flush, clog_start_log, clog_partial_log,
  clog_end_log, vlog, clog_log, Write, partial, to_fp, write, write_all, log_message,
}

-- All that was printed, in the order of the calls.
abbrev pub text_of : List Write → List ℕ
text_of [] = []
text_of (partial text ∷ ws) = text ++ text_of ws
text_of (to_fp text early ∷ ws) = text ++ text_of ws

map-append : (xs ys : List ℕ) → map byte (xs ++ ys) ≡ map byte xs ++ map byte ys
map-append [] ys = refl
map-append (x ∷ xs) ys = ap (λ l. byte x ∷ l) (map-append xs ys)

-- A logger within a message, with what it holds back.
abbrev pending : Logger → List ℕ → List Piece → Logger
pending l held out = record l { log_partial = true; fp = held; written = out }

abbrev finished : Logger → List Piece → Logger
finished l out = record l { log_partial = false; fp = []; written = out }

write_all-on :
    (l : Logger) (held : List ℕ) (out : List Piece) (ws : List Write)
    → clog_end_log (write_all (pending l held out) ws) ≡ record l {
      log_partial = false;
      fp = [];
      written = out ++ (map byte (held ++ text_of ws) ++ (ending ∷ []));
    }
unfolding clog_end_log write_all write clog_partial_log flush logger_call_write
write_all-on l held out [] = ap (finished l) (simp (append-nil, append_assoc))
write_all-on l held out (partial text ∷ ws) =
    write_all-on l [] ((out ++ map byte held) ++ map byte text) ws
    ∙ ap (finished l) (simp (map-append, append_assoc))
write_all-on l held out (to_fp text false ∷ ws) =
    write_all-on l (held ++ text) out ws ∙ ap (finished l) (simp append_assoc)
write_all-on l held out (to_fp text true ∷ ws) =
    write_all-on l [] (out ++ map byte (held ++ text)) ws
    ∙ ap (finished l) (simp (map-append, append_assoc))

write_all-off :
    (l : Logger) (held : List ℕ) (ws : List Write)
    → clog_end_log (write_all (record l { log_partial = false; fp = held }) ws)
      ≡ record l { log_partial = false; fp = [] }
unfolding clog_end_log write_all write clog_partial_log flush logger_call_write
write_all-off l held [] = refl
write_all-off l held (partial text ∷ ws) = write_all-off l held ws
write_all-off l held (to_fp text false ∷ ws) = write_all-off l (held ++ text) ws
write_all-off l held (to_fp text true ∷ ws) = write_all-off l [] ws

-- The logger with one message more, if that is at its level or above.
abbrev pub with_message : Logger → ℤ → List ℕ → Logger
with_message l level text = record l {
  written =
      if leb_ℤ l.min_level level
      then l.written ++ (leader level ∷ map byte text ++ (ending ∷ []))
      else l.written;
}

abbrev quiet : Logger → Logger
quiet l = record l { log_partial = false; fp = [] }

quiet-log_message :
    (l : Logger) (level : ℤ) (ws : List Write)
    → log_message (quiet l) level ws ≡ with_message (quiet l) level (text_of ws)
unfolding clog_start_log
quiet-log_message l level ws = elim (Bool-cases (leb_ℤ l.min_level level)) [
  | inl on ↦ rw on (
      write_all-on l [] (l.written ++ (leader level ∷ [])) ws ∙ ap (finished l) (simp append_assoc))
  | inr below ↦ rw below (write_all-off l [] ws)
]

quiet-clog_log :
    (l : Logger) (level : ℤ) (text : List ℕ)
    → clog_log (quiet l) level text ≡ with_message (quiet l) level text
unfolding clog_start_log clog_log vlog clog_end_log flush logger_call_write
quiet-clog_log l level text = elim (Bool-cases (leb_ℤ l.min_level level)) [
  | inl on ↦ rw (on, clog_log) (ap (finished l) (simp (append_assoc, append-nil)))
  | inr below ↦ rw below refl
]

-- Take a logger between two messages, which holds nothing back. A message that is started at its
-- level or above, printed to in any mixture of the two ways, with the stream passing its bytes on
-- early or not, and ended, comes out as a leader, all that was printed in the order of the calls, and
-- an ending; a message below the level leaves no trace. Either way the logger is between two messages
-- again. `clog_log` writes its text the same way.
pub log_message_lem :
    (l : Logger) (level : ℤ) (ws : List Write)
    → l.log_partial ≡ false
    → l.fp ≡ []
    → (log_message l level ws ≡ with_message l level (text_of ws))
      × ((text : List ℕ) → clog_log l level text ≡ with_message l level text)
log_message_lem l level ws off empty =
    subst
      (λ k.
        (log_message k level ws ≡ with_message k level (text_of ws))
        × ((text : List ℕ) → clog_log k level text ≡ with_message k level text))
      (sym same) (quiet-log_message l level ws, quiet-clog_log l level)
  where
    same : l ≡ quiet l
    same =
        ap (λ b. record l { log_partial = b }) off
        ∙ ap (λ held. record l { log_partial = false; fp = held }) empty
