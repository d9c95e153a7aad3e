-- ===== src/Clog/Tests.antt =====
-- A logger of src/logger/clog.c at the level WARN.
use tangent.Base.{ℕ, ◌≡◌, refl, true, false, List, [], ◌∷◌}
use tangent.Base.Int.{pos}
use tangent.Clog.{Logger, leader, Write, partial, to_fp, log_message, clog_log, Timespec}
use tangent.Clog.Message.{text_of, with_message, log_message_lem}

abbrev logger : Logger
logger = record { min_level = pos 3; log_partial = false; fp = []; written = leader (pos 5) ∷ [] }

abbrev writes : List Write
writes = partial (1 ∷ []) ∷ to_fp (2 ∷ 3 ∷ []) false ∷ to_fp (4 ∷ []) true ∷ partial (5 ∷ []) ∷ []

log_message_lem_example :
    (log_message logger (pos 4) writes ≡ with_message logger (pos 4) (text_of writes))
    × ((text : List ℕ) → clog_log logger (pos 4) text ≡ with_message logger (pos 4) text)
log_message_lem_example = log_message_lem logger (pos 4) writes refl refl

abbrev first_reading : Timespec
first_reading = record { tv_sec = 10; tv_nsec = 900000000 }

abbrev second_reading : Timespec
second_reading = record { tv_sec = 12; tv_nsec = 100500000 }
