-- ===== src/Clog.antt =====
-- src/logger/clog.c and `logger_call_write` of src/logger/file.c: which messages come out, and in which
-- order. What a logger has written is a list of pieces: the leader that `start_msg` writes, bytes, and
-- the end that `end_msg` writes, both of which are set. A formatted text is the list of its bytes. The
-- logger that a NULL argument stands for has been looked up.
pub mod Message
pub mod Offset
pub mod Color
pub mod Level
mod Tests
use tangent.Base.{
  ℕ, ◌+◌, ◌-◌, ◌/◌, ◌%◌, Bool, true, false, ◌&&◌, Option, none, some, List, [], ◌∷◌, ◌++◌, map,
  ◌==◌, if◌then◌else◌,
}
use tangent.Base.Int.{ℤ, pos, negsuc, sub_ℕ, ◌+ℤ◌, ◌-ℤ◌, ltb_ℤ, leb_ℤ}

pub data Piece : Type 0 where
  leader : ℤ → Piece
  byte : ℕ → Piece
  ending : Piece

-- `fp` is what the stream of `fopencookie` holds back.
pub record Logger : Type 0 where
  pub min_level : ℤ
  pub log_partial : Bool
  pub fp : List ℕ
  pub written : List Piece

abbrev pub emit : Logger → List Piece → Logger
emit l pieces = record l { written = l.written ++ pieces }

unfoldable pub logger_call_write : Logger → List ℕ → Logger
logger_call_write l buf = if l.log_partial then emit l (map byte buf) else l

-- `fflush(l->fp)`.
unfoldable pub flush : Logger → Logger
flush l = record (logger_call_write l l.fp) { fp = [] }

unfoldable pub clog_start_log : Logger → ℤ → Logger
clog_start_log l level =
    if leb_ℤ l.min_level level
    then emit (record l { log_partial = true }) (leader level ∷ [])
    else l

unfoldable pub clog_partial_log : Logger → List ℕ → Logger
clog_partial_log l text = if l.log_partial then emit (flush l) (map byte text) else l

unfoldable pub clog_end_log : Logger → Logger
clog_end_log l =
    let f = flush l in
    if f.log_partial then record (emit f (ending ∷ [])) { log_partial = false } else f

unfoldable pub vlog : Logger → ℤ → List ℕ → Logger
vlog l level text = clog_end_log (emit (clog_start_log l level) (map byte text))

unfoldable pub clog_log : Logger → ℤ → List ℕ → Logger
clog_log l level text = if leb_ℤ l.min_level level then vlog l level text else l

-- One write to a message that was started: `PartialLog`, or a print to `l->fp` after which the stream
-- may pass its bytes on of itself.
pub data Write : Type 0 where
  partial : List ℕ → Write
  to_fp : List ℕ → Bool → Write

unfoldable pub write : Logger → Write → Logger
write l (partial text) = clog_partial_log l text
write l (to_fp text early) =
    let held : Logger = record l { fp = l.fp ++ text } in if early then flush held else held

unfoldable pub write_all : Logger → List Write → Logger
write_all l [] = l
write_all l (w ∷ ws) = write_all (write l w) ws

-- `StartLog(level); ...; EndLog();`.
abbrev pub log_message : Logger → ℤ → List Write → Logger
log_message l level ws = clog_end_log (write_all (clog_start_log l level) ws)

-- A `timespec`.
pub record Timespec : Type 0 where
  pub tv_sec : ℕ
  pub tv_nsec : ℕ

-- The last line of `clog_time_offset`, on a `long`, whose division goes towards 0.
unfoldable pub to_msec : ℤ → ℤ
to_msec (pos n) = pos ((n - n % 1000000) / 1000000)
to_msec (negsuc n) = sub_ℕ 0 ((n + 1 - (n + 1) % 1000000) / 1000000)

-- The difference of two readings of the clock, as seconds and milliseconds.
unfoldable pub time_diff : Timespec → Timespec → ℤ × ℤ
time_diff start_time current_time =
    let sec = pos current_time.tv_sec -ℤ pos start_time.tv_sec in
    let nsec = pos current_time.tv_nsec -ℤ pos start_time.tv_nsec in
    if ltb_ℤ nsec (pos 0)
    then (sec -ℤ pos 1, to_msec (nsec +ℤ pos 1000000000))
    else (sec, to_msec nsec)

-- `clock` is what `clock_gettime` reads; the results are `start_time` behind the call, and the
-- difference unless the call failed.
unfoldable pub clog_time_offset : Timespec → Option Timespec → Timespec × Option (ℤ × ℤ)
clog_time_offset start_time none = (start_time, none)
clog_time_offset start_time (some now) =
    if start_time.tv_sec == 0 && start_time.tv_nsec == 0
    then (now, some (time_diff now now))
    else (start_time, some (time_diff start_time now))
