-- ===== src/Syslog.antt =====
-- The system log of src/sys/syslogger.cpp and include/nanonet/sys/syslogger.h: priorities and their
-- names, and the writer under a syslogger's stream. What was given to `syslog` and what the echo stream
-- has are lists; the time on an echoed line is a text that is given, or none for a negative time.
pub mod Names
pub mod Levels
pub mod Buffering
pub mod Settings
use nanonet.Common.{
  ℕ, zero, suc, Option, none, some, List, [], ◌∷◌, ◌++◌, get_elem?, leb, if◌then◌else◌, Bytes,
  length, take, equal, codes, Outcome, ok, throws, ◌-◌, ltb, ◌==◌,
}
use nanonet.Lexer.{is_space}

pub data Prio : Type 0 where
  emerg alert crit err warning notice info debug : Prio

abbrev pub default_prio : Prio
default_prio = info

-- `static_cast< int >( p )`, and back.
abbrev pub level : Prio → ℕ
level emerg = 0
level alert = 1
level crit = 2
level err = 3
level warning = 4
level notice = 5
level info = 6
level debug = 7

abbrev pub from_level : ℕ → Prio
from_level zero = emerg
from_level (suc zero) = alert
from_level (suc (suc zero)) = crit
from_level (suc (suc (suc zero))) = err
from_level (suc (suc (suc (suc zero)))) = warning
from_level (suc (suc (suc (suc (suc zero))))) = notice
from_level (suc (suc (suc (suc (suc (suc zero)))))) = info
from_level (suc (suc (suc (suc (suc (suc (suc n))))))) = debug

abbrev pub prionames : List Bytes
prionames =
    codes "EMERGENCY"
    ∷ codes "ALERT"
    ∷ codes "CRITICAL"
    ∷ codes "ERROR"
    ∷ codes "WARNING"
    ∷ codes "NOTICE"
    ∷ codes "INFO"
    ∷ codes "DEBUG"
    ∷ []

-- `prionames[ n ]`, where there is such a name.
name_at : Option Bytes → Bytes
name_at none = []
name_at (some name) = name

unfoldable pub to_string : Prio → Bytes
unfolding name_at
to_string p = name_at (get_elem? prionames (level p))

find_prio : Bytes → ℕ → List Bytes → Outcome Bytes Prio
find_prio s i [] = throws s
find_prio s i (name ∷ names) =
    let rest = find_prio s (suc i) names in if equal s name then ok (from_level i) else rest

-- The exception names the string.
unfoldable pub prio_from_string : Bytes → Outcome Bytes Prio
unfolding find_prio
prio_from_string s = find_prio s 0 prionames

pub record SyslogWriter : Type 0 where
  pub tag : Bytes
  pub minlevel_syslog : Prio
  pub minlevel_echo : Prio
  pub currlevel : Prio
  -- The echo stream, if there is one.
  pub echo : Option Bytes
  -- What `syslog` was called with, the latest last.
  pub logged : List (Prio × Bytes)

abbrev pub tag_of : Bytes → Bytes
tag_of [] = []
tag_of (c ∷ cs) = (c ∷ cs) ++ b' ' ∷ []

unfoldable pub syslog_writer : Bytes → Option Bytes → SyslogWriter
syslog_writer tag echo = record {
  tag = tag_of tag;
  minlevel_syslog = default_prio;
  minlevel_echo = default_prio;
  currlevel = default_prio;
  echo = echo;
  logged = [];
}

-- `while( last >= 1 && std::isspace( buf[ last - 1 ] ) ) { --last ; }`
pub last_of : Bytes → ℕ → ℕ
last_of buf zero = zero
last_of buf (suc i) =
    let shorter = last_of buf i in
    elim (get_elem? buf i) [ none ↦ suc i | some c ↦ if is_space c then shorter else suc i ]

pub text_of : Bytes → Bytes
unfolding last_of
text_of buf = take (last_of buf (length buf)) buf

-- `tag (PRIORITY) text`
unfoldable pub line_of : Bytes → Prio → Bytes → Bytes
unfolding to_string
line_of tag p text = tag ++ (b'(' ∷ (to_string p ++ (b')' ∷ (b' ' ∷ text))))

unfoldable pub echo_line : Option Bytes → Bytes → Prio → Bytes → Bytes
unfolding line_of
echo_line none tag p text = line_of tag p text ++ b'\n' ∷ []
echo_line (some time) tag p text = time ++ (b' ' ∷ (line_of tag p text ++ b'\n' ∷ []))

echoed : Option Bytes → SyslogWriter → Bytes → Option Bytes → Option Bytes
unfolding echo_line
echoed time w text none = none
echoed time w text (some sent) =
    if leb (level w.currlevel) (level w.minlevel_echo)
    then some (sent ++ echo_line time w.tag w.currlevel text)
    else some sent

-- `syslog_writer::write( buf , n )`, with its result.
unfoldable pub write : Option Bytes → Bytes → SyslogWriter → SyslogWriter × ℕ
unfolding echoed text_of line_of
write time buf w = (
  record w {
    logged =
        if leb (level w.currlevel) (level w.minlevel_syslog)
        then w.logged ++ (w.currlevel, line_of w.tag w.currlevel (text_of buf)) ∷ []
        else w.logged;
    echo = echoed time w (text_of buf) w.echo;
    currlevel = default_prio;
  },
  length buf,
)

-- `os << p`, where it is given, and then a text that is flushed.
abbrev pub Message : Type 0
Message = Option Prio × Bytes

-- The size of the buffer of a syslogger.
abbrev pub buffer_size : ℕ
buffer_size = 1024

-- What reaches `write` of a text, with what the ostreambuf holds: it writes whenever its buffer is full,
-- and at the flush unless it is empty.
unfoldable pub buffered : Bytes → Bytes → List Bytes
buffered pending [] = if length pending == 0 then [] else pending ∷ []
buffered pending (c ∷ cs) =
    let written = buffered [] cs in
    let stored = buffered (pending ++ c ∷ []) cs in
    if ltb (length pending) (buffer_size - 1) then stored else (pending ++ c ∷ []) ∷ written

unfoldable pub write_parts : Option Bytes → List Bytes → SyslogWriter → SyslogWriter
unfolding write
write_parts time [] w = w
write_parts time (part ∷ parts) w = write_parts time parts (write time part w).0

unfoldable pub send : Option Bytes → Message → SyslogWriter → SyslogWriter
unfolding write_parts buffered
send time (none, text) w = write_parts time (buffered [] text) w
send time (some p, text) w = write_parts time (buffered [] text) (record w { currlevel = p })
