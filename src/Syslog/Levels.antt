-- ===== src/Syslog/Levels.antt =====
-- Which messages the writer of src/sys/syslogger.cpp passes on, and at which priority.
use nanonet.Common.{
  ◌≡◌, refl, sym, ap, ◌∙◌, Option, none, some, List, [], ◌∷◌, ◌++◌, append_assoc, append-nil, map,
  leb, if◌then◌else◌, Bool, true, false, Bytes, Bool-cases, inl, inr,
}
use nanonet.Syslog.{
  Prio, default_prio, level, SyslogWriter, text_of, line_of, echo_line, echoed, write, Message,
}

-- A message that is written at once.
unfoldable pub send_part : Option Bytes → Message → SyslogWriter → SyslogWriter
send_part time (none, text) w = (write time text w).0
send_part time (some p, text) w = (write time text (record w { currlevel = p })).0

-- One after the other.
unfoldable pub send_parts : Option Bytes → List Message → SyslogWriter → SyslogWriter
unfolding send_part
send_parts time [] w = w
send_parts time (m ∷ ms) w = send_parts time ms (send_part time m w)

-- The priority of a message: its own, or the default.
abbrev pub prio_of : Option Prio → Prio
prio_of none = default_prio
prio_of (some p) = p

-- The messages whose priority is at least as urgent as a given one, in their order.
pub selected : Prio → List Message → List (Prio × Bytes)
selected min [] = []
selected min ((p, text) ∷ ms) =
    if leb (level (prio_of p)) (level min)
    then (prio_of p, text_of text) ∷ selected min ms
    else selected min ms

-- What a text on the echo stream becomes.
abbrev pub more : Option Bytes → Bytes → Option Bytes
more none text = none
more (some sent) text = some (sent ++ text)

abbrev pub concat : List Bytes → Bytes
concat [] = []
concat (l ∷ ls) = l ++ concat ls

pub syslog_lines : Bytes → List (Prio × Bytes) → List (Prio × Bytes)
syslog_lines tag ms = map (λ m. (m.0, line_of tag m.0 m.1)) ms

pub echo_lines : Option Bytes → Bytes → List (Prio × Bytes) → Bytes
echo_lines time tag ms = concat (map (λ m. echo_line time tag m.0 m.1) ms)

-- The writer when some messages were passed on to the log and some to the echo stream.
abbrev pub passed_on :
    Option Bytes → List (Prio × Bytes) → List (Prio × Bytes) → SyslogWriter → SyslogWriter
passed_on time to_log to_echo w = record w {
  logged = w.logged ++ syslog_lines w.tag to_log;
  echo = more w.echo (echo_lines time w.tag to_echo);
  currlevel = default_prio;
}

selected-cons :
    (min : Prio) (m : Message) (ms : List Message)
    → selected min (m ∷ ms) ≡ selected min (m ∷ []) ++ selected min ms
unfolding selected
selected-cons min (p, text) ms = elim (Bool-cases (leb (level (prio_of p)) (level min))) [
  | inl urgent ↦ rw urgent refl
  | inr other ↦ rw other refl
]

syslog_lines-append :
    (tag : Bytes) (a b : List (Prio × Bytes))
    → syslog_lines tag (a ++ b) ≡ syslog_lines tag a ++ syslog_lines tag b
unfolding syslog_lines
syslog_lines-append tag [] b = refl
syslog_lines-append tag ((p, text) ∷ a) b =
    ap (λ l. (p, line_of tag p text) ∷ l) (syslog_lines-append tag a b)

echo_lines-append :
    (time : Option Bytes) (tag : Bytes) (a b : List (Prio × Bytes))
    → echo_lines time tag (a ++ b) ≡ echo_lines time tag a ++ echo_lines time tag b
unfolding echo_lines
echo_lines-append time tag [] b = refl
echo_lines-append time tag ((p, text) ∷ a) b =
    ap (λ l. echo_line time tag p text ++ l) (echo_lines-append time tag a b)
    ∙ sym (append_assoc (echo_line time tag p text) _ _)

more_twice : (e : Option Bytes) (a b : Bytes) → more (more e a) b ≡ more e (a ++ b)
more_twice none a b = refl
more_twice (some sent) a b = ap some (append_assoc sent a b)

more_nothing : (e : Option Bytes) → more e [] ≡ e
more_nothing none = refl
more_nothing (some sent) = ap some (append-nil sent)

passed_on_twice :
    (time : Option Bytes) (a b c d : List (Prio × Bytes)) (w : SyslogWriter)
    → passed_on time c d (passed_on time a b w) ≡ passed_on time (a ++ c) (b ++ d) w
passed_on_twice time a b c d w =
    ap
      (λ l. record w {
        logged = l;
        echo = more (more w.echo (echo_lines time w.tag b)) (echo_lines time w.tag d);
        currlevel = default_prio;
      })
      (append_assoc w.logged (syslog_lines w.tag a) (syslog_lines w.tag c)
        ∙ ap (λ l. w.logged ++ l) (sym (syslog_lines-append w.tag a c)))
    ∙ ap
        (λ e. record w {
          logged = w.logged ++ syslog_lines w.tag (a ++ c);
          echo = e;
          currlevel = default_prio;
        })
        (more_twice w.echo _ _ ∙ ap (more w.echo) (sym (echo_lines-append time w.tag b d)))

logged_if :
    (b : Bool) (before : List (Prio × Bytes)) (tag text : Bytes) (p : Prio)
    → (if b then before ++ (p, line_of tag p text) ∷ [] else before)
      ≡ before ++ syslog_lines tag (if b then (p, text) ∷ [] else [])
unfolding syslog_lines
logged_if true before tag text p = refl
logged_if false before tag text p = sym (append-nil before)

echoed_if :
    (time : Option Bytes) (w : SyslogWriter) (text : Bytes) (e : Option Bytes)
    → echoed time w text e
      ≡ more e (
          echo_lines time w.tag (
            if leb (level w.currlevel) (level w.minlevel_echo)
            then (w.currlevel, text) ∷ []
            else []))
unfolding echoed echo_lines
echoed_if time w text none = refl
echoed_if time w text (some sent) =
    elim (Bool-cases (leb (level w.currlevel) (level w.minlevel_echo))) [
      | inl urgent ↦
          rw urgent
            (ap (λ l. some (sent ++ l)) (sym (append-nil (echo_line time w.tag w.currlevel text))))
      | inr other ↦ rw other (ap some (sym (append-nil sent)))
    ]

write-passed_on :
    (time : Option Bytes) (text : Bytes) (w : SyslogWriter)
    → (write time text w).0
      ≡ passed_on time
          (selected w.minlevel_syslog ((some w.currlevel, text) ∷ []))
          (selected w.minlevel_echo ((some w.currlevel, text) ∷ []))
          w
unfolding write selected
write-passed_on time text w =
    ap
      (λ l. record w {
        logged = l;
        echo = echoed time w (text_of text) w.echo;
        currlevel = default_prio;
      })
      (logged_if (leb (level w.currlevel) (level w.minlevel_syslog)) w.logged w.tag (text_of text)
        w.currlevel)
    ∙ ap
        (λ e. record w {
          logged =
              w.logged
              ++ syslog_lines w.tag (selected w.minlevel_syslog ((some w.currlevel, text) ∷ []));
          echo = e;
          currlevel = default_prio;
        })
        (echoed_if time w (text_of text) w.echo)

send_part-passed_on :
    (time : Option Bytes) (m : Message) (w : SyslogWriter)
    → w.currlevel ≡ default_prio
    → send_part time m w
      ≡ passed_on time (selected w.minlevel_syslog (m ∷ [])) (selected w.minlevel_echo (m ∷ [])) w
unfolding send_part selected
send_part-passed_on time (none, text) w e =
    write-passed_on time text w
    ∙ ap
        (λ p.
          passed_on time (selected w.minlevel_syslog ((some p, text) ∷ []))
            (selected w.minlevel_echo ((some p, text) ∷ [])) w)
        e
send_part-passed_on time (some p, text) w e = write-passed_on time text (record w { currlevel = p })

nothing_passed_on :
    (time : Option Bytes) (w : SyslogWriter)
    → w.currlevel ≡ default_prio
    → w ≡ passed_on time [] [] w
unfolding syslog_lines echo_lines
nothing_passed_on time w e =
    ap (λ p. record w { currlevel = p }) e
    ∙ ap (λ l. record w { logged = l; currlevel = default_prio }) (sym (append-nil w.logged))
    ∙ ap (λ x. record w { logged = w.logged ++ []; echo = x; currlevel = default_prio })
        (sym (more_nothing w.echo))

-- What parts that are each written at once become.
pub send_parts-passed_on :
    (time : Option Bytes) (ms : List Message) (w : SyslogWriter)
    → w.currlevel ≡ default_prio
    → send_parts time ms w
      ≡ passed_on time (selected w.minlevel_syslog ms) (selected w.minlevel_echo ms) w
unfolding send_parts
send_parts-passed_on time [] w e = unfold selected in nothing_passed_on time w e
send_parts-passed_on time (m ∷ ms) w e =
    let w' : SyslogWriter =
      passed_on time (selected w.minlevel_syslog (m ∷ [])) (selected w.minlevel_echo (m ∷ [])) w in
    ap (send_parts time ms) (send_part-passed_on time m w e)
    ∙ send_parts-passed_on time ms w' refl
    ∙ passed_on_twice time _ _ _ _ w
    ∙ ap
        (λ l. passed_on time l (selected w.minlevel_echo (m ∷ []) ++ selected w.minlevel_echo ms) w)
        (sym (selected-cons w.minlevel_syslog m ms))
    ∙ ap (λ l. passed_on time (selected w.minlevel_syslog (m ∷ ms)) l w)
        (sym (selected-cons w.minlevel_echo m ms))
