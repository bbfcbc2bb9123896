-- ===== src/Syslog/Buffering.antt =====
-- What the messages of a syslogger of src/sys/syslogger.cpp become when its buffer is full.
use nanonet.Common.{
  ◌≡◌, ◌≢◌, ◌<◌, ◌≤◌, ◌-◌, ◌==◌, refl, sym, ap, ◌∙◌, arith, Option, none, some, List, [], ◌∷◌, ◌++◌,
  append_assoc, map, length, length-append, ltb, Bytes, All, Bool-cases, inl, inr, nil_of_length,
}
use nanonet.Syslog.{
  Prio, default_prio, SyslogWriter, write, Message, buffer_size, buffered, write_parts, send,
}
use nanonet.Syslog.Levels.{send_parts, send_part, concat, selected, passed_on, send_parts-passed_on}

-- One message after the other.
unfoldable pub send_all : Option Bytes → List Message → SyslogWriter → SyslogWriter
unfolding send
send_all time [] w = w
send_all time (m ∷ ms) w = send_all time ms (send time m w)

-- The parts of a message: the first has its priority, and the others have none.
abbrev pub labelled : Option Prio → List Bytes → List Message
labelled p [] = []
labelled p (part ∷ parts) = (p, part) ∷ map (λ l. (none, l)) parts

abbrev pub all_parts : List Message → List Message
all_parts [] = []
all_parts ((p, text) ∷ ms) = labelled p (buffered [] text) ++ all_parts ms

-- Every part fills the buffer but the last, which is not empty.
abbrev pub IsCut : List Bytes → Type 0
IsCut [] = Unit {0}
IsCut (part ∷ []) = (0 < length part) × (length part ≤ buffer_size)
IsCut (part ∷ next ∷ parts) = (length part ≡ buffer_size) × IsCut (next ∷ parts)

IsCut-cons :
    (part : Bytes) (parts : List Bytes)
    → length part ≡ buffer_size
    → IsCut parts
    → IsCut (part ∷ parts)
IsCut-cons part [] full h = (omega (arith, full), omega (arith, full))
IsCut-cons part (next ∷ parts) full h = (full, h)

buffered-IsCut :
    (pending text : Bytes)
    → length pending < buffer_size
    → (concat (buffered pending text) ≡ pending ++ text) × IsCut (buffered pending text)
unfolding buffered
buffered-IsCut pending [] room = elim (Bool-cases (length pending == 0)) [
  | inl nothing ↦
      rw nothing (ap (λ l. l ++ []) (sym (nil_of_length pending (ground (arith, nothing)))), tt)
  | inr more ↦ rw more (refl, (ground (arith, more), omega (arith, room)))
]
buffered-IsCut pending (c ∷ cs) room =
    let longer = length-append pending (c ∷ []) in
    elim (Bool-cases (ltb (length pending) (buffer_size - 1))) [
      | inl free ↦
          let (same, cut) = buffered-IsCut (pending ++ c ∷ []) cs (ground (arith, free, longer)) in
          rw free (same ∙ append_assoc pending (c ∷ []) cs, cut)
      | inr full ↦
          let (same, cut) = buffered-IsCut [] cs (omega arith) in
          rw full (
            ap (λ l. (pending ++ c ∷ []) ++ l) same ∙ append_assoc pending (c ∷ []) cs,
            IsCut-cons (pending ++ c ∷ []) (buffered [] cs) (ground (arith, full, longer, room))
                cut,
          )
    ]

write_parts-send_parts :
    (time : Option Bytes) (parts : List Bytes) (w : SyslogWriter)
    → write_parts time parts w ≡ send_parts time (map (λ l. (none, l)) parts) w
unfolding write_parts send_parts
write_parts-send_parts time [] w = refl
write_parts-send_parts time (part ∷ parts) w =
    write_parts-send_parts time parts (write time part w).0

labelled-send_parts :
    (time : Option Bytes) (p : Option Prio) (text : Bytes) (parts : List Bytes) (w : SyslogWriter)
    → buffered [] text ≡ parts
    → parts ≢ []
    → send time (p, text) w ≡ send_parts time (labelled p parts) w
unfolding send write_parts send_parts
labelled-send_parts time p text [] w e some_part = absurd (some_part refl)
labelled-send_parts time none text (part ∷ parts) w e some_part =
    rw e (write_parts-send_parts time parts (write time part w).0)
labelled-send_parts time (some p) text (part ∷ parts) w e some_part =
    rw e (write_parts-send_parts time parts (write time part (record w { currlevel = p })).0)

send_parts-append :
    (time : Option Bytes) (ms ns : List Message) (w : SyslogWriter)
    → send_parts time (ms ++ ns) w ≡ send_parts time ns (send_parts time ms w)
unfolding send_parts
send_parts-append time [] ns w = refl
send_parts-append time (m ∷ ms) ns w = send_parts-append time ms ns (send_part time m w)

some_part_of : (text : Bytes) → text ≢ [] → buffered [] text ≢ []
some_part_of text some_text e =
    some_text (sym (buffered-IsCut [] text (omega arith)).0 ∙ ap concat e)

send_all-send_parts :
    (time : Option Bytes) (ms : List Message) (w : SyslogWriter)
    → All (λ m. m.1 ≢ []) ms
    → send_all time ms w ≡ send_parts time (all_parts ms) w
unfolding send_all
send_all-send_parts time [] w h = unfold send_parts in refl
send_all-send_parts time ((p, text) ∷ ms) w (h, hs) =
    ap (send_all time ms)
      (labelled-send_parts time p text (buffered [] text) w refl (some_part_of text h))
    ∙ send_all-send_parts time ms _ hs
    ∙ sym (send_parts-append time (labelled p (buffered [] text)) (all_parts ms) w)

-- Whatever texts, none of them empty, are sent to a syslogger at its default priority and flushed, its
-- writer is given each in parts that join to it: as large as the buffer, but the last, which is not
-- empty. `syslog` is called with exactly the parts at least as urgent as `minlevel_syslog`, and the echo
-- stream, if there is one, has a line for exactly those at least as urgent as `minlevel_echo`, in their
-- order and with the white space at their ends removed. The first part of a text has the text's own
-- priority or, where none is given, the default, and the others have the default one, whatever the
-- messages before had. The levels and the tag stay.
pub send_all-passed_on :
    (time : Option Bytes) (ms : List Message) (w : SyslogWriter)
    → w.currlevel ≡ default_prio
    → All (λ m. m.1 ≢ []) ms
    → ((text : Bytes) → (concat (buffered [] text) ≡ text) × IsCut (buffered [] text))
      × (send_all time ms w
          ≡ passed_on time
              (selected w.minlevel_syslog (all_parts ms))
              (selected w.minlevel_echo (all_parts ms))
              w)
send_all-passed_on time ms w level h = (
  λ text. buffered-IsCut [] text (omega arith),
  send_all-send_parts time ms w h ∙ send_parts-passed_on time (all_parts ms) w level,
)
