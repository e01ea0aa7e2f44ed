-- ===== src/Bench/Journal/Tests.antt =====
-- Journals of two events, whole and torn, and the theorems at them.
use metralectl.Prelude.{ℕ, ◌≡◌, refl, inr, none, some, [], ◌∷◌, String, Option, if◌then◌else◌}
use metralectl.Prelude.{str_eq, ◌<>◌, ◌==◌, arith}
use metralectl.Bench.Job.{BenchEvent, EventKind}
use metralectl.Bench.Ports.{success, error}
use metralectl.Bench.Journal.{Line, JournalFile, replay, open_at, write_line}
use metralectl.Bench.Journal.Laws.{
  Holds, Lists, replay-resumes, replay-unreadable, write_line-Holds, write-torn,
}

abbrev event : ℕ → BenchEvent
event n = record { job = "jb"; seq = n; at_ms = 5; kind = EventKind.queued n }

-- A format for these events alone.
abbrev print : BenchEvent → String
print e = if e.seq == 1 then "1" else if e.seq == 2 then "2" else "3"

abbrev parse : String → Option BenchEvent
parse t =
    if str_eq t "1"
    then some (event 1)
    else if str_eq t "2"
    then some (event 2)
    else if str_eq t "3"
    then some (event 3)
    else none

abbrev file : Line → JournalFile
file rest = record { lines = some "1" ∷ some "2" ∷ []; rest = rest }

listed : (rest : Line) → Lists parse print "j" (file rest) (event 1 ∷ event 2 ∷ [])
listed rest = record { whole = refl; numbered = (refl, (refl, tt)); parsed = (refl, (refl, tt)) }

torn : Holds parse print "j" (file (some "{")) (event 1 ∷ event 2 ∷ [])
torn = record { listed = listed (some "{"); tail = "{"; torn = (refl, inr refl) }

replay-resumes_example : replay parse print "j" (file (some "{")) 2 ≡ success (event 2 ∷ [])
replay-resumes_example =
    replay-resumes parse print "j" (file (some "{")) (event 1 ∷ []) (event 2 ∷ []) torn

replay-unreadable_example :
    (replay parse print "j" (file none) 1 ≡ error "stream did not contain valid UTF-8")
    × (open_at parse print "j" (file none) ≡ error "stream did not contain valid UTF-8")
replay-unreadable_example =
    replay-unreadable parse print "j" (file none) (event 1 ∷ event 2 ∷ []) 1 (listed none) refl

reads_back : parse (print (event 3)) ≡ some (event 3)
reads_back = refl

torn_text : parse ("{" <> print (event 3)) ≡ none
torn_text = refl

write_line-Holds_example :
    (open_at parse print "j" (file (some "")) ≡ success 2)
    × Holds parse print "j"
        (write_line parse print "j" (event 3) (file (some "")))
        (event 1 ∷ event 2 ∷ event 3 ∷ [])
write_line-Holds_example =
    write_line-Holds parse print "j" (file (some "")) (event 1 ∷ event 2 ∷ []) (event 3)
      (listed (some "")) refl refl (omega arith) reads_back

write-torn_example :
    replay parse print "j"
      (write_line parse print "j"
        (event 3)
        (write_line parse print "j" (event 3) (file (some "{"))))
      1
    ≡ error "j is corrupt"
write-torn_example =
    write-torn parse print "j" (file (some "{")) (event 1 ∷ event 2 ∷ []) (event 3) (event 3) 1 "{"
      (listed (some "{")) refl torn_text reads_back
