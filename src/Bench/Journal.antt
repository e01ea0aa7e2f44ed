-- ===== src/Bench/Journal.antt =====
-- A journal's file (crates/metralectl-agent/src/bench/journal.rs): opening it, writing a line, and
-- reading the events back from a number on.
pub mod Laws
mod Tests
use metralectl.Prelude.{
  ℕ, suc, ◌+◌, Bool, true, false, List, [], ◌∷◌, ◌++◌, map, Option, none, some, String,
}
use metralectl.Prelude.{if◌then◌else◌, leb, str_eq, ◌<>◌}
use metralectl.Bench.Job.{BenchEvent, EventKind, FilePath}
use metralectl.Bench.Ports.{Fallible, success, error, u64}

-- A line of the file: its text, or `none` where its bytes are no UTF-8.
abbrev pub Line : Type 0
Line = Option String

-- The file: its lines that end with a newline, and what stands after the last of them.
pub record JournalFile : Type 0 where
  pub lines : List Line
  pub rest : Line

abbrev pub is_empty : Line → Bool
is_empty none = false
is_empty (some t) = str_eq t ""

-- What `lines()` reads.
unfoldable pub read_lines : JournalFile → List Line
read_lines f = if is_empty f.rest then f.lines else f.lines ++ (f.rest ∷ [])

-- What the loop of `replay` finds in a line.
pub data Found : Type 0 where
  unreadable : Found
  unparsed : Found
  found : BenchEvent → Found

abbrev pub kept : ℕ → BenchEvent → Fallible (List BenchEvent) → Fallible (List BenchEvent)
kept from e (success es) = success (if leb from e.seq then e ∷ es else es)
kept from e (error why) = error why

-- `last().map_or(0, |e| e.seq)`.
abbrev pub last_seq : List BenchEvent → ℕ
last_seq [] = 0
last_seq (e ∷ []) = e.seq
last_seq (e ∷ f ∷ es) = last_seq (f ∷ es)

abbrev pub opened : Fallible (List BenchEvent) → Fallible ℕ
opened (success es) = success (last_seq es)
opened (error why) = error why

-- `parse` is `serde_json::from_str`, `none` for its error, and `print` `serde_json::to_vec`.
module _ (parse : String → Option BenchEvent) (print : BenchEvent → String) (path : FilePath) where
  abbrev pub parsed_as : Option BenchEvent → Found
  parsed_as none = Found.unparsed
  parsed_as (some e) = Found.found e

  abbrev pub found_in : Line → Found
  found_in none = Found.unreadable
  found_in (some t) = parsed_as (parse t)

  -- The loop of `replay` over the lines, each by what is found in it.
  unfoldable pub replay_lines : ℕ → List Found → Fallible (List BenchEvent)
  replay_lines from [] = success []
  replay_lines from (Found.found e ∷ lines) = kept from e (replay_lines from lines)
  replay_lines from (Found.unreadable ∷ lines) = error "stream did not contain valid UTF-8"
  replay_lines from (Found.unparsed ∷ []) = success []
  replay_lines from (Found.unparsed ∷ line ∷ lines) = error (path <> " is corrupt")

  unfoldable pub replay : JournalFile → ℕ → Fallible (List BenchEvent)
  unfolding replay_lines read_lines
  replay f from = replay_lines from (map found_in (read_lines f))

  -- The counter that `open` resumes.
  unfoldable pub open_at : JournalFile → Fallible ℕ
  unfolding replay
  open_at f = opened (replay f 0)

  -- The event's text behind what stands at the end of the file: bytes that are no UTF-8 stay so.
  abbrev pub behind : Line → String → Line
  behind none t = none
  behind (some rest) t = some (rest <> t)

  -- The line that `append` writes at the end of the file.
  unfoldable pub write_line : BenchEvent → JournalFile → JournalFile
  write_line e f = record { lines = f.lines ++ (behind f.rest (print e) ∷ []); rest = some "" }
