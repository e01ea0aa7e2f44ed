-- ===== src/Bench/Journal/Laws.antt =====
-- What a reader of a journal gets back, and what a torn line does to it
-- (crates/metralectl-agent/src/bench/journal.rs).
use metralectl.Prelude.{
  ℕ, suc, ◌+◌, ◌^◌, ◌≤◌, ◌<◌, ◌≡◌, ◌⊎◌, ◌∙◌, inl, inr, refl, sym, ap, subst, true, false, List, [],
  ◌∷◌, ◌++◌, map,
}
use metralectl.Prelude.{
  Option, none, some, String, leb, ◌<>◌, length, filter, filter-eq_self, All, All-tabulate,
  All-append, arith,
}
use metralectl.Prelude.{map-append, append-nil, append_assoc, nil-joined, Bool-cases}
use metralectl.Bench.Job.{BenchEvent, FilePath}
use metralectl.Bench.Ports.{success, error, u64}
use metralectl.Bench.Journal.{
  Line, Found, is_empty, parsed_as, found_in, behind, JournalFile, read_lines, replay_lines, replay,
  last_seq, opened, open_at, write_line,
}

-- Events numbered one by one from `n` on.
abbrev pub IsNumbered : ℕ → List BenchEvent → Type 0
IsNumbered n [] = Unit
IsNumbered n (e ∷ es) = (e.seq ≡ suc n) × IsNumbered (suc n) es

IsNumbered-above :
    (m n : ℕ) (es : List BenchEvent)
    → IsNumbered n es
    → m ≤ n
    → All (λ e. leb (suc m) e.seq ≡ true) es
IsNumbered-above m n [] h le = tt
IsNumbered-above m n (e ∷ es) (at, h) le =
    (ground arith, IsNumbered-above m (suc n) es h (omega arith))

filter-numbered :
    (m n : ℕ) (seen rest : List BenchEvent)
    → IsNumbered n (seen ++ rest)
    → m ≡ n + length seen
    → filter (λ e. leb (suc m) e.seq) (seen ++ rest) ≡ rest
filter-numbered m n [] rest h e = filter-eq_self _ rest (IsNumbered-above m n rest h (omega arith))
filter-numbered m n (x ∷ seen) rest (at, h) e =
    let later = filter-numbered m (suc n) seen rest h (omega arith) in
    let old : leb (suc m) x.seq ≡ false = ground arith in rw (old, later) refl

last_seq-numbered :
    (n : ℕ) (e : BenchEvent) (es : List BenchEvent)
    → IsNumbered n (e ∷ es)
    → last_seq (e ∷ es) ≡ suc n + length es
last_seq-numbered n e [] (at, h) = omega arith
last_seq-numbered n e (f ∷ es) (at, h) = omega (arith, last_seq-numbered (suc n) f es h)

IsNumbered-append :
    (n : ℕ) (es : List BenchEvent) (e : BenchEvent)
    → IsNumbered n es
    → e.seq ≡ suc (n + length es)
    → IsNumbered n (es ++ (e ∷ []))
IsNumbered-append n [] e h at = (omega arith, tt)
IsNumbered-append n (x ∷ es) e (first, h) at =
    (first, IsNumbered-append (suc n) es e h (omega arith))

module _ (parse : String → Option BenchEvent) (print : BenchEvent → String) (path : FilePath) where
  abbrev lines_of : List BenchEvent → List Line
  lines_of es = map (λ e. some (print e)) es

  abbrev founds : List BenchEvent → List Found
  founds es = map (λ e. Found.found e) es

  abbrev in_line : Line → Found
  in_line = found_in parse print path

  replay-founds :
      (from : ℕ) (es : List BenchEvent) (torn : List Found)
      → (torn ≡ []) ⊎ (torn ≡ Found.unparsed ∷ [])
      → replay_lines parse print path from (founds es ++ torn)
        ≡ success (filter (λ e. leb from e.seq) es)
  unfolding replay_lines
  replay-founds from [] torn (inl e) = rw e refl
  replay-founds from [] torn (inr e) = rw e refl
  replay-founds from (x ∷ es) torn h = rw (replay-founds from es torn h) refl

  -- A file of events, the oldest first, each on a line of its own, whatever stands behind them.
  pub record Lists (f : JournalFile) (es : List BenchEvent) : Type 0 where
    pub whole : f.lines ≡ lines_of es
    pub numbered : IsNumbered 0 es
    pub parsed : All (λ e. parse (print e) ≡ some e) es

  -- With nothing behind them, or a fragment of a line that is text.
  pub record Holds (f : JournalFile) (es : List BenchEvent) : Type 0 where
    pub listed : Lists f es
    pub tail : String
    pub torn : (f.rest ≡ some tail) × ((tail ≡ "") ⊎ (parse tail ≡ none))

  parse-print :
      (es : List BenchEvent)
      → All (λ e. parse (print e) ≡ some e) es
      → map in_line (lines_of es) ≡ founds es
  parse-print [] h = refl
  parse-print (e ∷ es) (same, h) = rw (same, parse-print es h) refl

  lines-found :
      (f : JournalFile) (es : List BenchEvent) → Lists f es → map in_line f.lines ≡ founds es
  lines-found f es h = ap (map in_line) h.whole ∙ parse-print es h.parsed

  -- What is read of a file that does not end with a newline.
  read-rest :
      (f : JournalFile) (es : List BenchEvent)
      → Lists f es
      → is_empty f.rest ≡ false
      → map in_line (read_lines f) ≡ founds es ++ (in_line f.rest ∷ [])
  unfolding read_lines
  read-rest f es h dirty = rw dirty (
      map-append in_line f.lines (f.rest ∷ [])
      ∙ ap (λ xs. xs ++ (in_line f.rest ∷ [])) (lines-found f es h))

  lines-read :
      (f : JournalFile) (es : List BenchEvent)
      → Holds f es
      → (torn : List Found) × ((map in_line (read_lines f) ≡ founds es ++ torn)
          × ((torn ≡ []) ⊎ (torn ≡ Found.unparsed ∷ [])))
  unfolding read_lines
  lines-read f es h = elim (Bool-cases (is_empty f.rest)) [
    | inl clean ↦
        ([], (rw clean (lines-found f es h.listed ∙ sym (append-nil (founds es))), inl refl))
    | inr dirty ↦ (
      in_line f.rest ∷ [],
      (read-rest f es h.listed dirty, inr (ap (λ x. x ∷ []) (fragment dirty))),
    )
  ]
    where
      fragment : is_empty f.rest ≡ false → in_line f.rest ≡ Found.unparsed
      fragment dirty = elim h.torn.1 [
        | inl empty ↦
            let full = subst (λ r. is_empty r ≡ false) (h.torn.0 ∙ ap (λ t. some t) empty) dirty in
            absurd (cc)
        | inr torn ↦ ap in_line h.torn.0 ∙ ap (parsed_as parse print path) torn
      ]

  -- From a file of events numbered from 1, each on a line that reads back as it, a reader that saw
  -- the first of them and replays from the next number gets every later event, in order, and none
  -- that it saw, whether or not a torn line follows, as long as what is left of that line is text.
  pub replay-resumes :
      (f : JournalFile) (seen rest : List BenchEvent)
      → Holds f (seen ++ rest)
      → replay parse print path f (suc (length seen)) ≡ success rest
  unfolding replay
  replay-resumes f seen rest h =
      let (torn, (read, tail)) = lines-read f (seen ++ rest) h in
      ap (replay_lines parse print path (suc (length seen))) read
      ∙ replay-founds (suc (length seen)) (seen ++ rest) torn tail
      ∙ ap success (filter-numbered (length seen) 0 seen rest h.listed.numbered (omega arith))

  replay-broken :
      (from : ℕ) (es : List BenchEvent)
      → replay_lines parse print path from (founds es ++ (Found.unreadable ∷ []))
        ≡ error "stream did not contain valid UTF-8"
  unfolding replay_lines
  replay-broken from [] = refl
  replay-broken from (e ∷ es) = rw (replay-broken from es) refl

  -- A journal of events with a last line that was torn inside a character, so that what is left of
  -- it is no UTF-8, can be replayed from no number, and cannot be opened.
  pub replay-unreadable :
      (f : JournalFile) (es : List BenchEvent) (from : ℕ)
      → Lists f es
      → f.rest ≡ none
      → (replay parse print path f from ≡ error "stream did not contain valid UTF-8")
        × (open_at parse print path f ≡ error "stream did not contain valid UTF-8")
  unfolding replay open_at
  replay-unreadable f es from h broken = (fails from, ap opened (fails 0))
    where
      fails : (n : ℕ) → replay parse print path f n ≡ error "stream did not contain valid UTF-8"
      fails n =
          ap (replay_lines parse print path n)
            (read-rest f es h (ap is_empty broken) ∙ ap (λ r. founds es ++ (in_line r ∷ [])) broken)
          ∙ replay-broken n es

  opened-length : (es : List BenchEvent) → IsNumbered 0 es → last_seq es ≡ length es
  opened-length [] h = refl
  opened-length (e ∷ es) h = omega (arith, last_seq-numbered 0 e es h)

  replay-all :
      (f : JournalFile) (es : List BenchEvent)
      → Holds f es
      → replay parse print path f 0 ≡ success es
  unfolding replay
  replay-all f es h =
      let (torn, (read, tail)) = lines-read f es h in
      ap (replay_lines parse print path 0) read
      ∙ replay-founds 0 es torn tail
      ∙ ap success (filter-eq_self _ es (All-tabulate _ es (λ e m. ground arith)))

  -- A journal of events whose file ends with a whole line opens, at the number of its events, and
  -- the event that is appended next, with the number that the counter then gives and a text that
  -- reads back as it, is the next one of a file in order, as long as the counter does not wrap.
  pub write_line-Holds :
      (f : JournalFile) (es : List BenchEvent) (e : BenchEvent)
      → Lists f es
      → f.rest ≡ some ""
      → e.seq ≡ u64 (length es + 1)
      → length es + 1 < 2 ^ 64
      → parse (print e) ≡ some e
      → (open_at parse print path f ≡ success (length es))
        × Holds (write_line parse print path e f) (es ++ (e ∷ []))
  unfolding write_line open_at
  write_line-Holds f es e h clean at fits same =
      let holds : Holds f es = record { listed = h; tail = ""; torn = (clean, inl refl) } in
      (
        ap opened (replay-all f es holds) ∙ ap success (opened-length es h.numbered),
        record {
          listed = record {
            whole =
                ap (λ ls. ls ++ (behind parse print path f.rest (print e) ∷ [])) h.whole
                ∙ ap (λ r. lines_of es ++ (behind parse print path r (print e) ∷ [])) clean
                ∙ ap (λ t. lines_of es ++ (some t ∷ [])) (nil-joined (print e))
                ∙ sym (map-append (λ e. some (print e)) es (e ∷ []));
            numbered = IsNumbered-append 0 es e h.numbered (omega arith);
            parsed = All-append (λ e. parse (print e) ≡ some e) es (e ∷ []) h.parsed (same, tt);
          };
          tail = "";
          torn = (refl, inl refl);
        },
      )

  replay-corrupt :
      (from : ℕ) (es : List BenchEvent) (x : Found)
      → replay_lines parse print path from (founds es ++ (Found.unparsed ∷ x ∷ []))
        ≡ error (path <> " is corrupt")
  unfolding replay_lines
  replay-corrupt from [] x = refl
  replay-corrupt from (e ∷ es) x = rw (replay-corrupt from es x) refl

  -- Two events written after a torn line that is text leave a file that can no longer be read from
  -- any number, where the torn line does not parse with the first event's text behind it, and the
  -- second event's text reads back as it.
  pub write-torn :
      (f : JournalFile) (es : List BenchEvent) (e e' : BenchEvent) (from : ℕ) (tail : String)
      → Lists f es
      → f.rest ≡ some tail
      → parse (tail <> print e) ≡ none
      → parse (print e') ≡ some e'
      → replay parse print path
          (write_line parse print path e' (write_line parse print path e f))
          from
        ≡ error (path <> " is corrupt")
  unfolding replay write_line read_lines
  write-torn f es e e' from tail h torn broken same =
      ap (replay_lines parse print path from) (torn-read) ∙ replay-corrupt from es (Found.found e')
    where
      first : Line
      first = behind parse print path f.rest (print e)

      second : Line
      second = some ("" <> print e')

      unparsed-first : in_line first ≡ Found.unparsed
      unparsed-first =
          ap (λ r. in_line (behind parse print path r (print e))) torn
          ∙ ap (parsed_as parse print path) broken

      found-second : in_line second ≡ Found.found e'
      found-second =
          ap (λ t. in_line (some t)) (nil-joined (print e')) ∙ ap (parsed_as parse print path) same

      torn-read :
          map in_line ((f.lines ++ (first ∷ [])) ++ (second ∷ []))
          ≡ founds es ++ (Found.unparsed ∷ Found.found e' ∷ [])
      torn-read =
          ap (map in_line) (append_assoc f.lines (first ∷ []) (second ∷ []))
          ∙ map-append in_line f.lines _
          ∙ ap (λ xs. xs ++ (in_line first ∷ in_line second ∷ [])) (lines-found f es h)
          ∙ ap (λ x. founds es ++ (x ∷ in_line second ∷ [])) unparsed-first
          ∙ ap (λ x. founds es ++ (Found.unparsed ∷ x ∷ [])) found-second
