-- ===== src/Checks/Trace.antt =====
-- Tests of the trace and instances of its theorems.
use teledap.Prelude.{ℕ, ◌≡◌, refl, none, some, List, [], ◌∷◌}
use teledap.Trace.{
  TraceEntry, TraceSource, TraceDirection, Trace, Written, truncate, entry_of, recent, push, trace,
  consume, append_to,
}
use teledap.Trace.Ring.{Step, steps, sent, IsWindow, steps-IsWindow}
use TraceSource.{internal}
use TraceDirection.{outbound}
use Written.{written, write_failed}
use Step.{send, take_next}

abbrev note : ℕ → TraceEntry
note n = entry_of n internal outbound "note" none none none "s"

abbrev empty : Trace
empty = record { channel = []; ring = []; file = some []; session_id = "s" }

abbrev work : List Step
work =
    send (note 1)
    ∷ send (note 2)
    ∷ take_next written
    ∷ send (note 3)
    ∷ take_next write_failed
    ∷ take_next written
    ∷ []

truncate_short : truncate "abc" 3 ≡ some "abc"
unfolding truncate
truncate_short = refl

truncate_long : truncate "abcd" 3 ≡ some "abc…"
unfolding truncate
truncate_long = refl

-- The cut falls inside the two bytes of the third character.
truncate_panics : truncate "abéd" 3 ≡ none
unfolding truncate
truncate_panics = refl

-- A buffer of size zero still holds an entry.
push_zero : push 0 (push 0 [] (note 1)) (note 2) ≡ note 2 ∷ []
unfolding push
push_zero = refl

recent_two : recent (steps 2 empty work) 5 ≡ note 3 ∷ note 2 ∷ []
unfolding recent steps consume trace push
recent_two = refl

file_closed : (steps 2 empty work).file ≡ none
unfolding steps consume trace append_to
file_closed = refl

steps-IsWindow_example : IsWindow 2 (sent work) (steps 2 empty work)
steps-IsWindow_example = steps-IsWindow 2 empty work refl refl

abbrev behind : Trace
behind = record { channel = note 1 ∷ note 2 ∷ []; ring = []; file = none; session_id = "s" }
