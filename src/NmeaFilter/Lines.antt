-- ===== src/NmeaFilter/Lines.antt =====
-- The filter on whole lines: which of them reach an output.
use canboat_rs.Prelude.{
  ℕ, ◌≢◌, List, [], ◌∷◌, ◌++◌, Option, none, some, Bool, true, false, not, ◌||◌, if◌then◌else◌,
}
use canboat_rs.Frame.{Text}
use canboat_rs.NmeaFilter.{DeviceRule, NmeaFilter, sentence_formatter, mentions, get, or_default}

-- A line with its end.
abbrev pub ended : Text → Text
ended body = body ++ 10 ∷ []

abbrev pub HasNoEnd : Text → Type 0
HasNoEnd [] = Unit
HasNoEnd (c ∷ body) = (c ≢ 10) × HasNoEnd body

abbrev pub HaveNoEnd : List Text → Type 0
HaveNoEnd [] = Unit
HaveNoEnd (body ∷ bodies) = HasNoEnd body × HaveNoEnd bodies

-- The lines of which a test holds.
abbrev pub lines_where : (Text → Bool) → List Text → List Text
lines_where p [] = []
lines_where p (l ∷ ls) = if p l then l ∷ lines_where p ls else lines_where p ls

-- A rule mutes a line if it mutes the device, or the sentence that the line is.
abbrev pub mutes : DeviceRule → Text → Bool
mutes r line = r.muted || elim (sentence_formatter line) as (λ _. Bool) [
  | none ↦ false
  | some fmt ↦ mentions fmt r.muted_sentences
]

abbrev pub are_none_stored : List (ℕ × DeviceRule) → Bool
are_none_stored [] = true
are_none_stored (r ∷ rules) = false

abbrev passes_by : List (ℕ × DeviceRule) → Option ℕ → Text → Bool
passes_by rules none line = are_none_stored rules
passes_by rules (some name) line = not (mutes (or_default (get rules name)) line)

-- A line of a source passes if the rule of its NAME does not mute it; one of a source with no NAME if
-- there are no rules at all.
abbrev pub passes : NmeaFilter → ℕ → Text → Bool
passes f src = passes_by f.rules (f.src_name src)
