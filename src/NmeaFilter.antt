-- ===== src/NmeaFilter.antt =====
-- crates/canboat-bridge/src/n2kd/nmea_filter.rs: which sources and sentences reach the NMEA 0183
-- outputs. The rules are an association list by NAME, each NAME at most once; saving them to their
-- file and reading them from it is not modelled. A slice of a sentence is taken by bytes.
pub mod Rules
pub mod Lines
use canboat_rs.Prelude.{
  ℕ, zero, suc, ◌+◌, ◌-◌, ◌≡◌, List, [], ◌∷◌, ◌++◌, Option, none, some, Bool, true, false, not,
  ◌&&◌, ◌||◌, ltb, leb, ◌==◌, ◌>>=◌, if◌then◌else◌, length, take, drop, get_or,
}
use canboat_rs.Frame.{Text, RawFrame}

abbrev pub pgn_nmea0183_filter : ℕ
pgn_nmea0183_filter = 262657

abbrev pub filter_fn_set : ℕ
filter_fn_set = 1

abbrev pub filter_fn_request : ℕ
filter_fn_request = 2

-- `"ALL"`.
abbrev pub all_sentences : Text
all_sentences = 65 ∷ 76 ∷ 76 ∷ []

abbrev pub starts_with : ℕ → List ℕ → Bool
starts_with b [] = false
starts_with b (x ∷ xs) = x == b

unfoldable pub is_set_frame : RawFrame → Bool
is_set_frame f = f.pgn == pgn_nmea0183_filter && starts_with filter_fn_set f.payload

unfoldable pub is_request_frame : RawFrame → Bool
is_request_frame f = f.pgn == pgn_nmea0183_filter && starts_with filter_fn_request f.payload

abbrev pub same_text : Text → Text → Bool
same_text [] [] = true
same_text [] (y ∷ ys) = false
same_text (x ∷ xs) [] = false
same_text (x ∷ xs) (y ∷ ys) = x == y && same_text xs ys

abbrev pub mentions : Text → List Text → Bool
mentions s [] = false
mentions s (m ∷ ms) = same_text m s || mentions s ms

-- `retain(|s| s != sentence)`.
abbrev pub without : Text → List Text → List Text
without s [] = []
without s (m ∷ ms) = if same_text m s then without s ms else m ∷ without s ms

pub record DeviceRule : Type 0 where
  pub muted : Bool
  pub muted_sentences : List Text

abbrev pub no_rule : DeviceRule
no_rule = record { muted = false; muted_sentences = [] }

pub record NmeaFilter : Type 0 where
  pub src_name : ℕ → Option ℕ
  pub rules : List (ℕ × DeviceRule)
  pub observed : ℕ → List Text

pub data Decision : Type 0 where
  drop_all : Decision
  keep : List Text → Decision

-- The map of rules.
abbrev pub get : List (ℕ × DeviceRule) → ℕ → Option DeviceRule
get [] name = none
get ((n, r) ∷ rules) name = if n == name then some r else get rules name

abbrev pub remove : List (ℕ × DeviceRule) → ℕ → List (ℕ × DeviceRule)
remove [] name = []
remove ((n, r) ∷ rules) name = if n == name then remove rules name else (n, r) ∷ remove rules name

abbrev pub insert : List (ℕ × DeviceRule) → ℕ → DeviceRule → List (ℕ × DeviceRule)
insert rules name r = (name, r) ∷ remove rules name

abbrev pub or_default : Option DeviceRule → DeviceRule
or_default none = no_rule
or_default (some r) = r

unfoldable pub note_address_claim : NmeaFilter → ℕ → ℕ → NmeaFilter
note_address_claim f src name = record f {
  src_name = λ a. if a == src then some name else f.src_name a;
}

abbrev pub decision_of : Option DeviceRule → Decision
decision_of none = keep []
decision_of (some r) = if r.muted then drop_all else keep r.muted_sentences

abbrev pub decide_by : List (ℕ × DeviceRule) → Option ℕ → Decision
decide_by [] name = keep []
decide_by (r ∷ rules) none = drop_all
decide_by (r ∷ rules) (some name) = decision_of (get (r ∷ rules) name)

unfoldable pub decide : NmeaFilter → ℕ → Decision
decide f src = decide_by f.rules (f.src_name src)

-- The three bytes after `$` and the talker.
unfoldable pub sentence_formatter : Text → Option Text
sentence_formatter [] = none
sentence_formatter (c ∷ s) = if c == 36 && leb 5 (length s) then some (take 3 (drop 2 s)) else none

-- `split_inclusive('\n')`, after the part of a line that was read.
unfoldable pub split_inclusive : Text → Text → List Text
split_inclusive [] [] = []
split_inclusive (l ∷ line) [] = (l ∷ line) ∷ []
split_inclusive line (c ∷ cs) =
    let whole = (line ++ c ∷ []) ∷ split_inclusive [] cs in
    let more = split_inclusive (line ++ c ∷ []) cs in if c == 10 then whole else more

abbrev pub concat : List Text → Text
concat [] = []
concat (l ∷ ls) = l ++ concat ls

abbrev pub observe_one : List Text → Option Text → List Text
observe_one seen none = seen
observe_one seen (some fmt) = if mentions fmt seen then seen else fmt ∷ seen

unfoldable pub observe : List Text → List Text → List Text
observe seen [] = seen
observe seen (l ∷ ls) = observe (observe_one seen (sentence_formatter l)) ls

abbrev pub is_muted_line : List Text → Text → Bool
is_muted_line muted line = elim (sentence_formatter line) [
  | none ↦ false
  | some fmt ↦ mentions fmt muted
]

abbrev pub kept_lines : List Text → List Text → List Text
kept_lines muted [] = []
kept_lines muted (l ∷ ls) =
    if is_muted_line muted l then kept_lines muted ls else l ∷ kept_lines muted ls

abbrev pub filtered : Decision → Text → Text
filtered drop_all buf = []
filtered (keep []) buf = buf
filtered (keep (m ∷ ms)) buf = concat (kept_lines (m ∷ ms) (split_inclusive [] buf))

unfoldable pub apply : NmeaFilter → ℕ → Text → NmeaFilter × Text
apply f src buf =
    let seen = observe (f.observed src) (split_inclusive [] buf) in
    (
      record f { observed = λ a. if a == src then seen else f.observed a },
      filtered (decide f src) buf,
    )

-- The rule after a change.
unfoldable pub changed : DeviceRule → Text → Bool → DeviceRule
changed r sentence muted =
    if same_text sentence all_sentences
    then record r { muted = muted }
    else if muted
    then if mentions sentence r.muted_sentences
      then r
      else record r { muted_sentences = r.muted_sentences ++ sentence ∷ [] }
    else record r { muted_sentences = without sentence r.muted_sentences }

abbrev pub is_idle : DeviceRule → Bool
is_idle r = elim r.muted_sentences [ [] ↦ not r.muted | _ ↦ false ]

-- The rule of the NAME is changed, and dropped if it mutes nothing any more.
unfoldable pub set_rule : NmeaFilter → ℕ → Text → Bool → NmeaFilter
set_rule f name sentence muted =
    let r = changed (or_default (get f.rules name)) sentence muted in
    record f { rules = if is_idle r then remove f.rules name else insert f.rules name r }

unfoldable pub set : NmeaFilter → ℕ → Text → Bool → NmeaFilter × Bool
set f src sentence muted = elim (f.src_name src) [
  | none ↦ (f, false)
  | some name ↦ (set_rule f name sentence muted, true)
]
