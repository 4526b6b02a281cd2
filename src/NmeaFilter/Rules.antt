-- ===== src/NmeaFilter/Rules.antt =====
-- The filter against its meaning: a rule for every NAME, which mutes nothing where none is stored.
use canboat_rs.Prelude.{
  ◌⊎◌, ◌++◌, ◌&&◌, ◌||◌, subst, ℕ, ◌≡◌, ◌≢◌, refl, sym, ap, ap₂, ◌∙◌, inl, inr, arith, List, [],
  ◌∷◌, none, some, Bool, true, false, ◌==◌, Bool-cases, Option-cases, ne→==, eq→==,
}
use canboat_rs.Frame.{Text}
use mathlib.Core.Bool.{true≢false}
use canboat_rs.NmeaFilter.{
  DeviceRule, no_rule, NmeaFilter, get, remove, or_default, set_rule, changed, is_idle, set,
  same_text, mentions, without, all_sentences,
}

-- The rule that a NAME stands under.
abbrev pub rule_of : NmeaFilter → ℕ → DeviceRule
rule_of f name = or_default (get f.rules name)

get-remove_self : (rules : List (ℕ × DeviceRule)) (name : ℕ) → get (remove rules name) name ≡ none
get-remove_self [] name = refl
get-remove_self ((n, r) ∷ rules) name = elim (Bool-cases (n == name)) [
  | inl same ↦ rw same (get-remove_self rules name)
  | inr other ↦ rw (other, other) (get-remove_self rules name)
]

get-remove_other :
    (rules : List (ℕ × DeviceRule)) (name other : ℕ)
    → other ≢ name
    → get (remove rules name) other ≡ get rules other
get-remove_other [] name other ne = refl
get-remove_other ((n, r) ∷ rules) name other ne = elim (Bool-cases (n == name)) [
  | inl same ↦
      let there : n == other ≡ false = ground arith in
      rw (same, there) (get-remove_other rules name other ne)
  | inr differs ↦ elim (Bool-cases (n == other)) [
    | inl there ↦ rw (differs, there) refl
    | inr elsewhere ↦ rw (differs, elsewhere) (get-remove_other rules name other ne)
  ]
]

-- A rule that mutes nothing is as good as none.
is_idle-no_rule : (r : DeviceRule) → is_idle r ≡ true → r ≡ no_rule
is_idle-no_rule r h = ground arith

set_rule-rule_of :
    (f : NmeaFilter) (name : ℕ) (sentence : Text) (muted : Bool)
    → let g = set_rule f name sentence muted in
      (rule_of g name ≡ changed (rule_of f name) sentence muted)
      × ((other : ℕ) → other ≢ name → rule_of g other ≡ rule_of f other)
unfolding set_rule
set_rule-rule_of f name sentence muted =
    let r = changed (rule_of f name) sentence muted in
    elim (Bool-cases (is_idle r)) [
      | inl idle ↦ rw idle (
        ap or_default (get-remove_self f.rules name) ∙ sym (is_idle-no_rule r idle),
        λ other ne. ap or_default (get-remove_other f.rules name other ne),
      )
      | inr needed ↦
          let self = eq→== name name refl in
          rw (needed, self)
            (
              refl,
              λ other ne.
                  let differs = ne→== name other (λ q. ne (sym q)) in
                  rw differs (ap or_default (get-remove_other f.rules name other ne)),
            )
    ]

set-known :
    (f : NmeaFilter) (src name : ℕ) (sentence : Text) (muted : Bool)
    → f.src_name src ≡ some name
    → set f src sentence muted ≡ (set_rule f name sentence muted, true)
unfolding set
set-known f src name sentence muted e = rw (set, e) refl

set-unknown :
    (f : NmeaFilter) (src : ℕ) (sentence : Text) (muted : Bool)
    → f.src_name src ≡ none
    → set f src sentence muted ≡ (f, false)
unfolding set
set-unknown f src sentence muted e = rw (set, e) refl

-- Equality of texts.
same_text_≡ : (s t : Text) → same_text s t ≡ true → s ≡ t
same_text_≡ [] [] h = refl
same_text_≡ [] (y ∷ t) h = absurd (true≢false (sym h))
same_text_≡ (x ∷ s) [] h = absurd (true≢false (sym h))
same_text_≡ (x ∷ s) (y ∷ t) h = elim (Bool-cases (x == y)) [
  | inr other ↦ absurd (true≢false (sym h ∙ ap (λ (b : Bool). b && same_text s t) other))
  | inl same ↦
      let tails = ap (λ (b : Bool). b && same_text s t) (sym same) ∙ h in
      let heads : x ≡ y = ground arith in
      ap₂ (λ (c : ℕ) (cs : Text). c ∷ cs) heads (same_text_≡ s t tails)
]

same_text_refl : (s : Text) → same_text s s ≡ true
same_text_refl [] = refl
same_text_refl (x ∷ s) = let same = eq→== x x refl in rw same (same_text_refl s)

same_text_≢ : (s t : Text) → s ≢ t → same_text s t ≡ false
same_text_≢ s t ne = elim (Bool-cases (same_text s t)) [
  | inl same ↦ absurd (ne (same_text_≡ s t same))
  | inr other ↦ other
]

-- What a list of sentences mentions after a change.
mentions-append :
    (x : Text) (ms : List Text) (s : Text)
    → mentions x (ms ++ s ∷ []) ≡ mentions x ms || same_text s x
mentions-append x [] s = ground arith
mentions-append x (m ∷ ms) s = elim (Bool-cases (same_text m x)) [
  | inl same ↦ rw same refl
  | inr other ↦ rw other (mentions-append x ms s)
]

mentions-without_self : (s : Text) (ms : List Text) → mentions s (without s ms) ≡ false
mentions-without_self s [] = refl
mentions-without_self s (m ∷ ms) = elim (Bool-cases (same_text m s)) [
  | inl same ↦ rw same (mentions-without_self s ms)
  | inr other ↦ rw (other, other) (mentions-without_self s ms)
]

mentions-without_other :
    (s x : Text) (ms : List Text) → x ≢ s → mentions x (without s ms) ≡ mentions x ms
mentions-without_other s x [] ne = refl
mentions-without_other s x (m ∷ ms) ne = elim (Bool-cases (same_text m s)) [
  | inl same ↦
      let differs = same_text_≢ m x (λ q. ne (sym q ∙ same_text_≡ m s same)) in
      rw (same, differs) (mentions-without_other s x ms ne)
  | inr other ↦ elim (Bool-cases (same_text m x)) [
    | inl here ↦ rw (other, here) refl
    | inr there ↦ rw (other, there) (mentions-without_other s x ms ne)
  ]
]

-- What it means that a rule is changed: `ALL` sets the flag and leaves the sentences; any other
-- sentence is mentioned from then on exactly if it is muted, and flag and other sentences stay.
abbrev pub IsChanged : DeviceRule → Text → Bool → DeviceRule → Type 0
IsChanged r sentence muted r' =
    ((sentence ≡ all_sentences)
      × (r'.muted ≡ muted)
      × ((x : Text) → mentions x r'.muted_sentences ≡ mentions x r.muted_sentences))
    ⊎ ((sentence ≢ all_sentences)
        × (r'.muted ≡ r.muted)
        × (mentions sentence r'.muted_sentences ≡ muted)
        × ((x : Text)
            → x ≢ sentence
            → mentions x r'.muted_sentences ≡ mentions x r.muted_sentences))

changed-sentence :
    (r : DeviceRule) (s : Text) (muted : Bool)
    → same_text s all_sentences ≡ false
    → let r' = changed r s muted in
      (r'.muted ≡ r.muted)
      × (mentions s r'.muted_sentences ≡ muted)
      × ((x : Text) → x ≢ s → mentions x r'.muted_sentences ≡ mentions x r.muted_sentences)
unfolding changed
changed-sentence r s false one = rw one (
  refl,
  mentions-without_self s r.muted_sentences,
  λ x ne. mentions-without_other s x r.muted_sentences ne,
)
changed-sentence r s true one = elim (Bool-cases (mentions s r.muted_sentences)) [
  | inl there ↦ rw (one, there) (refl, there, λ x ne. refl)
  | inr missing ↦
      rw (one, missing)
        (
          refl,
          mentions-append s r.muted_sentences s
              ∙ (let self = same_text_refl s in rw self (ground arith)),
          λ x ne.
              mentions-append x r.muted_sentences s
              ∙ (let differs = same_text_≢ s x (λ q. ne (sym q)) in rw differs (ground arith)),
        )
]

changed-IsChanged :
    (r : DeviceRule) (s : Text) (muted : Bool) → IsChanged r s muted (changed r s muted)
changed-IsChanged r s muted = elim (Bool-cases (same_text s all_sentences)) [
  | inl all ↦ inl (
    same_text_≡ s all_sentences all,
    unfold changed in rw all refl,
    unfold changed in rw all (λ x. refl),
  )
  | inr one ↦
      let (flag, here, others) = changed-sentence r s muted one in
      inr (
        (λ e. true≢false (
            sym (same_text_refl all_sentences)
            ∙ ap (λ (t : Text). same_text t all_sentences) (sym e)
            ∙ one)),
        flag,
        here,
        others,
      )
]

-- `set` returns true exactly for a source whose NAME is known. Then it changes the rule of that NAME:
-- `ALL` mutes or unmutes the device, and leaves its muted sentences as they are; any other sentence
-- is muted from then on if that is asked, and is not if the contrary is asked, while the flag of
-- the device and all other sentences stay as they are. The rule of no other NAME changes. For a
-- source without a NAME nothing changes.
pub set-rule_of :
    (f : NmeaFilter) (src : ℕ) (sentence : Text) (muted : Bool)
    → let r = set f src sentence muted in
      ((name : ℕ) × (f.src_name src ≡ some name)
        × (r.1 ≡ true)
        × IsChanged (rule_of f name) sentence muted (rule_of r.0 name)
        × ((other : ℕ) → other ≢ name → rule_of r.0 other ≡ rule_of f other))
      ⊎ ((f.src_name src ≡ none) × (r ≡ (f, false)))
set-rule_of f src sentence muted = elim (Option-cases (f.src_name src)) [
  | inl e ↦ inr (e, set-unknown f src sentence muted e)
  | inr (name, e) ↦
      let (self, others) = set_rule-rule_of f name sentence muted in
      let known = set-known f src name sentence muted e in
      let becomes =
        subst (IsChanged (rule_of f name) sentence muted) (sym self)
          (changed-IsChanged (rule_of f name) sentence muted) in
      inl (
        name,
        e,
        ap (λ (r : NmeaFilter × Bool). r.1) known,
        subst
            (λ (r : NmeaFilter × Bool).
              IsChanged (rule_of f name) sentence muted (rule_of r.0 name))
            (sym known) becomes,
        subst
            (λ (r : NmeaFilter × Bool).
              (other : ℕ) → other ≢ name → rule_of r.0 other ≡ rule_of f other)
            (sym known) others,
      )
]
