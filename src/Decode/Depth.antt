-- ===== src/Decode/Depth.antt =====
-- How deep the decoder goes: from a message into the type of a field of another PGN or into the fields
-- of a NAME, and no further.
use canboat_rs.Prelude.{
  ℕ, suc, ◌≡◌, refl, ap, ◌∙◌, sym, List, [], Option, none, some, true, Option-cases, inl, inr,
}
use canboat_rs.Frame.{RawFrame}
use canboat_rs.Schema.{Floats, FieldInfo, PgnInfo, PgnDatabase, FieldType, first_pgn}
use canboat_rs.Schema as Kind
use canboat_rs.Decode.{DecodedField, no_context}
use canboat_rs.Decode.Field.{
  Deeper, decode_fixed, decode_by_width, decode_variable, decode_one_field_at,
}
use canboat_rs.Decode.Dynamic.{decode_dynamic_field_value}
use canboat_rs.Decode.Walk.{decode_fields, deeper_at, decode_with, decode}
use canboat_rs.Decode.Shallow.{is_shallow, are_shallow, field_same, fields_same}

-- With nothing known of the fields before it, a field needs of what lies deeper the fields of a NAME
-- at most.
module _ (fl : Floats) (one two : Deeper fl.Num) (f : FieldInfo fl.Num) (info : PgnInfo fl.Num)
    (bytes : List ℕ) (db : PgnDatabase fl.Num) (at : ℕ)
    (names : one.name_fields ≡ two.name_fields) where
  first_same :
      (t : Option FieldType)
      → f.field_type ≡ t
      → decode_one_field_at fl one f info bytes db at no_context
        ≡ decode_one_field_at fl two f info bytes db at no_context
  unfolding decode_one_field_at decode_by_width decode_fixed decode_variable
      decode_dynamic_field_value
  first_same none is = field_same fl one two info bytes db f at no_context (ap is_shallow is)
  first_same (some Kind.number) is =
      field_same fl one two info bytes db f at no_context (ap is_shallow is)
  first_same (some Kind.decimal) is =
      field_same fl one two info bytes db f at no_context (ap is_shallow is)
  first_same (some Kind.float) is =
      field_same fl one two info bytes db f at no_context (ap is_shallow is)
  first_same (some Kind.binary) is =
      field_same fl one two info bytes db f at no_context (ap is_shallow is)
  first_same (some Kind.lookup) is =
      field_same fl one two info bytes db f at no_context (ap is_shallow is)
  first_same (some Kind.bit_lookup) is =
      field_same fl one two info bytes db f at no_context (ap is_shallow is)
  first_same (some Kind.indirect_lookup) is =
      field_same fl one two info bytes db f at no_context (ap is_shallow is)
  first_same (some Kind.date) is =
      field_same fl one two info bytes db f at no_context (ap is_shallow is)
  first_same (some Kind.time) is =
      field_same fl one two info bytes db f at no_context (ap is_shallow is)
  first_same (some Kind.duration) is =
      field_same fl one two info bytes db f at no_context (ap is_shallow is)
  first_same (some Kind.string_fix) is =
      field_same fl one two info bytes db f at no_context (ap is_shallow is)
  first_same (some Kind.string_lz) is =
      field_same fl one two info bytes db f at no_context (ap is_shallow is)
  first_same (some Kind.string_lau) is =
      field_same fl one two info bytes db f at no_context (ap is_shallow is)
  first_same (some Kind.variable) is = rw is refl
  first_same (some Kind.mmsi) is =
      field_same fl one two info bytes db f at no_context (ap is_shallow is)
  first_same (some Kind.pgn_number) is =
      field_same fl one two info bytes db f at no_context (ap is_shallow is)
  first_same (some Kind.iso_name) is =
      let mixed : Deeper fl.Num = record {
        name_fields = one.name_fields;
        target_field = two.target_field;
      } in
      let step : decode_one_field_at fl one f info bytes db at no_context
          ≡ decode_one_field_at fl mixed f info bytes db at no_context =
        rw is refl in
      step
      ∙ ap
          (λ (nf : List ℕ → List (DecodedField fl.Num)).
            decode_one_field_at fl (record { name_fields = nf; target_field = two.target_field }) f
              info bytes db at no_context)
          names
  first_same (some Kind.reserved) is =
      field_same fl one two info bytes db f at no_context (ap is_shallow is)
  first_same (some Kind.spare) is =
      field_same fl one two info bytes db f at no_context (ap is_shallow is)
  first_same (some Kind.dynamic_field_key) is =
      field_same fl one two info bytes db f at no_context (ap is_shallow is)
  first_same (some Kind.dynamic_field_length) is =
      field_same fl one two info bytes db f at no_context (ap is_shallow is)
  first_same (some Kind.dynamic_field_value) is = rw is refl
  first_same (some Kind.field_index) is =
      field_same fl one two info bytes db f at no_context (ap is_shallow is)

-- The definition of the address claim, whose fields are those of a NAME, goes no deeper.
abbrev pub IsFlat : {N : Type 0} → PgnDatabase N → Type 0
IsFlat {N = N} db =
    (claim : PgnInfo N) → first_pgn db 60928 ≡ some claim → are_shallow claim.fields ≡ true

module _ (fl : Floats) (db : PgnDatabase fl.Num) (flat : IsFlat db) where
  named : List ℕ → Deeper fl.Num → Option (PgnInfo fl.Num) → List (DecodedField fl.Num)
  named bytes below o = elim o [
    | none ↦ []
    | some claim ↦ (decode_fields fl below claim bytes db).0
  ]

  names_same :
      (a b : ℕ) → (deeper_at fl db (suc a)).name_fields ≡ (deeper_at fl db (suc b)).name_fields
  unfolding deeper_at named
  names_same a b = λ i bytes. at_bytes bytes i
    where
      at_bytes :
          (bytes : List ℕ)
          → (deeper_at fl db (suc a)).name_fields bytes
            ≡ (deeper_at fl db (suc b)).name_fields bytes
      at_bytes bytes = elim (Option-cases (first_pgn db 60928)) [
        | inl e ↦
            ap (named bytes (deeper_at fl db a)) e ∙ sym (ap (named bytes (deeper_at fl db b)) e)
        | inr (claim, e) ↦
            ap (named bytes (deeper_at fl db a)) e
            ∙ ap (λ out. out.0)
                (fields_same fl (deeper_at fl db a) (deeper_at fl db b) claim bytes db
                  (flat claim e))
            ∙ sym (ap (named bytes (deeper_at fl db b)) e)
      ]

  target_same :
      (a b : ℕ) (f : FieldInfo fl.Num) (info : PgnInfo fl.Num) (bytes : List ℕ) (at : ℕ)
      → (deeper_at fl db (suc (suc a))).target_field f info bytes at
        ≡ (deeper_at fl db (suc (suc b))).target_field f info bytes at
  unfolding deeper_at
  target_same a b f info bytes at =
      ap (λ o. elim o [ none ↦ none | some out ↦ some (out.0, out.1) ])
        (first_same fl (deeper_at fl db (suc a)) (deeper_at fl db (suc b)) f info bytes db at
          (names_same a b) f.field_type refl)

  deeper_same : (a b : ℕ) → deeper_at fl db (suc (suc a)) ≡ deeper_at fl db (suc (suc b))
  deeper_same a b = λ i. record {
    name_fields = names_same (suc a) (suc b) i;
    target_field = λ f info bytes at. target_same a b f info bytes at i;
  }

-- The decoder ends two levels below the message: if the definition of the address claim has no field
-- of the types VARIABLE, ISO_NAME and DYNAMIC_FIELD_VALUE, every frame is decoded alike with two
-- levels and with any number more, for the type of a field of another PGN and the fields of a NAME.
pub decode-depth :
    (fl : Floats) (db : PgnDatabase fl.Num) (frame : RawFrame) (more : ℕ)
    → IsFlat db
    → decode fl (suc (suc more)) db frame ≡ decode fl 2 db frame
unfolding decode
decode-depth fl db frame more flat =
    ap (λ (d : Deeper fl.Num). decode_with fl d db frame) (deeper_same fl db flat more 0)
